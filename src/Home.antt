-- ===== src/Home.antt =====
-- The list of due chores: frontend/src/lib/home.ts. Dates are read by the browser, as a number of
-- milliseconds.
pub mod Groups
pub mod Page
mod Tests
use isachore.Base.{
  ℕ, String, Bool, true, false, not, ◌&&◌, List, [], ◌∷◌, map, select, ltb, leb, ◌==◌,
  if◌then◌else◌,
}
use isachore.Base.Int.{ℤ, pos, ltb_ℤ, leb_ℤ, abs}
use isachore.Base.Sorting.{sort_by}
use isachore.Types.{DueStatus, overdue, today, soon, DueChore}

-- `new Date(text).getTime()` on the timestamps that the server sends.
abbrev pub Clock : Type 0
Clock = String → ℤ

-- Not after the other by `new Date(a.next_due) - new Date(b.next_due) || a.id - b.id`.
abbrev pub due_before : Clock → DueChore → DueChore → Bool
due_before time a b =
    if ltb_ℤ (time a.next_due) (time b.next_due)
    then true
    else if ltb_ℤ (time b.next_due) (time a.next_due)
    then false
    else leb a.id b.id

unfoldable pub sort_by_due : Clock → List DueChore → List DueChore
sort_by_due time items = sort_by (due_before time) items

abbrev pub due_soon_days : ℕ
due_soon_days = 7

abbrev pub dot : DueStatus → String
dot overdue = "bg-due-overdue"
dot today = "bg-due-today"
dot soon = "bg-due-soon"

abbrev pub is_soon : DueStatus → Bool
is_soon soon = true
is_soon _ = false

unfoldable pub due_dot_class : DueChore → String
due_dot_class chore =
    if is_soon chore.status && ltb_ℤ (pos due_soon_days) chore.days_until_due
    then "bg-due-later"
    else dot chore.status

pub data DueGroupKey : Type 0 where
  now week later : DueGroupKey

abbrev pub group_order : List DueGroupKey
group_order = now ∷ week ∷ later ∷ []

unfoldable pub due_group_key : DueChore → DueGroupKey
due_group_key chore =
    if leb_ℤ chore.days_until_due (pos 0)
    then now
    else if ltb_ℤ (pos due_soon_days) chore.days_until_due
    then later
    else week

abbrev pub same_key : DueGroupKey → DueGroupKey → Bool
same_key now now = true
same_key week week = true
same_key later later = true
same_key _ _ = false

pub record DueGroup : Type 0 where
  pub key : DueGroupKey
  pub items : List DueChore

abbrev pub is_nonempty {ℓ} : {A : Type ℓ} → List A → Bool
is_nonempty [] = false
is_nonempty (x ∷ xs) = true

abbrev pub in_group : DueGroupKey → DueChore → Bool
in_group key chore = same_key (due_group_key chore) key

abbrev pub section : DueGroupKey → List DueChore → DueGroup
section key sorted = record { key = key; items = select (in_group key) sorted }

unfoldable pub group_by_due : Clock → List DueChore → List DueGroup
group_by_due time items =
    let sorted = sort_by_due time items in
    select (λ g. is_nonempty g.items) (map (λ key. section key sorted) group_order)

-- The sentences of `relativeDueLabel`.
pub record DueWords : Type 0 where
  pub due_today : String
  pub overdue_by : ℕ → String
  pub due_in : ℕ → String

unfoldable pub relative_due_label : DueWords → DueChore → String
relative_due_label t item = elim item.status [
  | overdue ↦ t.overdue_by (abs item.days_until_due)
  | today ↦ t.due_today
  | soon ↦ t.due_in (abs item.days_until_due)
]
