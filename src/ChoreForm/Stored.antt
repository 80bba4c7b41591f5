-- ===== src/ChoreForm/Stored.antt =====
-- A chore as the API gives it, and its fields there and back.
use isachore.Base.{
  ℕ, zero, suc, String, arith, ◌≡◌, refl, sym, ap, ◌≤◌, Bool, true, false, Option, none, some, List,
  [], ◌∷◌, map, select, Memᴰ, if◌then◌else◌, ◌=s=◌, ne→text,
}
use isachore.Base.Int.{pos, leb_ℤ}
use isachore.Types.{Chore, RepeatPeriod}
use isachore.Web.Number.{max_safe}
use isachore.Web.Whole.{Whole, finite, at_least, at_most, or_else}
use isachore.ChoreForm.{
  max_repeat_interval, ChoreSubmit, Props, includes, is_manual, is_manual_repeat, is_weekly,
  nonempty_text, nonempty_list, kept_if,
}
use isachore.ChoreForm.Seeds.{text_or_empty, days_or_empty, member_id, is_unassigned}

-- What the schema of the API makes of a schedule and a description that it takes
-- (backend/app/schemas/chore.py), a turn that a number counts exactly, and assignees and tags that
-- are among the members and the tags that the page has loaded.
pub record IsStored (chore : Chore) (props : Props) : Type 0 where
  pub every : (1 ≤ chore.repeat_interval) × (chore.repeat_interval ≤ max_repeat_interval)
  pub never :
      chore.repeats ≡ RepeatPeriod.manual → (chore.repeat_interval ≡ 1) × (chore.start_date ≡ none)
  pub dated :
      (chore.repeats ≡ RepeatPeriod.manual → ⊥)
      → (d : String) × ((chore.start_date ≡ some d) × ((d =s= "") ≡ false))
  pub pinned : (chore.repeats ≡ RepeatPeriod.weekly → ⊥) → chore.weekdays ≡ none
  pub days : (chore.weekdays ≡ some [] → ⊥)
  pub turns : (1 ≤ chore.turn_length) × (chore.turn_length ≤ max_safe)
  pub described : (chore.description ≡ some "" → ⊥)
  pub pool :
      (id : ℕ)
      → Memᴰ id (map (λ a. a.id) chore.assignees)
      → includes (map (λ m. m.id) props.members) id ≡ true
  pub labels :
      (id : ℕ)
      → Memᴰ id (map (λ tag. tag.id) chore.tags)
      → includes (map (λ tag. tag.id) props.tags) id ≡ true

-- The chore's own values, as they are sent.
abbrev pub saved : Chore → ChoreSubmit
saved chore = record {
  title = chore.title;
  description = chore.description;
  start_date = chore.start_date;
  repeats = chore.repeats;
  assignment_type = chore.assignment_type;
  turn_length = finite (pos chore.turn_length);
  repeat_interval = finite (pos chore.repeat_interval);
  weekdays = chore.weekdays;
  assignee_ids = map (λ a. a.id) chore.assignees;
  current_assignee_id = member_id chore.current_assignee;
  clear_current_assignee = is_unassigned chore.current_assignee chore.assignees;
  tag_ids = map (λ tag. tag.id) chore.tags;
}

-- The turn that is sent: one completion where the assignment is by hand.
abbrev pub turn_sent : Chore → Whole
turn_sent chore = finite (pos (if is_manual chore.assignment_type then 1 else chore.turn_length))

-- The current assignee, if one of the chore's assignees.
abbrev pub current_in_pool : Chore → Option ℕ
current_in_pool chore =
    kept_if (includes (map (λ a. a.id) chore.assignees)) (member_id chore.current_assignee)

pub select_all :
    (p : ℕ → Bool) (xs : List ℕ) → ((x : ℕ) → Memᴰ x xs → p x ≡ true) → select p xs ≡ xs
select_all p [] h = refl
select_all p (x ∷ xs) h =
    rw (h x (Memᴰ.head refl)) (ap (λ ys. x ∷ ys) (select_all p xs (λ y m. h y (Memᴰ.tail m))))

pub text_back : (o : Option String) → (o ≡ some "" → ⊥) → nonempty_text (text_or_empty o) ≡ o
text_back none h = refl
text_back (some s) h = rw (ne→text s "" (λ e. h (ap some e))) refl

pub days_back :
    (r : RepeatPeriod) (o : Option (List ℕ))
    → (o ≡ some [] → ⊥)
    → ((r ≡ RepeatPeriod.weekly → ⊥) → o ≡ none)
    → nonempty_list (if is_weekly r then days_or_empty o else []) ≡ o
days_back RepeatPeriod.weekly none h k = refl
days_back RepeatPeriod.weekly (some []) h k = absurd (h refl)
days_back RepeatPeriod.weekly (some (d ∷ ds)) h k = refl
days_back RepeatPeriod.manual o h k = sym (k (λ e. cc))
days_back RepeatPeriod.daily o h k = sym (k (λ e. cc))
days_back RepeatPeriod.monthly o h k = sym (k (λ e. cc))
days_back RepeatPeriod.yearly o h k = sym (k (λ e. cc))

pub date_back :
    (b : Bool) (o : Option String) (today : String)
    → (b ≡ true → o ≡ none)
    → (b ≡ false → (d : String) × ((o ≡ some d) × ((d =s= "") ≡ false)))
    → (if b then none else some (if text_or_empty o =s= "" then today else text_or_empty o)) ≡ o
date_back true o today h k = sym (h refl)
date_back false o today h k = let (d, (e, f)) = k refl in rw (e, f) refl

or_else_pos : (n d : ℕ) → 1 ≤ n → or_else (finite (pos n)) d ≡ finite (pos n)
or_else_pos zero d h = absurd (omega (arith, h))
or_else_pos (suc n) d h = refl

pub between :
    (n : ℕ)
    → 1 ≤ n
    → n ≤ max_repeat_interval
    → at_most max_repeat_interval (at_least 1 (or_else (finite (pos n)) 1)) ≡ finite (pos n)
between n h k =
    let low : leb_ℤ (pos 1) (pos n) ≡ true = ground (arith, h) in
    let high : leb_ℤ (pos n) (pos max_repeat_interval) ≡ true = ground (arith, k) in
    rw (or_else_pos n 1 h, low, high) refl

pub turns_back : (n : ℕ) → 2 ≤ n → at_least 2 (or_else (finite (pos n)) 2) ≡ finite (pos n)
turns_back n h =
    let low : leb_ℤ (pos 2) (pos n) ≡ true = ground (arith, h) in
    rw (or_else_pos n 2 (omega (arith, h)), low) refl

pub manual_repeat : (r : RepeatPeriod) → is_manual_repeat r ≡ true → r ≡ RepeatPeriod.manual
manual_repeat RepeatPeriod.manual e = refl
manual_repeat RepeatPeriod.daily e = cc
manual_repeat RepeatPeriod.weekly e = cc
manual_repeat RepeatPeriod.monthly e = cc
manual_repeat RepeatPeriod.yearly e = cc

pub not_manual : (r : RepeatPeriod) → is_manual_repeat r ≡ false → r ≡ RepeatPeriod.manual → ⊥
not_manual RepeatPeriod.manual e h = cc
not_manual RepeatPeriod.daily e h = cc
not_manual RepeatPeriod.weekly e h = cc
not_manual RepeatPeriod.monthly e h = cc
not_manual RepeatPeriod.yearly e h = cc
