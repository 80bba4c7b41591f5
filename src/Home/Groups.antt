-- ===== src/Home/Groups.antt =====
-- The sections of the list.
use mathlib.Core.List.{Permᴰ}
use mathlib.Core.List.Permᴰ
use isachore.Base.{
  ◌+◌, String, ◌≡◌, refl, ap, ◌∙◌, ◌⊎◌, inl, inr, Bool, true, not, ◌=s=◌, List, [], ◌∷◌, ◌++◌, Memᴰ,
  map, select, mem_of_select, mem_of_map, ltb, leb, if◌then◌else◌, arith, Bool-cases,
}
use isachore.Base.Int.{ℤ, pos, negsuc}
use isachore.Base.Sorting.{IsSorted, IsTotal, sort_by-Perm, sort_by-IsSorted}
use isachore.Types.{DueStatus, DueChore}
use isachore.Home.{
  Clock, due_before, sort_by_due, DueGroupKey, now, week, later, group_order, due_group_key,
  in_group, DueGroup, is_nonempty, section, group_by_due, due_dot_class, is_soon,
}

due_before-IsTotal : (time : Clock) → IsTotal (due_before time)
due_before-IsTotal time = record {
  total = λ a b h. ground arith;
  trans = λ a b c h k. ground arith;
}

-- The items of the sections, one after the other.
abbrev pub all_items : List DueGroup → List DueChore
all_items [] = []
all_items (g ∷ gs) = g.items ++ all_items gs

select-IsSorted :
    (le : DueChore → DueChore → Bool) (p : DueChore → Bool) (xs : List DueChore)
    → IsSorted le xs
    → IsSorted le (select p xs)
select-IsSorted le p [] s = s
select-IsSorted le p (x ∷ xs) (below, s) = elim (Bool-cases (p x)) [
  | inl h ↦ rw h (λ y m. below y (mem_of_select p xs m).0, select-IsSorted le p xs s)
  | inr h ↦ rw h (select-IsSorted le p xs s)
]

-- An empty section has no item to lose.
drop_empty : (gs : List DueGroup) → all_items (select (λ g. is_nonempty g.items) gs) ≡ all_items gs
drop_empty [] = refl
drop_empty (g ∷ gs) = kept g.items refl (drop_empty gs)
  where
    kept :
        (items : List DueChore)
        → g.items ≡ items
        → all_items (select (λ g. is_nonempty g.items) gs) ≡ all_items gs
        → all_items (select (λ g. is_nonempty g.items) (g ∷ gs)) ≡ all_items (g ∷ gs)
    kept [] e ih = simp e ih
    kept (x ∷ xs) e ih = simp e (ap (λ is. (x ∷ xs) ++ is) ih)

key-cases : (k : DueGroupKey) → (k ≡ now) ⊎ (k ≡ week) ⊎ (k ≡ later)
key-cases DueGroupKey.now = inl refl
key-cases DueGroupKey.week = inr (inl refl)
key-cases DueGroupKey.later = inr (inr refl)

abbrev sections : List DueChore → List DueChore
sections xs =
    select (in_group now) xs ++ (select (in_group week) xs ++ (select (in_group later) xs ++ []))

sections-Perm : (xs : List DueChore) → Permᴰ (sections xs) xs
sections-Perm [] = Permᴰ.nil
sections-Perm (x ∷ xs) = elim (key-cases (due_group_key x)) [
  | inl e ↦ rw e (Permᴰ.cons refl (sections-Perm xs))
  | inr (inl e) ↦ rw e (
      Permᴰ.trans (Permᴰ.middle x (select (in_group now) xs) _)
        (Permᴰ.cons refl (sections-Perm xs)))
  | inr (inr e) ↦ rw e (
      Permᴰ.trans
        (Permᴰ.append_left (select (in_group now) xs)
          (Permᴰ.middle x (select (in_group week) xs) _))
        (Permᴰ.trans (Permᴰ.middle x (select (in_group now) xs) _)
          (Permᴰ.cons refl (sections-Perm xs))))
]

-- A section of the list: not empty, in due order, and of the chores of its key.
pub record IsSection (time : Clock) (g : DueGroup) : Type 0 where
  pub filled : is_nonempty g.items ≡ true
  pub sorted : IsSorted (due_before time) g.items
  pub own : (x : DueChore) → Memᴰ x g.items → in_group g.key x ≡ true

group-IsSection :
    (time : Clock) (items : List DueChore) (g : DueGroup)
    → Memᴰ g (group_by_due time items)
    → IsSection time g
unfolding group_by_due sort_by_due
group-IsSection time items g m =
    let sorted = sort_by_due time items in
    let (n, filled) = mem_of_select (λ (h : DueGroup). is_nonempty h.items) _ m in
    let (key, _, e) = mem_of_map (λ key. section key sorted) group_order n in
    rw (← e) (record {
      filled = ap (λ (h : DueGroup). is_nonempty h.items) e ∙ filled;
      sorted =
          select-IsSorted (due_before time) (in_group key) sorted
            (sort_by-IsSorted (due_before time) (due_before-IsTotal time) items);
      own = λ x k. (mem_of_select (in_group key) sorted k).1;
    })

-- The sections hold each chore of the list once, whatever the server sent; none is empty, each is
-- in due order, and each holds the chores of its own key.
pub group_by_due_lem :
    (time : Clock) (items : List DueChore)
    → Permᴰ (all_items (group_by_due time items)) items
      × ((g : DueGroup) → Memᴰ g (group_by_due time items) → IsSection time g)
unfolding group_by_due sort_by_due
group_by_due_lem time items = (
  rw (drop_empty (map (λ key. section key (sort_by_due time items)) group_order))
      (Permᴰ.trans (sections-Perm (sort_by_due time items)) (sort_by-Perm (due_before time) items)),
  λ g m. group-IsSection time items g m,
)

-- What the server says of a chore: its status is that of its days.
abbrev pub status_of : ℤ → DueStatus
status_of (negsuc n) = DueStatus.overdue
status_of (pos n) = if leb n 0 then DueStatus.today else DueStatus.soon

abbrev pub is_later : String → Bool
is_later class = class =s= "bg-due-later"

-- With a status that fits its days, a chore has the grey dot exactly in the last section, and stands
-- in the first exactly when it is overdue or due today.
pub dot-section :
    (chore : DueChore)
    → chore.status ≡ status_of chore.days_until_due
    → (is_later (due_dot_class chore) ≡ in_group later chore)
      × (in_group now chore ≡ not (is_soon chore.status))
unfolding due_dot_class due_group_key
dot-section chore h = by_days chore.days_until_due refl
  where
    by_days :
        (d : ℤ)
        → chore.days_until_due ≡ d
        → (is_later (due_dot_class chore) ≡ in_group later chore)
          × (in_group now chore ≡ not (is_soon chore.status))
    by_days (negsuc n) e =
        let s : chore.status ≡ DueStatus.overdue = h ∙ ap status_of e in simp (s, e) (ground arith)
    by_days (pos n) e = elim (Bool-cases (leb n 0)) [
      | inl z ↦
          let s : chore.status ≡ DueStatus.today = h ∙ (ap status_of e ∙ rw z refl) in
          simp (s, e) (ground (arith, z))
      | inr z ↦
          let s : chore.status ≡ DueStatus.soon = h ∙ (ap status_of e ∙ rw z refl) in
          elim (Bool-cases (ltb (7 + 0) (n + 0))) [
            | inl far ↦ simp (s, e, far) (ground (arith, z, far))
            | inr near ↦ simp (s, e, near) (ground (arith, z, near))
          ]
    ]
