-- ===== src/Chores/Days.antt =====
-- The days of a weekly schedule: which, in which order, and that it does not matter how they were
-- picked.
use mathlib.Core.List.{Permᴰ}
use mathlib.Core.List.Permᴰ
use isachore.Base.{
  ℕ, ◌<◌, ◌≤◌, ◌≡◌, refl, ap, ◌∙◌, ◌↔◌, inl, inr, Bool, true, some, List, [], ◌∷◌, Memᴰ, select,
  leb, ltb, arith, Bool-cases, mem_of_select, mem-select,
}
use isachore.Base.Sorting
use isachore.Base.Sorting.{
  put_in, sort_by, IsTotal, sort_by-Perm, sort_by-IsSorted, mem_of_perm, mem_to_perm,
}
use isachore.Types.{RepeatPeriod, weekly}
use isachore.Chores.{sort, shown_days, Words, with_days, repeat_label}

put_in-swap :
    (a b : ℕ) (ds : List ℕ) → put_in leb a (put_in leb b ds) ≡ put_in leb b (put_in leb a ds)
unfolding put_in
put_in-swap a b [] = ground arith
put_in-swap a b (d ∷ ds) = ground (arith, put_in-swap a b ds)

sort-Perm : {xs ys : List ℕ} → Permᴰ xs ys → sort xs ≡ sort ys
unfolding sort sort_by
sort-Perm Permᴰ.nil = refl
sort-Perm (Permᴰ.cons {b = b} e p) = rw (e, sort-Perm p)
sort-Perm (Permᴰ.swap {l = l} e f) = rw (e, f) (put_in-swap _ _ (sort l))
sort-Perm (Permᴰ.trans p q) = sort-Perm p ∙ sort-Perm q

select-Perm : (p : ℕ → Bool) {xs ys : List ℕ} → Permᴰ xs ys → Permᴰ (select p xs) (select p ys)
select-Perm p Permᴰ.nil = Permᴰ.nil
select-Perm p (Permᴰ.cons {b = b} e q) = elim (Bool-cases (p b)) [
  | inl h ↦ rw (e, h) (Permᴰ.cons refl (select-Perm p q))
  | inr h ↦ rw (e, h) (select-Perm p q)
]
select-Perm p (Permᴰ.swap {a' = a} {b' = b} {l = l} e f) =
    rw (e, f)
      (elim (Bool-cases (p a)) [
        | inl h ↦ elim (Bool-cases (p b)) [
          | inl k ↦ rw (h, k) (Permᴰ.swap refl refl)
          | inr k ↦ rw (h, k) (Permᴰ.refl (a ∷ select p l))
        ]
        | inr h ↦ elim (Bool-cases (p b)) [
          | inl k ↦ rw (h, k) (Permᴰ.refl (b ∷ select p l))
          | inr k ↦ rw (h, k) (Permᴰ.refl (select p l))
        ]
      ])
select-Perm p (Permᴰ.trans q r) = Permᴰ.trans (select-Perm p q) (select-Perm p r)

-- The label does not depend on the order in which the days were picked.
pub repeat_label_order :
    (t : Words) (repeats : RepeatPeriod) (interval : ℕ) {xs ys : List ℕ}
    → Permᴰ xs ys
    → repeat_label t repeats interval (some xs) ≡ repeat_label t repeats interval (some ys)
unfolding repeat_label shown_days
repeat_label_order t RepeatPeriod.manual interval q = refl
repeat_label_order t RepeatPeriod.daily interval q = refl
repeat_label_order t RepeatPeriod.weekly interval q =
    ap (with_days t (t.every weekly _)) (sort-Perm (select-Perm (λ d. ltb d 7) q))
repeat_label_order t RepeatPeriod.monthly interval q = refl
repeat_label_order t RepeatPeriod.yearly interval q = refl

abbrev pub IsSorted : List ℕ → Type 0
IsSorted [] = Unit
IsSorted (d ∷ ds) = ((x : ℕ) → Memᴰ x ds → d ≤ x) × IsSorted ds

leb-IsTotal : IsTotal leb
leb-IsTotal = record { total = λ a b h. ground arith; trans = λ a b c h k. ground arith }

in_order : (ds : List ℕ) → Sorting.IsSorted leb ds → IsSorted ds
in_order [] s = tt
in_order (d ∷ ds) (below, s) = (λ x m. ground (arith, below x m), in_order ds s)

-- The label names exactly the days of the chore that are days of a week, Monday first.
pub shown_days_lem :
    (days : List ℕ)
    → IsSorted (shown_days (some days))
      × ((d : ℕ) → Memᴰ d (shown_days (some days)) ↔ (Memᴰ d days × (d < 7)))
unfolding shown_days sort
shown_days_lem days = (
  in_order _ (sort_by-IsSorted leb leb-IsTotal (select (λ d. ltb d 7) days)),
  λ d. (
    λ m.
        let (n, h) = mem_of_select (λ d. ltb d 7) days (mem_of_perm (sort_by-Perm leb _) m) in
        let low : d < 7 = ground (arith, h) in (n, low),
    λ (m, low).
        let h : ltb d 7 ≡ true = ground (arith, low) in
        mem_to_perm (sort_by-Perm leb _) (mem-select (λ d. ltb d 7) days m h),
  ),
)
