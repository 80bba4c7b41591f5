-- ===== src/Pickers/Chosen.antt =====
-- What is chosen, as a set.
use isachore.Base.{
  ℕ, ◌≡◌, refl, ap, ◌∙◌, inl, inr, Bool, true, false, not, ◌||◌, List, [], ◌∷◌, ◌++◌, ◌==◌,
  if◌then◌else◌, arith, ==_iff, Bool-cases,
}
use isachore.Pickers.{includes, drop, toggle, Click, row, badge, select_all, clear, clicked, clicks}

-- A click on a set of ids.
abbrev pub meant : List ℕ → Click → (ℕ → Bool) → ℕ → Bool
meant offered (row id) chosen k = if k == id then not (chosen k) else chosen k
meant offered (badge id) chosen k = if k == id then false else chosen k
meant offered select_all chosen k = includes k offered
meant offered clear chosen k = false

abbrev pub all_meant : List ℕ → List Click → (ℕ → Bool) → ℕ → Bool
all_meant offered [] chosen = chosen
all_meant offered (c ∷ rest) chosen = all_meant offered rest (meant offered c chosen)

abbrev pub AreDistinct : List ℕ → Type 0
AreDistinct [] = Unit
AreDistinct (x ∷ xs) = (includes x xs ≡ false) × AreDistinct xs

same_id : (a b : ℕ) → (a == b) ≡ (b == a)
same_id a b = ground arith

includes-drop :
    (id k : ℕ) (value : List ℕ)
    → includes k (drop id value) ≡ (if k == id then false else includes k value)
includes-drop id k [] = elim (Bool-cases (k == id)) [ inl e ↦ rw e refl | inr e ↦ rw e refl ]
includes-drop id k (v ∷ value) =
    let rest = includes-drop id k value in
    elim (Bool-cases (v == id)) [
      | inl e ↦ elim (Bool-cases (k == id)) [
        | inl f ↦ rw e (rest ∙ rw f refl)
        | inr f ↦ let n : (v == k) ≡ false = ground (arith, e, f) in rw (e, n) rest
      ]
      | inr e ↦ elim (Bool-cases (k == id)) [
        | inl f ↦ let n : (v == k) ≡ false = ground (arith, e, f) in rw (e, n) rest
        | inr f ↦ rw e (ap (λ b. (v == k) || b) rest ∙ rw f refl)
      ]
    ]

includes-append :
    (k id : ℕ) (value : List ℕ) → includes k (value ++ id ∷ []) ≡ (includes k value || id == k)
includes-append k id [] = ground arith
includes-append k id (v ∷ value) =
    ap (λ b. (v == k) || b) (includes-append k id value) ∙ ground arith

includes-toggle :
    (id k : ℕ) (value : List ℕ)
    → includes k (toggle id value) ≡ (if k == id then not (includes k value) else includes k value)
includes-toggle id k value = elim (Bool-cases (includes id value)) [
  | inl e ↦ rw e (includes-drop id k value ∙ on e)
  | inr e ↦ rw e (includes-append k id value ∙ off e)
]
  where
    on :
        includes id value ≡ true
        → (if k == id then false else includes k value)
          ≡ (if k == id then not (includes k value) else includes k value)
    on e = elim (Bool-cases (k == id)) [
      | inl f ↦
          let q : k ≡ id = (==_iff k id).0 f in
          let g : includes k value ≡ true = ap (λ x. includes x value) q ∙ e in rw (f, g) refl
      | inr f ↦ rw f refl
    ]

    off :
        includes id value ≡ false
        → (includes k value || id == k)
          ≡ (if k == id then not (includes k value) else includes k value)
    off e = elim (Bool-cases (k == id)) [
      | inl f ↦
          let q : k ≡ id = (==_iff k id).0 f in
          let g : includes k value ≡ false = ap (λ x. includes x value) q ∙ e in
          ground (arith, f, g)
      | inr f ↦ ground (arith, f)
    ]

drop-AreDistinct : (id : ℕ) (value : List ℕ) → AreDistinct value → AreDistinct (drop id value)
drop-AreDistinct id [] d = tt
drop-AreDistinct id (v ∷ value) (d, ds) = elim (Bool-cases (v == id)) [
  | inl e ↦ rw e (drop-AreDistinct id value ds)
  | inr e ↦ rw e (includes-drop id v value ∙ rw e d, drop-AreDistinct id value ds)
]

append-AreDistinct :
    (id : ℕ) (value : List ℕ)
    → includes id value ≡ false
    → AreDistinct value
    → AreDistinct (value ++ id ∷ [])
append-AreDistinct id [] e d = (refl, tt)
append-AreDistinct id (v ∷ value) e (d, ds) =
    let n : (id == v) ≡ false = ground (arith, e) in
    let m : includes id value ≡ false = ground (arith, e) in
    (includes-append v id value ∙ rw (d, n) refl, append-AreDistinct id value m ds)

clicked-AreDistinct :
    (offered : List ℕ) (c : Click) (value : List ℕ)
    → AreDistinct offered
    → AreDistinct value
    → AreDistinct (clicked offered c value)
unfolding clicked
clicked-AreDistinct offered (row id) value o d = elim (Bool-cases (includes id value)) [
  | inl e ↦ rw e (drop-AreDistinct id value d)
  | inr e ↦ rw e (append-AreDistinct id value e d)
]
clicked-AreDistinct offered (badge id) value o d = drop-AreDistinct id value d
clicked-AreDistinct offered select_all value o d = o
clicked-AreDistinct offered clear value o d = tt

includes-clicked :
    (offered : List ℕ) (c : Click) (value : List ℕ) (k : ℕ)
    → includes k (clicked offered c value) ≡ meant offered c (λ y. includes y value) k
unfolding clicked
includes-clicked offered (row id) value k = includes-toggle id k value
includes-clicked offered (badge id) value k = includes-drop id k value
includes-clicked offered select_all value k = refl
includes-clicked offered clear value k = refl

-- However a multi-select is clicked, from a choice without repetition among items of different ids:
-- the choice has no repetition, and an id is in it exactly when it is in the set that the clicks
-- mean, in which a row's click turns its id around, a badge's takes it out, and the two others fill
-- and empty the set.
pub chosen_as_meant :
    (offered : List ℕ) (cs : List Click) (value : List ℕ)
    → AreDistinct offered
    → AreDistinct value
    → AreDistinct (clicks offered cs value)
      × ((k : ℕ)
          → includes k (clicks offered cs value) ≡ all_meant offered cs (λ y. includes y value) k)
unfolding clicks
chosen_as_meant offered [] value o d = (d, λ k. refl)
chosen_as_meant offered (c ∷ rest) value o d =
    let (e, f) =
      chosen_as_meant offered rest (clicked offered c value) o
        (clicked-AreDistinct offered c value o d) in
    (
      e,
      λ k.
          f k
          ∙ ap (λ (g : ℕ → Bool). all_meant offered rest g k)
              (λ i y. includes-clicked offered c value y i),
    )
