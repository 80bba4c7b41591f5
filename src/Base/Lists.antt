-- ===== src/Base/Lists.antt =====
-- Lists by native numbers and Boolean predicates: `some`, `filter`, `find` and `includes` of the
-- program's arrays.
use Prim.Native.Nat.{ℕ, suc}
use mathlib.Core.Path.{◌≡◌, refl, sym, ap, ◌∙◌}
use mathlib.Core.Logic.{◌⊎◌, inl, inr}
use mathlib.Core.Bool.{Bool, true, false, ◌||◌}
use mathlib.Core.List.{List, [], ◌∷◌, ◌++◌, map, Memᴰ}
use mathlib.Core.Option.{Option, none, some}
use native.Mathlib.Omega.{arith}
use isachore.Base.Tests.{if◌then◌else◌, Bool-cases}

module _ {ℓ} {A : Type ℓ} where
  abbrev pub length : List A → ℕ
  length [] = 0
  length (x ∷ xs) = suc (length xs)

  abbrev pub any : (A → Bool) → List A → Bool
  any p [] = false
  any p (x ∷ xs) = p x || any p xs

  -- `xs.filter(p)`
  abbrev pub select : (A → Bool) → List A → List A
  select p [] = []
  select p (x ∷ xs) = if p x then x ∷ select p xs else select p xs

  -- `xs.find(p)`
  abbrev pub find : (A → Bool) → List A → Option A
  find p [] = none
  find p (x ∷ xs) = if p x then some x else find p xs

  pub any_sound :
      (p : A → Bool) (xs : List A) → any p xs ≡ true → (x : A) × Memᴰ x xs × (p x ≡ true)
  any_sound p [] h = cc
  any_sound p (x ∷ xs) h = elim (Bool-cases (p x)) [
    | inl e ↦ (x, Memᴰ.head refl, e)
    | inr e ↦ let (y, m, q) = any_sound p xs (ground arith) in (y, Memᴰ.tail m, q)
  ]

  pub any_complete : (p : A → Bool) (xs : List A) {x : A} → Memᴰ x xs → p x ≡ true → any p xs ≡ true
  any_complete p [] m h = elim m [ ]
  any_complete p (y ∷ xs) (Memᴰ.head e) h = let q : p y ≡ true = ap p (sym e) ∙ h in ground arith
  any_complete p (y ∷ xs) (Memᴰ.tail m) h = ground (arith, any_complete p xs m h)

  pub mem_of_select :
      (p : A → Bool) (xs : List A) {x : A} → Memᴰ x (select p xs) → Memᴰ x xs × (p x ≡ true)
  mem_of_select p [] m = elim m [ ]
  mem_of_select p (y ∷ xs) {x} m = elim (Bool-cases (p y)) [
    | inl e ↦ keep e (rw e at m) (mem_of_select p xs)
    | inr e ↦ let (n, q) = mem_of_select p xs (rw e at m) in (Memᴰ.tail n, q)
  ]
    where
      keep :
          p y ≡ true
          → Memᴰ x (y ∷ select p xs)
          → (Memᴰ x (select p xs) → Memᴰ x xs × (p x ≡ true))
          → Memᴰ x (y ∷ xs) × (p x ≡ true)
      keep e (Memᴰ.head q) ih = (Memᴰ.head q, ap p q ∙ e)
      keep e (Memᴰ.tail n) ih = (Memᴰ.tail (ih n).0, (ih n).1)

  pub mem-select :
      (p : A → Bool) (xs : List A) {x : A} → Memᴰ x xs → p x ≡ true → Memᴰ x (select p xs)
  mem-select p [] m h = elim m [ ]
  mem-select p (y ∷ xs) {x} (Memᴰ.head e) h =
      let q : p y ≡ true = ap p (sym e) ∙ h in rw q (Memᴰ.head e)
  mem-select p (y ∷ xs) (Memᴰ.tail m) h = elim (Bool-cases (p y)) [
    | inl e ↦ rw e (Memᴰ.tail (mem-select p xs m h))
    | inr e ↦ rw e (mem-select p xs m h)
  ]

  pub find_sound :
      (p : A → Bool) (xs : List A) {x : A} → find p xs ≡ some x → Memᴰ x xs × (p x ≡ true)
  find_sound p [] h = cc
  find_sound p (y ∷ xs) {x} h = elim (Bool-cases (p y)) [
    | inl e ↦ let same : x ≡ y = ground arith in (Memᴰ.head same, ap p same ∙ e)
    | inr e ↦ let (m, q) = find_sound p xs (rw e at h) in (Memᴰ.tail m, q)
  ]

-- Membership through `map` and `++`, with the witnesses kept.
module _ {ℓ κ} {A : Type ℓ} {B : Type κ} where
  pub mem-map : (f : A → B) (xs : List A) {x : A} → Memᴰ x xs → Memᴰ (f x) (map f xs)
  mem-map f [] m = elim m [ ]
  mem-map f (y ∷ xs) (Memᴰ.head e) = Memᴰ.head (ap f e)
  mem-map f (y ∷ xs) (Memᴰ.tail m) = Memᴰ.tail (mem-map f xs m)

  pub mem_of_map :
      (f : A → B) (xs : List A) {b : B} → Memᴰ b (map f xs) → (x : A) × Memᴰ x xs × (f x ≡ b)
  mem_of_map f [] m = elim m [ ]
  mem_of_map f (y ∷ xs) (Memᴰ.head e) = (y, Memᴰ.head refl, sym e)
  mem_of_map f (y ∷ xs) (Memᴰ.tail m) = let (x, n, e) = mem_of_map f xs m in (x, Memᴰ.tail n, e)

module _ {ℓ} {A : Type ℓ} where
  pub mem-append_left : (xs ys : List A) {x : A} → Memᴰ x xs → Memᴰ x (xs ++ ys)
  mem-append_left [] ys m = elim m [ ]
  mem-append_left (y ∷ xs) ys (Memᴰ.head e) = Memᴰ.head e
  mem-append_left (y ∷ xs) ys (Memᴰ.tail m) = Memᴰ.tail (mem-append_left xs ys m)

  pub mem-append_right : (xs ys : List A) {x : A} → Memᴰ x ys → Memᴰ x (xs ++ ys)
  mem-append_right [] ys m = m
  mem-append_right (y ∷ xs) ys m = Memᴰ.tail (mem-append_right xs ys m)

  pub mem_of_append : (xs ys : List A) {x : A} → Memᴰ x (xs ++ ys) → Memᴰ x xs ⊎ Memᴰ x ys
  mem_of_append [] ys m = inr m
  mem_of_append (y ∷ xs) ys (Memᴰ.head e) = inl (Memᴰ.head e)
  mem_of_append (y ∷ xs) ys (Memᴰ.tail m) = elim (mem_of_append xs ys m) [
    | inl n ↦ inl (Memᴰ.tail n)
    | inr n ↦ inr n
  ]
