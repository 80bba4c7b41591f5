-- ===== src/Base/Sorting.antt =====
-- A stable sort by a Boolean order, as `Array.prototype.sort` gives for a comparison that is a total
-- preorder: what it keeps, and that it sorts.
use mathlib.Core.List.{Permᴰ}
use mathlib.Core.List.Permᴰ
use mathlib.Core.Path.{◌≡◌, refl, ap, ◌∙◌}
use mathlib.Core.Logic.{◌⊎◌, inl, inr}
use mathlib.Core.Bool.{Bool, true, false}
use mathlib.Core.List.{List, [], ◌∷◌, Memᴰ}
use isachore.Base.Tests.{if◌then◌else◌, Bool-cases}

module _ {ℓ} {A : Type ℓ} where
  pub mem_of_perm : {xs ys : List A} {x : A} → Permᴰ xs ys → Memᴰ x xs → Memᴰ x ys
  mem_of_perm Permᴰ.nil m = m
  mem_of_perm (Permᴰ.cons e p) (Memᴰ.head q) = Memᴰ.head (q ∙ e)
  mem_of_perm (Permᴰ.cons e p) (Memᴰ.tail m) = Memᴰ.tail (mem_of_perm p m)
  mem_of_perm (Permᴰ.swap e f) (Memᴰ.head q) = Memᴰ.tail (Memᴰ.head (q ∙ e))
  mem_of_perm (Permᴰ.swap e f) (Memᴰ.tail (Memᴰ.head q)) = Memᴰ.head (q ∙ f)
  mem_of_perm (Permᴰ.swap e f) (Memᴰ.tail (Memᴰ.tail m)) = Memᴰ.tail (Memᴰ.tail m)
  mem_of_perm (Permᴰ.trans p q) m = mem_of_perm q (mem_of_perm p m)

  pub mem_to_perm : {xs ys : List A} {x : A} → Permᴰ xs ys → Memᴰ x ys → Memᴰ x xs
  mem_to_perm p m = mem_of_perm (Permᴰ.symm p) m

module _ {ℓ} {A : Type ℓ} (le : A → A → Bool) where
  unfoldable pub put_in : A → List A → List A
  put_in x [] = x ∷ []
  put_in x (y ∷ ys) = if le x y then x ∷ y ∷ ys else y ∷ put_in x ys

  unfoldable pub sort_by : List A → List A
  unfolding put_in
  sort_by [] = []
  sort_by (x ∷ xs) = put_in x (sort_by xs)

  abbrev pub IsSorted : List A → Type ℓ
  IsSorted [] = Unit {ℓ}
  IsSorted (x ∷ xs) = ((y : A) → Memᴰ y xs → le x y ≡ true) × IsSorted xs

  put_in-Perm : (x : A) (xs : List A) → Permᴰ (put_in x xs) (x ∷ xs)
  unfolding put_in
  put_in-Perm x [] = Permᴰ.refl (x ∷ [])
  put_in-Perm x (y ∷ ys) = elim (Bool-cases (le x y)) [
    | inl h ↦ rw h (Permᴰ.refl (x ∷ y ∷ ys))
    | inr h ↦ rw h (Permᴰ.trans (Permᴰ.cons refl (put_in-Perm x ys)) (Permᴰ.swap refl refl))
  ]

  pub sort_by-Perm : (xs : List A) → Permᴰ (sort_by xs) xs
  unfolding sort_by
  sort_by-Perm [] = Permᴰ.nil
  sort_by-Perm (x ∷ xs) =
      Permᴰ.trans (put_in-Perm x (sort_by xs)) (Permᴰ.cons refl (sort_by-Perm xs))

  -- An order that is total and transitive.
  pub record IsTotal : Type ℓ where
    pub total : (x y : A) → le x y ≡ false → le y x ≡ true
    pub trans : (x y z : A) → le x y ≡ true → le y z ≡ true → le x z ≡ true

  mem_of_put_in : (x : A) (xs : List A) {y : A} → Memᴰ y (put_in x xs) → (y ≡ x) ⊎ Memᴰ y xs
  unfolding put_in
  mem_of_put_in x [] (Memᴰ.head e) = inl e
  mem_of_put_in x [] (Memᴰ.tail m) = elim m [ ]
  mem_of_put_in x (z ∷ zs) {y} m = placed (le x z) m (mem_of_put_in x zs)
    where
      placed :
          (b : Bool)
          → Memᴰ y (if b then x ∷ z ∷ zs else z ∷ put_in x zs)
          → (Memᴰ y (put_in x zs) → (y ≡ x) ⊎ Memᴰ y zs)
          → (y ≡ x) ⊎ Memᴰ y (z ∷ zs)
      placed true (Memᴰ.head e) ih = inl e
      placed true (Memᴰ.tail n) ih = inr n
      placed false (Memᴰ.head e) ih = inr (Memᴰ.head e)
      placed false (Memᴰ.tail n) ih = elim (ih n) [ inl e ↦ inl e | inr o ↦ inr (Memᴰ.tail o) ]

  put_in-IsSorted : IsTotal → (x : A) (xs : List A) → IsSorted xs → IsSorted (put_in x xs)
  unfolding put_in
  put_in-IsSorted t x [] s = (λ y m. elim m [ ], tt)
  put_in-IsSorted t x (z ∷ zs) (below, s) = elim (Bool-cases (le x z)) [
    | inl h ↦ rw h (least h, (below, s))
    | inr h ↦ rw h (above h, put_in-IsSorted t x zs s)
  ]
    where
      least : le x z ≡ true → (y : A) → Memᴰ y (z ∷ zs) → le x y ≡ true
      least h y (Memᴰ.head e) = ap (le x) e ∙ h
      least h y (Memᴰ.tail n) = t.trans x z y h (below y n)

      above : le x z ≡ false → (y : A) → Memᴰ y (put_in x zs) → le z y ≡ true
      above h y m = elim (mem_of_put_in x zs m) [
        | inl e ↦ ap (le z) e ∙ t.total x z h
        | inr n ↦ below y n
      ]

  pub sort_by-IsSorted : IsTotal → (xs : List A) → IsSorted (sort_by xs)
  unfolding sort_by
  sort_by-IsSorted t [] = tt
  sort_by-IsSorted t (x ∷ xs) = put_in-IsSorted t x (sort_by xs) (sort_by-IsSorted t xs)
