-- ===== src/Listing/Names.antt =====
-- A filter's text that stands for an item on offer, by its id.
use isachore.Base.{
  ℕ, String, ◌≡◌, refl, ◌⊎◌, inl, inr, Bool, true, false, ◌||◌, List, [], ◌∷◌, map, any, select,
  Memᴰ, mem_of_select, any_sound, ◌==◌, ◌=s=◌, if◌then◌else◌, eq_iff, ==_iff, Bool-cases,
}
use isachore.Web.Number.{Numerals}

-- `ids.some((id) => String(id) === value)`
abbrev pub names_id : Numerals → List ℕ → String → Bool
names_id num ids value = any (λ id. num.print id =s= value) ids

-- One that the page has narrowed down to these ids.
abbrev pub among : {A : Type 0} → (A → ℕ) → List ℕ → List A → List A
among id ids xs = select (λ x. any (λ k. k == id x) ids) xs

pub all_live : (b : Bool) (value : String) → (if b || true then value else "") ≡ value
all_live true value = refl
all_live false value = refl

pub either_text : (b c : Bool) → (b || c) ≡ true → (b ≡ true) ⊎ (c ≡ true)
either_text true c h = inl refl
either_text false c h = inr h

module _ (num : Numerals) where
  -- A member of a list is named by the text.
  abbrev pub IsNamed : {A : Type 0} → (A → ℕ) → List A → String → Type 0
  IsNamed {A = A} id xs value = (value ≡ "") ⊎ ((x : A) × Memᴰ x xs × (num.print (id x) ≡ value))

  pub named :
      {A : Type 0} (id : A → ℕ) (xs : List A) (value : String)
      → (value =s= "" || names_id num (map id xs) value) ≡ true
      → IsNamed id xs value
  named {A = A} id xs value h =
      elim (either_text (value =s= "") (names_id num (map id xs) value) h) [
        | inl e ↦ inl ((eq_iff value "").0 e)
        | inr e ↦ inr (listed xs e)
      ]
    where
      listed :
          (xs : List A)
          → names_id num (map id xs) value ≡ true
          → (x : A) × Memᴰ x xs × (num.print (id x) ≡ value)
      listed [] e = absurd (never e)
        where
          never : false ≡ true → ⊥
          never e = cc
      listed (x ∷ xs) e = elim (Bool-cases (num.print (id x) =s= value)) [
        | inl q ↦ (x, Memᴰ.head refl, (eq_iff (num.print (id x)) value).0 q)
        | inr q ↦ let (y, m, r) = listed xs (rw q at e) in (y, Memᴰ.tail m, r)
      ]

  pub named_among :
      {A : Type 0} (id : A → ℕ) (ids : List ℕ) (xs : List A) (value : String)
      → (value =s= "" || names_id num (map id (among id ids xs)) value) ≡ true
      → (value ≡ "") ⊎ ((x : A) × Memᴰ x xs × Memᴰ (id x) ids × (num.print (id x) ≡ value))
  named_among {A = A} id ids xs value h = elim (named id (among id ids xs) value h) [
    | inl e ↦ inl e
    | inr (x, m, q) ↦
        let (n, a) = mem_of_select (λ y. any (λ k. k == id y) ids) xs m in
        let (k, i, same) = any_sound (λ k. k == id x) ids a in
        let r : k ≡ id x = (==_iff k (id x)).0 same in inr (x, n, (rw (← r) i), q)
  ]
