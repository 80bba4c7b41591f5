-- ===== src/Listing/Dead.antt =====
-- The patch that drops dead filters, as frontend/src/pages/History.tsx and Logs.tsx build it.
use isachore.Base.{
  String, ◌≡◌, refl, sym, ap, ◌∙◌, ◌⊎◌, inl, inr, Bool, true, false, not, ◌&&◌, ◌||◌, Option, none,
  some, List, [], ◌∷◌, any, ◌=s=◌, if◌then◌else◌, arith, eq_iff, eq_refl, Bool-cases,
}
use isachore.Web.Number.{Numerals}
use isachore.Table.{Filters, TableState, has_key}
use isachore.Table.Hook.{Event, put_filter, defined, put_filters}
use isachore.Table.Hook.Calls.{HasDistinctKeys, AreFilters, IsCall}
use isachore.Table.Hook.Setters.{IsSetter}
use isachore.Listing.{applied}

-- One entry for each key whose filter is set and dead: the conditions of the page, key by key.
unfoldable pub dead :
    (String → String → Bool) → List String → Filters → List (String × Option String)
dead alive [] f = []
dead alive (key ∷ keys) f =
    let rest = dead alive keys f in
    if not (f key =s= "") && not (alive key (f key)) then (key, some "") ∷ rest else rest

-- `if (Object.keys(dead).length > 0) setFilters(dead)`
abbrev pub set_if_any : {Row : Type 0} → List (String × Option String) → Option (Event Row)
set_if_any [] = none
set_if_any (e ∷ entries) = some (Event.set_filters (e ∷ entries))

abbrev pub AreDistinct : List String → Type 0
AreDistinct [] = Unit
AreDistinct (key ∷ keys) = (has_key key keys ≡ false) × AreDistinct keys

abbrev pub live_filter : (String → String → Bool) → String → String → Bool
live_filter alive key value = value =s= "" || alive key value

module _ (alive : String → String → Bool) (f : Filters) where
  dead-AreFilters :
      (fk keys : List String)
      → ((key : String) → has_key key keys ≡ true → has_key key fk ≡ true)
      → AreFilters fk (defined (dead alive keys f))
  unfolding dead defined
  dead-AreFilters fk [] sub = tt
  dead-AreFilters fk (key ∷ keys) sub =
      let rest = dead-AreFilters fk keys (λ k h. sub k (ground (arith, h))) in
      elim (Bool-cases (not (f key =s= "") && not (alive key (f key)))) [
        | inl e ↦ rw e (sub key ground (arith, eq_refl key), rest)
        | inr e ↦ rw e rest
      ]

  absent :
      (key : String) (keys : List String)
      → has_key key keys ≡ false
      → any (λ e. e.0 =s= key) (defined (dead alive keys f)) ≡ false
  unfolding dead defined
  absent key [] h = refl
  absent key (k ∷ keys) h =
      let rest = absent key keys (ground (arith, h)) in
      elim (Bool-cases (not (f k =s= "") && not (alive k (f k)))) [
        | inl e ↦ rw e (ground (arith, h, rest))
        | inr e ↦ rw e rest
      ]

  dead-HasDistinctKeys :
      (keys : List String) → AreDistinct keys → HasDistinctKeys (defined (dead alive keys f))
  unfolding dead defined
  dead-HasDistinctKeys [] d = tt
  dead-HasDistinctKeys (key ∷ keys) (d, ds) =
      let rest = dead-HasDistinctKeys keys ds in
      elim (Bool-cases (not (f key =s= "") && not (alive key (f key)))) [
        | inl e ↦ rw e (absent key keys d, rest)
        | inr e ↦ rw e rest
      ]

  -- The patch is empty, or changes something.
  dead_changes :
      (keys : List String)
      → (dead alive keys f ≡ [])
        ⊎ (any (λ e. not (f e.0 =s= e.1)) (defined (dead alive keys f)) ≡ true)
  unfolding dead defined
  dead_changes [] = inl refl
  dead_changes (key ∷ keys) = elim (Bool-cases (not (f key =s= "") && not (alive key (f key)))) [
    | inl e ↦ rw e (inr (ground (arith, e)))
    | inr e ↦ rw e (dead_changes keys)
  ]

  put_dead :
      (keys : List String) (g : Filters) (key : String)
      → put_filters (defined (dead alive keys f)) g key
        ≡ (if has_key key keys && not (live_filter alive key (f key)) then "" else g key)
  unfolding dead defined put_filters
  put_dead [] g key = refl
  put_dead (k ∷ keys) g key = elim (Bool-cases (not (f k =s= "") && not (alive k (f k)))) [
    | inl e ↦ rw e (put_dead keys (put_filter k "" g) key ∙ dropped e)
    | inr e ↦ rw e (put_dead keys g key ∙ kept e)
  ]
    where
      dropped :
          (not (f k =s= "") && not (alive k (f k))) ≡ true
          → (if has_key key keys && not (live_filter alive key (f key))
              then ""
              else put_filter k "" g key)
            ≡ (if has_key key (k ∷ keys) && not (live_filter alive key (f key)) then "" else g key)
      dropped e = elim (Bool-cases (k =s= key)) [
        | inl q ↦
            let r : k ≡ key = (eq_iff k key).0 q in
            let d : (not (f key =s= "") && not (alive key (f key))) ≡ true =
              ap (λ x. not (f x =s= "") && not (alive x (f x))) (sym r) ∙ e in
            ground (arith, d, q)
        | inr q ↦ rw q refl
      ]

      kept :
          (not (f k =s= "") && not (alive k (f k))) ≡ false
          → (if has_key key keys && not (live_filter alive key (f key)) then "" else g key)
            ≡ (if has_key key (k ∷ keys) && not (live_filter alive key (f key)) then "" else g key)
      kept e = elim (Bool-cases (k =s= key)) [
        | inl q ↦
            let r : k ≡ key = (eq_iff k key).0 q in
            let d : (not (f key =s= "") && not (alive key (f key))) ≡ false =
              ap (λ x. not (f x =s= "") && not (alive x (f x))) (sym r) ∙ e in
            ground (arith, d, q)
        | inr q ↦ rw q refl
      ]

  -- A patch of this kind, and what it leaves of the filters.
  pub set_dead-IsCall :
      {Row : Type 0} (num : Numerals) (fk : List String) (e : Event Row)
      → AreDistinct fk
      → set_if_any (dead alive fk f) ≡ some e
      → IsCall num fk e × IsSetter e
  set_dead-IsCall num fk e d h =
      cases (dead alive fk f) (dead-AreFilters fk fk (λ k m. m)) (dead-HasDistinctKeys fk d) h
    where
      cases :
          (patch : List (String × Option String))
          → AreFilters fk (defined patch)
          → HasDistinctKeys (defined patch)
          → set_if_any patch ≡ some e
          → IsCall num fk e × IsSetter e
      cases [] a k h = cc
      cases (x ∷ patch) a k h =
          let r : Event.set_filters (x ∷ patch) ≡ e = cc in rw (← r) ((a, k), tt)

module _ (Row : Type 0) (alive : String → String → Bool) where
  -- Exactly the dead filters are emptied.
  pub set_dead-exact :
      (fk : List String) (s : TableState) (key : String)
      → has_key key fk ≡ true
      → (applied {Row = Row} (set_if_any (dead alive fk s.filters)) s).filters key
        ≡ (if live_filter alive key (s.filters key) then s.filters key else "")
  unfolding put_filters defined
  set_dead-exact fk s key m =
      cases (dead alive fk s.filters) (dead_changes alive s.filters fk)
      ∙ rw (put_dead alive s.filters fk s.filters key)
          (flip (live_filter alive key (s.filters key)) m)
    where
      cases :
          (patch : List (String × Option String))
          → (patch ≡ []) ⊎ (any (λ e. not (s.filters e.0 =s= e.1)) (defined patch) ≡ true)
          → (applied {Row = Row} (set_if_any patch) s).filters key
            ≡ put_filters (defined patch) s.filters key
      cases [] h = refl
      cases (x ∷ patch) (inl h) = cc
      cases (x ∷ patch) (inr h) = rw h refl

      flip :
          (b : Bool)
          → has_key key fk ≡ true
          → (if has_key key fk && not b then "" else s.filters key)
            ≡ (if b then s.filters key else "")
      flip true m = rw m refl
      flip false m = rw m refl
