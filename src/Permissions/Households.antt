-- ===== src/Permissions/Households.antt =====
-- The questions that are asked of the memberships, related to one another.
use isachore.Base.{
  ℕ, ◌≡◌, refl, sym, ap, ◌∙◌, ◌↔◌, ◌⊎◌, inl, inr, Bool, true, false, some, List, [], ◌∷◌, map, Memᴰ,
  arith, any, any_sound, any_complete, select, mem_of_select, mem-select, find, find_sound, mem-map,
  mem_of_map, mem-append_left, mem-append_right, mem_of_append, ◌==◌, ==_iff, Bool-cases,
  Option-cases,
}
use isachore.Types.{HouseholdRole, Membership}
use isachore.Permissions.{
  role_at_least, has_role_somewhere, has_role_in, add_new, set_of, household_ids_with_role,
  owns_any_household, owned_household_ids,
}

-- One membership for a household, as the API sends them.
abbrev pub HasDistinctHouseholds : List Membership → Type 0
HasDistinctHouseholds [] = Unit
HasDistinctHouseholds (m ∷ ms) =
    (any (λ n. n.household_id == m.household_id) ms ≡ false) × HasDistinctHouseholds ms

find_of_mem :
    (ms : List Membership) {m : Membership}
    → HasDistinctHouseholds ms
    → Memᴰ m ms
    → find (λ n. n.household_id == m.household_id) ms ≡ some m
find_of_mem [] d i = elim i [ ]
find_of_mem (n ∷ ms) {m} d (Memᴰ.head e) =
    let same : (n.household_id == m.household_id) ≡ true =
      (==_iff _ _).1 (ap (λ (k : Membership). k.household_id) (sym e)) in
    rw same (ap some (sym e))
find_of_mem (n ∷ ms) {m} (fresh, d) (Memᴰ.tail i) =
    let other = other_household n ms fresh i in rw other (find_of_mem ms d i)
  where
    other_household :
        (k : Membership) (ks : List Membership)
        → any (λ l. l.household_id == k.household_id) ks ≡ false
        → Memᴰ m ks
        → (k.household_id == m.household_id) ≡ false
    other_household k ks f j = elim (Bool-cases (m.household_id == k.household_id)) [
      | inl e ↦
          let found = any_complete (λ (l : Membership). l.household_id == k.household_id) ks j e in
          cc
      | inr e ↦ ground arith
    ]

mem-add_new : (seen : List ℕ) (id : ℕ) {h : ℕ} → Memᴰ h (add_new seen id) ↔ (Memᴰ h seen ⊎ (h ≡ id))
unfolding add_new
mem-add_new seen id {h} = elim (Bool-cases (any (λ k. k == id) seen)) [
  | inl e ↦ rw e (λ m. inl m, elim [ inl m ↦ m | inr q ↦ again e q ])
  | inr e ↦ rw e (
    λ m. elim (mem_of_append seen (id ∷ []) m) [ inl n ↦ inl n | inr n ↦ inr (only n) ],
    elim [
      | inl m ↦ mem-append_left seen (id ∷ []) m
      | inr q ↦ mem-append_right seen (id ∷ []) (Memᴰ.head q)
    ],
  )
]
  where
    again : any (λ k. k == id) seen ≡ true → h ≡ id → Memᴰ h seen
    again e q =
        let (k, m, same) = any_sound (λ k. k == id) seen e in rw (q ∙ sym ((==_iff k id).0 same)) m

    only : Memᴰ h (id ∷ []) → h ≡ id
    only (Memᴰ.head q) = q
    only (Memᴰ.tail m) = elim m [ ]

mem-set_of : (seen ids : List ℕ) {h : ℕ} → Memᴰ h (set_of seen ids) ↔ (Memᴰ h seen ⊎ Memᴰ h ids)
unfolding set_of
mem-set_of seen [] = (λ m. inl m, elim [ inl m ↦ m | inr m ↦ elim m [ ] ])
mem-set_of seen (id ∷ ids) {h} = (
  λ m. elim ((mem-set_of (add_new seen id) ids).0 m) [
    | inl n ↦ elim ((mem-add_new seen id).0 n) [ inl k ↦ inl k | inr q ↦ inr (Memᴰ.head q) ]
    | inr n ↦ inr (Memᴰ.tail n)
  ],
  elim [
    | inl m ↦ (mem-set_of (add_new seen id) ids).1 (inl ((mem-add_new seen id).1 (inl m)))
    | inr m ↦ later m (mem-set_of (add_new seen id) ids).1
  ],
)
  where
    later :
        Memᴰ h (id ∷ ids)
        → ((Memᴰ h (add_new seen id) ⊎ Memᴰ h ids) → Memᴰ h (set_of (add_new seen id) ids))
        → Memᴰ h (set_of (add_new seen id) ids)
    later (Memᴰ.head q) k = k (inl ((mem-add_new seen id).1 (inr q)))
    later (Memᴰ.tail m) k = k (inr m)

-- A household is in the collected ids exactly when a membership that passes the test has its id.
mem-ids :
    (p : Membership → Bool) (ms : List Membership) {h : ℕ}
    → Memᴰ h (set_of [] (map (λ m. m.household_id) (select p ms)))
      ↔ ((m : Membership) × Memᴰ m ms × (p m ≡ true) × (m.household_id ≡ h))
mem-ids p ms {h} = (
  λ i. elim ((mem-set_of [] _).0 i) [
    | inl none_seen ↦ elim none_seen [ ]
    | inr j ↦
        let (m, k, e) = mem_of_map (λ (n : Membership). n.household_id) (select p ms) j in
        let (l, q) = mem_of_select p ms k in (m, l, q, e)
  ],
  λ (m, l, q, e).
      (mem-set_of [] _).1
        (inr (rw (← e) (mem-map (λ (n : Membership). n.household_id) _ (mem-select p ms l q)))),
)

has_role_in_sound :
    (ms : List Membership) (h : ℕ) (min : HouseholdRole)
    → has_role_in ms h min ≡ true
    → (m : Membership) × Memᴰ m ms × (role_at_least m.role min ≡ true) × (m.household_id ≡ h)
unfolding has_role_in
has_role_in_sound ms h min e = elim (Option-cases (find (λ m. m.household_id == h) ms)) [
  | inl missing ↦ absurd (ground arith)
  | inr (m, found) ↦
      let (i, same) = find_sound (λ (n : Membership). n.household_id == h) ms found in
      (m, i, ground arith, (==_iff _ _).0 same)
]

has_role_in-of_mem :
    (ms : List Membership) (min : HouseholdRole) {m : Membership}
    → HasDistinctHouseholds ms
    → Memᴰ m ms
    → role_at_least m.role min ≡ true
    → has_role_in ms m.household_id min ≡ true
unfolding has_role_in
has_role_in-of_mem ms min d i e = rw (find_of_mem ms d i) e

-- With one membership for each household, the households that a picker offers are exactly those
-- in which the user reaches the role.
pub mem-household_ids_with_role :
    (ms : List Membership) (min : HouseholdRole) (h : ℕ)
    → HasDistinctHouseholds ms
    → Memᴰ h (household_ids_with_role ms min) ↔ (has_role_in ms h min ≡ true)
unfolding household_ids_with_role
mem-household_ids_with_role ms min h d = (
  λ i.
      let (m, j, q, e) = (mem-ids (λ m. role_at_least m.role min) ms).0 i in
      rw e at (has_role_in-of_mem ms min d j q),
  λ t. (mem-ids (λ m. role_at_least m.role min) ms).1 (has_role_in_sound ms h min t),
)

pub mem-owned_household_ids :
    (ms : List Membership) {h : ℕ}
    → Memᴰ h (owned_household_ids ms)
      ↔ ((m : Membership) × Memᴰ m ms × (m.owned ≡ true) × (m.household_id ≡ h))
unfolding owned_household_ids
mem-owned_household_ids ms = mem-ids (λ m. m.owned) ms

-- With one membership for each household, a page gated on a role is reachable exactly when some
-- household grants the role.
pub has_role_somewhere_iff :
    (ms : List Membership) (min : HouseholdRole)
    → HasDistinctHouseholds ms
    → (has_role_somewhere ms min ≡ true) ↔ ((h : ℕ) × (has_role_in ms h min ≡ true))
unfolding has_role_somewhere
has_role_somewhere_iff ms min d = (
  λ t.
      let (m, i, q) = any_sound (λ (m : Membership). role_at_least m.role min) ms t in
      (m.household_id, has_role_in-of_mem ms min d i q),
  λ (h, t).
      let (m, i, q, _) = has_role_in_sound ms h min t in
      any_complete (λ (m : Membership). role_at_least m.role min) ms i q,
)

-- The Logs page is reachable exactly when its household picker has something to offer.
pub owns_any_household_iff :
    (ms : List Membership)
    → (owns_any_household ms ≡ true) ↔ ((h : ℕ) × Memᴰ h (owned_household_ids ms))
unfolding owns_any_household owned_household_ids
owns_any_household_iff ms = (
  λ t.
      let (m, i, q) = any_sound (λ (m : Membership). m.owned) ms t in
      (m.household_id, (mem-ids (λ m. m.owned) ms).1 (m, i, q, refl)),
  λ (h, i).
      let (m, j, q, _) = (mem-ids (λ m. m.owned) ms).0 i in
      any_complete (λ (m : Membership). m.owned) ms j q,
)
