-- ===== src/Invitations/Commute.antt =====
-- Answers about different invitations, in either order.
use isachore.Base.{
  ℕ, ◌≡◌, refl, sym, ap, ◌∙◌, true, false, List, [], ◌∷◌, ◌==◌, arith, ==_iff, Bool-cases, inl, inr,
}
use isachore.Types.{HouseholdInvitation}
use isachore.Invitations.{Answer, added, revoked, removed, replace, without_id, settled}

-- Answers that may be under way together.
abbrev pub Apart : Answer → Answer → Type 0
Apart (added x) (added y) = ⊥
Apart (added x) (revoked u) = (x.id == u.id) ≡ false
Apart (added x) (removed id) = (x.id == id) ≡ false
Apart (revoked u) (added x) = (x.id == u.id) ≡ false
Apart (revoked u) (revoked v) = ((u.id == v.id) ≡ false) × ((v.id == u.id) ≡ false)
Apart (revoked u) (removed id) = Unit
Apart (removed id) (added x) = (x.id == id) ≡ false
Apart (removed id) _ = Unit

replace-replace :
    (u v : HouseholdInvitation) (rows : List HouseholdInvitation)
    → (u.id == v.id) ≡ false
    → (v.id == u.id) ≡ false
    → replace u (replace v rows) ≡ replace v (replace u rows)
replace-replace u v [] e f = refl
replace-replace u v (i ∷ rows) e f =
    let rest = replace-replace u v rows e f in
    elim (Bool-cases (i.id == v.id)) [
      | inl p ↦ elim (Bool-cases (i.id == u.id)) [
        | inl q ↦ absurd (ground (arith, p, q, e))
        | inr q ↦ rw (p, f, q, p) (ap (λ l. v ∷ l) rest)
      ]
      | inr p ↦ elim (Bool-cases (i.id == u.id)) [
        | inl q ↦ rw (p, q, e) (ap (λ l. u ∷ l) rest)
        | inr q ↦ rw (p, q, p) (ap (λ l. i ∷ l) rest)
      ]
    ]

replace-without_id :
    (u : HouseholdInvitation) (id : ℕ) (rows : List HouseholdInvitation)
    → replace u (without_id id rows) ≡ without_id id (replace u rows)
replace-without_id u id [] = refl
replace-without_id u id (i ∷ rows) =
    let rest = replace-without_id u id rows in
    elim (Bool-cases (i.id == u.id)) [
      | inl q ↦
          let r : i.id ≡ u.id = (==_iff i.id u.id).0 q in
          elim (Bool-cases (u.id == id)) [
            | inl e ↦ let d : (i.id == id) ≡ true = ap (λ x. x == id) r ∙ e in rw (d, q, e) rest
            | inr e ↦
                let d : (i.id == id) ≡ false = ap (λ x. x == id) r ∙ e in
                rw (d, q, e) (ap (λ l. u ∷ l) rest)
          ]
      | inr q ↦ elim (Bool-cases (i.id == id)) [
        | inl e ↦ rw (e, q, e) rest
        | inr e ↦ rw (e, q, e) (ap (λ l. i ∷ l) rest)
      ]
    ]

without_id-without_id :
    (a b : ℕ) (rows : List HouseholdInvitation)
    → without_id a (without_id b rows) ≡ without_id b (without_id a rows)
without_id-without_id a b [] = refl
without_id-without_id a b (i ∷ rows) =
    let rest = without_id-without_id a b rows in
    elim (Bool-cases (i.id == a)) [
      | inl e ↦ elim (Bool-cases (i.id == b)) [ inl f ↦ rw (e, f) rest | inr f ↦ rw (e, f, e) rest ]
      | inr e ↦ elim (Bool-cases (i.id == b)) [
        | inl f ↦ rw (e, f) rest
        | inr f ↦ rw (e, f, e) (ap (λ l. i ∷ l) rest)
      ]
    ]

pub settled-settled :
    (a b : Answer) (rows : List HouseholdInvitation)
    → Apart a b
    → settled a (settled b rows) ≡ settled b (settled a rows)
settled-settled (added x) (added y) rows h = absurd h
settled-settled (added x) (revoked u) rows h = rw h refl
settled-settled (added x) (removed id) rows h = rw h refl
settled-settled (revoked u) (added x) rows h = rw h refl
settled-settled (revoked u) (revoked v) rows (e, f) = replace-replace u v rows e f
settled-settled (revoked u) (removed id) rows h = replace-without_id u id rows
settled-settled (removed id) (added x) rows h = rw h refl
settled-settled (removed id) (revoked u) rows h = sym (replace-without_id u id rows)
settled-settled (removed a) (removed b) rows h = without_id-without_id a b rows
