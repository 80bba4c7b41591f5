-- ===== src/Invitations/Rows.antt =====
-- The ids of the rows, and the answers that the rows and the server allow beside those under way.
use isachore.Base.{
  ℕ, ◌≡◌, refl, sym, ap, ◌∙◌, Bool, true, false, List, [], ◌∷◌, any, ◌==◌, if◌then◌else◌, arith,
  ==_iff, Bool-cases, inl, inr,
}
use isachore.Types.{HouseholdInvitation}
use isachore.Invitations.{
  Answer, added, revoked, removed, replace, without_id, is_live_pending, is_pending,
}
use isachore.Invitations.Commute.{Apart}
use isachore.Invitations.Air.{
  has_id, has_pending, id_of, AreAll, has_added, IsClosed, IsUnseen, all_map,
}

-- Two tests on the rows of which one passes where the other does.
any_fewer :
    (p q : HouseholdInvitation → Bool) (rows : List HouseholdInvitation)
    → ((i : HouseholdInvitation) → p i ≡ false → q i ≡ false)
    → any p rows ≡ false
    → any q rows ≡ false
any_fewer p q [] f h = refl
any_fewer p q (i ∷ rows) f h =
    let e : p i ≡ false = ground (arith, h) in
    let r : any p rows ≡ false = ground (arith, h) in rw (f i e) (any_fewer p q rows f r)

any-replace :
    (p : HouseholdInvitation → Bool) (u : HouseholdInvitation) (rows : List HouseholdInvitation)
    → ((i : HouseholdInvitation) → (i.id == u.id) ≡ true → p i ≡ false → p u ≡ false)
    → any p rows ≡ false
    → any p (replace u rows) ≡ false
any-replace p u [] f h = refl
any-replace p u (i ∷ rows) f h =
    let e : p i ≡ false = ground (arith, h) in
    let r : any p rows ≡ false = ground (arith, h) in
    elim (Bool-cases (i.id == u.id)) [
      | inl q ↦ rw (q, f i q e) (any-replace p u rows f r)
      | inr q ↦ rw (q, e) (any-replace p u rows f r)
    ]

any-without_id :
    (p : HouseholdInvitation → Bool) (id : ℕ) (rows : List HouseholdInvitation)
    → any p rows ≡ false
    → any p (without_id id rows) ≡ false
any-without_id p id [] h = refl
any-without_id p id (i ∷ rows) h =
    let e : p i ≡ false = ground (arith, h) in
    let r : any p rows ≡ false = ground (arith, h) in
    elim (Bool-cases (i.id == id)) [
      | inl q ↦ rw q (any-without_id p id rows r)
      | inr q ↦ rw (q, e) (any-without_id p id rows r)
    ]

pub has_id-replace :
    (id : ℕ) (u : HouseholdInvitation) (rows : List HouseholdInvitation)
    → has_id id rows ≡ false
    → has_id id (replace u rows) ≡ false
has_id-replace id u rows =
    any-replace (λ i. i.id == id) u rows
      (λ i q e. let r : i.id ≡ u.id = (==_iff i.id u.id).0 q in ap (λ x. x == id) (sym r) ∙ e)

pub has_id-without_id :
    (id k : ℕ) (rows : List HouseholdInvitation)
    → has_id id rows ≡ false
    → has_id id (without_id k rows) ≡ false
has_id-without_id id k rows = any-without_id (λ i. i.id == id) k rows

pub IsClosed-create :
    (x : HouseholdInvitation) (server : List HouseholdInvitation) (air : List Answer)
    → any (λ a. x.id == id_of a) air ≡ false
    → AreAll (IsClosed server) air
    → AreAll (IsClosed (x ∷ server)) air
IsClosed-create x server [] e h = tt
IsClosed-create x server (added y ∷ air) e (h, hs) =
    (tt, IsClosed-create x server air (ground (arith, e)) hs)
IsClosed-create x server (removed id ∷ air) e (h, hs) =
    (tt, IsClosed-create x server air (ground (arith, e)) hs)
IsClosed-create x server (revoked u ∷ air) e (h, hs) =
    let d : (x.id == u.id) ≡ false = ground (arith, e) in
    (rw d h, IsClosed-create x server air (ground (arith, e)) hs)

pending_test :
    (u : HouseholdInvitation) (b : Bool)
    → is_pending u.status ≡ false
    → (if b then is_live_pending u else false) ≡ false
pending_test u true e = e
pending_test u false e = refl

pub IsClosed-replace :
    (u : HouseholdInvitation) (server : List HouseholdInvitation) (air : List Answer)
    → is_pending u.status ≡ false
    → AreAll (IsClosed server) air
    → AreAll (IsClosed (replace u server)) air
IsClosed-replace u server air e = all_map (IsClosed server) (IsClosed (replace u server)) air one
  where
    one : (b : Answer) → IsClosed server b → IsClosed (replace u server) b
    one (added y) h = tt
    one (removed id) h = tt
    one (revoked v) h =
        any-replace (λ i. if i.id == v.id then is_live_pending i else false) u server
          (λ i q r. pending_test u (u.id == v.id) e) h

pub IsClosed-revoked :
    (u : HouseholdInvitation) (rows : List HouseholdInvitation)
    → is_pending u.status ≡ false
    → has_pending u.id (replace u rows) ≡ false
IsClosed-revoked u [] e = refl
IsClosed-revoked u (i ∷ rows) e = elim (Bool-cases (i.id == u.id)) [
  | inl q ↦ rw (q, pending_test u (u.id == u.id) e) (IsClosed-revoked u rows e)
  | inr q ↦ rw (q, q) (IsClosed-revoked u rows e)
]

pub IsClosed-without_id :
    (id : ℕ) (server : List HouseholdInvitation) (air : List Answer)
    → AreAll (IsClosed server) air
    → AreAll (IsClosed (without_id id server)) air
IsClosed-without_id id server air =
    all_map (IsClosed server) (IsClosed (without_id id server)) air one
  where
    one : (b : Answer) → IsClosed server b → IsClosed (without_id id server) b
    one (added y) h = tt
    one (removed k) h = tt
    one (revoked v) h =
        any-without_id (λ i. if i.id == v.id then is_live_pending i else false) id server h

pub Apart-create :
    (x : HouseholdInvitation) (air : List Answer)
    → any (λ a. x.id == id_of a) air ≡ false
    → has_added air ≡ false
    → AreAll (λ b. Apart b (added x)) air
Apart-create x [] e h = tt
Apart-create x (added y ∷ air) e h = cc
Apart-create x (revoked v ∷ air) e h = (ground (arith, e), Apart-create x air (ground (arith, e)) h)
Apart-create x (removed id ∷ air) e h =
    (ground (arith, e), Apart-create x air (ground (arith, e)) h)

-- An id that is on screen is not that of an addition under way.
other_id :
    (x : HouseholdInvitation) (id : ℕ) (rows : List HouseholdInvitation)
    → has_id x.id rows ≡ false
    → has_id id rows ≡ true
    → (x.id == id) ≡ false
other_id x id rows e h = elim (Bool-cases (x.id == id)) [
  | inl q ↦
      let r : x.id ≡ id = (==_iff x.id id).0 q in
      let e' : has_id id rows ≡ false = ap (λ k. has_id k rows) (sym r) ∙ e in cc
  | inr q ↦ q
]

other_pending :
    (v u : ℕ) (rows : List HouseholdInvitation)
    → has_pending v rows ≡ false
    → has_pending u rows ≡ true
    → ((v == u) ≡ false) × ((u == v) ≡ false)
other_pending v u rows e h = elim (Bool-cases (v == u)) [
  | inl q ↦
      let r : v ≡ u = (==_iff v u).0 q in
      let e' : has_pending u rows ≡ false = ap (λ k. has_pending k rows) (sym r) ∙ e in cc
  | inr q ↦ (q, ground (arith, q))
]

pub Apart-revoke :
    (u : HouseholdInvitation) (rows server : List HouseholdInvitation) (air : List Answer)
    → has_id u.id rows ≡ true
    → has_pending u.id server ≡ true
    → AreAll (IsUnseen rows) air
    → AreAll (IsClosed server) air
    → AreAll (λ b. Apart b (revoked u)) air
Apart-revoke u rows server [] e h p q = tt
Apart-revoke u rows server (added x ∷ air) e h (p, ps) (q, qs) =
    (other_id x u.id rows p e, Apart-revoke u rows server air e h ps qs)
Apart-revoke u rows server (revoked v ∷ air) e h (p, ps) (q, qs) =
    (other_pending v.id u.id server q h, Apart-revoke u rows server air e h ps qs)
Apart-revoke u rows server (removed id ∷ air) e h (p, ps) (q, qs) =
    (tt, Apart-revoke u rows server air e h ps qs)

pub Apart-remove :
    (id : ℕ) (rows : List HouseholdInvitation) (air : List Answer)
    → has_id id rows ≡ true
    → AreAll (IsUnseen rows) air
    → AreAll (λ b. Apart b (removed id)) air
Apart-remove id rows [] e p = tt
Apart-remove id rows (added x ∷ air) e (p, ps) =
    (other_id x id rows p e, Apart-remove id rows air e ps)
Apart-remove id rows (revoked v ∷ air) e (p, ps) = (tt, Apart-remove id rows air e ps)
Apart-remove id rows (removed k ∷ air) e (p, ps) = (tt, Apart-remove id rows air e ps)

pub IsUnseen-none :
    (rows : List HouseholdInvitation) (air : List Answer)
    → has_added air ≡ false
    → AreAll (IsUnseen rows) air
IsUnseen-none rows [] h = tt
IsUnseen-none rows (added x ∷ air) h = cc
IsUnseen-none rows (revoked u ∷ air) h = (tt, IsUnseen-none rows air h)
IsUnseen-none rows (removed id ∷ air) h = (tt, IsUnseen-none rows air h)
