-- ===== src/Invitations/Air.antt =====
-- Lists of answers under way.
use isachore.Base.{
  ℕ, ◌≡◌, refl, ap, ◌∙◌, Bool, true, false, ◌||◌, List, [], ◌∷◌, ◌++◌, any, ◌==◌, if◌then◌else◌,
  arith,
}
use isachore.Types.{HouseholdInvitation}
use isachore.Invitations.{Answer, added, revoked, removed, settled, is_live_pending, is_added}
use isachore.Invitations.Commute.{Apart, settled-settled}

abbrev pub has_id : ℕ → List HouseholdInvitation → Bool
has_id id rows = any (λ i. i.id == id) rows

-- An open invitation of this id.
abbrev pub has_pending : ℕ → List HouseholdInvitation → Bool
has_pending id rows = any (λ i. if i.id == id then is_live_pending i else false) rows

abbrev pub id_of : Answer → ℕ
id_of (added x) = x.id
id_of (revoked u) = u.id
id_of (removed id) = id

abbrev pub settle_all : List Answer → List HouseholdInvitation → List HouseholdInvitation
settle_all [] rows = rows
settle_all (a ∷ air) rows = settle_all air (settled a rows)

abbrev pub AreAll : (Answer → Type 0) → List Answer → Type 0
AreAll P [] = Unit
AreAll P (a ∷ air) = P a × AreAll P air

abbrev pub ArePairs : List Answer → Type 0
ArePairs [] = Unit
ArePairs (a ∷ air) = AreAll (Apart a) air × ArePairs air

abbrev pub has_added : List Answer → Bool
has_added air = any is_added air

-- A revoked invitation is not open on the server; an added one is not on screen yet.
abbrev pub IsClosed : List HouseholdInvitation → Answer → Type 0
IsClosed server (revoked u) = has_pending u.id server ≡ false
IsClosed server _ = Unit

abbrev pub IsUnseen : List HouseholdInvitation → Answer → Type 0
IsUnseen rows (added x) = has_id x.id rows ≡ false
IsUnseen rows _ = Unit

pub settle_all-append :
    (air : List Answer) (a : Answer) (rows : List HouseholdInvitation)
    → settle_all (air ++ a ∷ []) rows ≡ settled a (settle_all air rows)
settle_all-append [] a rows = refl
settle_all-append (b ∷ air) a rows = settle_all-append air a (settled b rows)

module _ (P : Answer → Type 0) where
  pub all-append : (xs ys : List Answer) → AreAll P xs → AreAll P ys → AreAll P (xs ++ ys)
  all-append [] ys p q = q
  all-append (x ∷ xs) ys (p, ps) q = (p, all-append xs ys ps q)

  pub all-arrive :
      (before : List Answer) (a : Answer) (after : List Answer)
      → AreAll P (before ++ a ∷ after)
      → AreAll P (before ++ after)
  all-arrive [] a after (p, ps) = ps
  all-arrive (x ∷ before) a after (p, ps) = (p, all-arrive before a after ps)

pub all_map :
    (P Q : Answer → Type 0) (xs : List Answer)
    → ((a : Answer) → P a → Q a)
    → AreAll P xs
    → AreAll Q xs
all_map P Q [] f p = tt
all_map P Q (x ∷ xs) f (p, ps) = (f x p, all_map P Q xs f ps)

pub pairs-append :
    (air : List Answer) (a : Answer)
    → ArePairs air
    → AreAll (λ b. Apart b a) air
    → ArePairs (air ++ a ∷ [])
pairs-append [] a p q = (tt, tt)
pairs-append (b ∷ air) a (p, ps) (q, qs) =
    (all-append (Apart b) air (a ∷ []) p (q, tt), pairs-append air a ps qs)

pub pairs-arrive :
    (before : List Answer) (a : Answer) (after : List Answer)
    → ArePairs (before ++ a ∷ after)
    → ArePairs (before ++ after)
pairs-arrive [] a after (p, ps) = ps
pairs-arrive (b ∷ before) a after (p, ps) =
    (all-arrive (Apart b) before a after p, pairs-arrive before a after ps)

the_one :
    (P : Answer → Type 0) (before : List Answer) (a : Answer) (after : List Answer)
    → AreAll P (before ++ a ∷ after)
    → P a
the_one P [] a after (p, ps) = p
the_one P (x ∷ before) a after (p, ps) = the_one P before a after ps

-- An answer may overtake those before it.
pub settle_all-arrive :
    (before : List Answer) (a : Answer) (after : List Answer) (rows : List HouseholdInvitation)
    → ArePairs (before ++ a ∷ after)
    → settle_all (before ++ after) (settled a rows) ≡ settle_all (before ++ a ∷ after) rows
settle_all-arrive [] a after rows p = refl
settle_all-arrive (b ∷ before) a after rows (p, ps) =
    ap (settle_all (before ++ after))
      (settled-settled b a rows (the_one (Apart b) before a after p))
    ∙ settle_all-arrive before a after (settled b rows) ps

-- With one that adds among them, no other does.
no_added :
    (x : HouseholdInvitation) (after : List Answer)
    → AreAll (Apart (added x)) after
    → has_added after ≡ false
no_added x [] p = refl
no_added x (added y ∷ after) (p, ps) = absurd p
no_added x (revoked u ∷ after) (p, ps) = no_added x after ps
no_added x (removed id ∷ after) (p, ps) = no_added x after ps

not_added : (x : HouseholdInvitation) (b : Answer) → Apart b (added x) → is_added b ≡ false
not_added x (added y) p = absurd p
not_added x (revoked u) p = refl
not_added x (removed id) p = refl

pub one_added :
    (before : List Answer) (x : HouseholdInvitation) (after : List Answer)
    → ArePairs (before ++ added x ∷ after)
    → has_added (before ++ after) ≡ false
one_added [] x after (p, ps) = no_added x after p
one_added (b ∷ before) x after (p, ps) =
    rw (not_added x b (the_one (Apart b) before (added x) after p)) (one_added before x after ps)

pub added_there :
    (before : List Answer) (x : HouseholdInvitation) (after : List Answer)
    → has_added (before ++ added x ∷ after) ≡ true
added_there [] x after = refl
added_there (b ∷ before) x after = rw (added_there before x after) (or_true (is_added b))
  where
    or_true : (b : Bool) → (b || true) ≡ true
    or_true true = refl
    or_true false = refl

pub append_added :
    (air : List Answer) (a : Answer)
    → is_added a ≡ false
    → has_added air ≡ false
    → has_added (air ++ a ∷ []) ≡ false
append_added [] a e h = rw e refl
append_added (b ∷ air) a e h = ground (arith, append_added air a e (ground (arith, h)), h)

pub arrive_added :
    (before : List Answer) (a : Answer) (after : List Answer)
    → has_added (before ++ a ∷ after) ≡ false
    → has_added (before ++ after) ≡ false
arrive_added [] a after h = ground (arith, h)
arrive_added (b ∷ before) a after h =
    ground (arith, arrive_added before a after (ground (arith, h)), h)
