-- ===== src/Invitations/Agreement.antt =====
-- The list on screen agrees with the server's once every answer has arrived.
use isachore.Base.{
  ◌≡◌, refl, sym, ap, ◌∙◌, Bool, true, false, ◌||◌, none, List, [], ◌∷◌, ◌++◌, if◌then◌else◌,
  Bool-cases, inl, inr,
}
use isachore.Types.{HouseholdInvitation}
use isachore.Invitations.{
  Answer, added, revoked, removed, replace, without_id, settled, is_added, at_limit, answered,
}
use isachore.Invitations.Commute.{Apart}
use isachore.Invitations.Air.{
  settle_all, AreAll, ArePairs, has_added, IsClosed, IsUnseen, settle_all-append, all-append,
  all-arrive, all_map, pairs-append, pairs-arrive, settle_all-arrive, one_added, added_there,
  append_added, arrive_added,
}
use isachore.Invitations.Rows.{
  has_id-replace, has_id-without_id, IsClosed-create, IsClosed-replace, IsClosed-revoked,
  IsClosed-without_id, Apart-create, Apart-revoke, Apart-remove, IsUnseen-none,
}
use isachore.Invitations.Course.{World, Step, Reach}

-- What has not arrived, put to what is on screen, gives what the server has; and answers under way
-- can be taken in any order.
record Inv (w : World) : Type 0 where
  agree : settle_all w.air w.client.invitations ≡ w.server
  pairs : ArePairs w.air
  busy : w.sent ≡ true → w.client.creating ≡ true
  sent_first : w.sent ≡ true → has_added w.air ≡ false
  idle : w.client.creating ≡ false → has_added w.air ≡ false
  closed : AreAll (IsClosed w.server) w.air
  unseen : AreAll (IsUnseen w.client.invitations) w.air

not_creating : (a b : Bool) → (a || b) ≡ false → a ≡ false
not_creating false b e = refl
not_creating true b e = cc

-- A request that the server grants on an invitation that is on screen.
granted :
    (w : World) (a : Answer) (server : List HouseholdInvitation)
    → is_added a ≡ false
    → server ≡ settled a w.server
    → AreAll (λ b. Apart b a) w.air
    → AreAll (IsClosed server) w.air
    → IsClosed server a
    → IsUnseen w.client.invitations a
    → Inv w
    → Inv (record w { server = server; air = w.air ++ a ∷ [] })
granted w a server e s apart closed own unseen i = record {
  agree = settle_all-append w.air a w.client.invitations ∙ ap (settled a) i.agree ∙ sym s;
  pairs = pairs-append w.air a i.pairs apart;
  busy = i.busy;
  sent_first = λ q. append_added w.air a e (i.sent_first q);
  idle = λ q. append_added w.air a e (i.idle q);
  closed = all-append (IsClosed server) w.air (a ∷ []) closed (own, tt);
  unseen = all-append (IsUnseen w.client.invitations) w.air (a ∷ []) i.unseen (unseen, tt);
}

arrived-IsUnseen :
    (a : Answer) (rows : List HouseholdInvitation) (before after : List Answer)
    → ArePairs (before ++ a ∷ after)
    → AreAll (IsUnseen rows) (before ++ a ∷ after)
    → AreAll (IsUnseen (settled a rows)) (before ++ after)
arrived-IsUnseen (added x) rows before after p u =
    IsUnseen-none (x ∷ rows) (before ++ after) (one_added before x after p)
arrived-IsUnseen (revoked v) rows before after p u =
    all_map (IsUnseen rows) (IsUnseen (replace v rows)) (before ++ after) one
      (all-arrive (IsUnseen rows) before (revoked v) after u)
  where
    one : (b : Answer) → IsUnseen rows b → IsUnseen (replace v rows) b
    one (added x) h = has_id-replace x.id v rows h
    one (revoked w) h = tt
    one (removed k) h = tt
arrived-IsUnseen (removed id) rows before after p u =
    all_map (IsUnseen rows) (IsUnseen (without_id id rows)) (before ++ after) one
      (all-arrive (IsUnseen rows) before (removed id) after u)
  where
    one : (b : Answer) → IsUnseen rows b → IsUnseen (without_id id rows) b
    one (added x) h = has_id-without_id x.id id rows h
    one (revoked w) h = tt
    one (removed k) h = tt

arrived-Inv :
    (w : World) (before : List Answer) (a : Answer) (after : List Answer)
    → w.air ≡ before ++ a ∷ after
    → Inv w
    → Inv (record w { client = answered a w.client; air = before ++ after })
arrived-Inv w before a after e i =
    let pairs : ArePairs (before ++ a ∷ after) = rw (← e) i.pairs in
    record {
      agree =
          settle_all-arrive before a after w.client.invitations pairs
          ∙ ap (λ l. settle_all l w.client.invitations) (sym e)
          ∙ i.agree;
      pairs = pairs-arrive before a after pairs;
      busy = busy a e;
      sent_first = λ q. arrive_added before a after (ap has_added (sym e) ∙ i.sent_first q);
      idle = idle a e pairs;
      closed = all-arrive (IsClosed w.server) before a after (rw (← e) i.closed);
      unseen = arrived-IsUnseen a w.client.invitations before after pairs (rw (← e) i.unseen);
    }
  where
    busy :
        (a : Answer)
        → w.air ≡ before ++ a ∷ after
        → w.sent ≡ true
        → (if is_added a then false else w.client.creating) ≡ true
    busy (added x) e q =
        let there : has_added w.air ≡ true = ap has_added e ∙ added_there before x after in
        let none_there : has_added w.air ≡ false = i.sent_first q in cc
    busy (revoked u) e q = i.busy q
    busy (removed id) e q = i.busy q

    idle :
        (a : Answer)
        → w.air ≡ before ++ a ∷ after
        → ArePairs (before ++ a ∷ after)
        → (if is_added a then false else w.client.creating) ≡ false
        → has_added (before ++ after) ≡ false
    idle (added x) e p q = one_added before x after p
    idle (revoked u) e p q = arrive_added before (revoked u) after (ap has_added (sym e) ∙ i.idle q)
    idle (removed id) e p q =
        arrive_added before (removed id) after (ap has_added (sym e) ∙ i.idle q)

step-Inv : {v w : World} → Step v w → Inv v → Inv w
step-Inv (Step.click w free) i = record {
  agree = i.agree;
  pairs = i.pairs;
  busy = λ _. refl;
  sent_first = λ _. i.idle (not_creating w.client.creating (at_limit w.client) free);
  idle = λ _. i.idle (not_creating w.client.creating (at_limit w.client) free);
  closed = i.closed;
  unseen = i.unseen;
}
step-Inv (Step.create w x sent new_there new_here new_air) i = record {
  agree = settle_all-append w.air (added x) w.client.invitations ∙ ap (settled (added x)) i.agree;
  pairs = pairs-append w.air (added x) i.pairs (Apart-create x w.air new_air (i.sent_first sent));
  busy = λ q. absurd (never q);
  sent_first = λ q. absurd (never q);
  idle = λ q. absurd (never (sym q ∙ i.busy sent));
  closed =
      all-append (IsClosed (x ∷ w.server)) w.air (added x ∷ [])
        (IsClosed-create x w.server w.air new_air i.closed) (tt, tt);
  unseen = all-append (IsUnseen w.client.invitations) w.air (added x ∷ []) i.unseen (new_here, tt);
}
  where
    never : false ≡ true → ⊥
    never q = cc
step-Inv (Step.refuse w message sent) i = record {
  agree = i.agree;
  pairs = i.pairs;
  busy = λ q. absurd (never q);
  sent_first = λ q. absurd (never q);
  idle = λ _. i.sent_first sent;
  closed = i.closed;
  unseen = i.unseen;
}
  where
    never : false ≡ true → ⊥
    never q = cc
step-Inv (Step.start w) i = record {
  agree = i.agree;
  pairs = i.pairs;
  busy = i.busy;
  sent_first = i.sent_first;
  idle = i.idle;
  closed = i.closed;
  unseen = i.unseen;
}
step-Inv (Step.revoke w u there seen shut) i =
    granted w (revoked u) (replace u w.server) refl refl
      (Apart-revoke u w.client.invitations w.server w.air seen there i.unseen i.closed)
      (IsClosed-replace u w.server w.air shut i.closed) (IsClosed-revoked u w.server shut) tt i
step-Inv (Step.remove w id seen) i =
    granted w (removed id) (without_id id w.server) refl refl
      (Apart-remove id w.client.invitations w.air seen i.unseen)
      (IsClosed-without_id id w.server w.air i.closed) tt tt i
step-Inv (Step.fail w message) i = record {
  agree = i.agree;
  pairs = i.pairs;
  busy = i.busy;
  sent_first = i.sent_first;
  idle = i.idle;
  closed = i.closed;
  unseen = i.unseen;
}
step-Inv (Step.arrive w before a after e) i = arrived-Inv w before a after e i

Reach-Inv : {v w : World} → Reach v w → Inv v → Inv w
Reach-Inv Reach.here i = i
Reach-Inv (Reach.next r s) i = step-Inv s (Reach-Inv r i)

-- A component whose list has been loaded.
abbrev pub just_loaded : List HouseholdInvitation → World
just_loaded rows = record {
  client = record { invitations = rows; error = none; creating = false };
  server = rows;
  sent = false;
  air = [];
}

-- From a loaded list on, while nobody else changes the invitations, however clicks, requests and
-- answers interleave, in whatever order the answers arrive: once none is under way, the list on
-- screen is the server's, in its order; and while the button to add is free, no addition is under
-- way.
pub agreement :
    (rows : List HouseholdInvitation) (w : World)
    → Reach (just_loaded rows) w
    → (w.air ≡ [] → w.client.invitations ≡ w.server)
      × (w.client.creating ≡ false → (w.sent ≡ false) × (has_added w.air ≡ false))
agreement rows w r =
    let i = Reach-Inv r (record {
      agree = refl;
      pairs = tt;
      busy = λ q. absurd (never q);
      sent_first = λ q. refl;
      idle = λ q. refl;
      closed = tt;
      unseen = tt;
    }) in
    (
      λ e. ap (λ l. settle_all l w.client.invitations) (sym e) ∙ i.agree,
      λ q. (
        elim (Bool-cases w.sent) [ inl s ↦ absurd (never (sym q ∙ i.busy s)) | inr s ↦ s ],
        i.idle q,
      ),
    )
  where
    never : false ≡ true → ⊥
    never q = cc
