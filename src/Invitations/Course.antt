-- ===== src/Invitations/Course.antt =====
-- The component beside the server, with answers under way that may arrive in any order.
use isachore.Base.{ℕ, String, ◌≡◌, Bool, true, false, List, [], ◌∷◌, ◌++◌, any, ◌==◌}
use isachore.Types.{HouseholdInvitation}
use isachore.Invitations.{
  Invitations, Answer, added, revoked, removed, replace, without_id, is_pending, add_disabled, add,
  add_failed, start_change, change_failed, answered,
}
use isachore.Invitations.Air.{has_id, has_pending, id_of}

-- `sent` is whether a request to add has not reached the server yet; `air` are the answers that
-- have not arrived, in the order in which the server gave them.
pub record World : Type 0 where
  pub client : Invitations
  pub server : List HouseholdInvitation
  pub sent : Bool
  pub air : List Answer

-- A click on the button while it is not disabled; the server adds an invitation under an id that
-- was never used, or refuses; it revokes an open invitation that is on screen, removes one that is
-- on screen, or refuses; an answer arrives. Nobody else changes the invitations.
pub data Step : World → World → Type 0 where
  click :
      (w : World)
      → add_disabled w.client ≡ false
      → Step w (record w { client = add w.client; sent = true })
  create :
      (w : World) (x : HouseholdInvitation)
      → w.sent ≡ true
      → has_id x.id w.server ≡ false
      → has_id x.id w.client.invitations ≡ false
      → any (λ a. x.id == id_of a) w.air ≡ false
      → Step w (record w { server = x ∷ w.server; sent = false; air = w.air ++ added x ∷ [] })
  refuse :
      (w : World) (message : String)
      → w.sent ≡ true
      → Step w (record w { client = add_failed message w.client; sent = false })
  start : (w : World) → Step w (record w { client = start_change w.client })
  revoke :
      (w : World) (u : HouseholdInvitation)
      → has_pending u.id w.server ≡ true
      → has_id u.id w.client.invitations ≡ true
      → is_pending u.status ≡ false
      → Step w (record w { server = replace u w.server; air = w.air ++ revoked u ∷ [] })
  remove :
      (w : World) (id : ℕ)
      → has_id id w.client.invitations ≡ true
      → Step w (record w { server = without_id id w.server; air = w.air ++ removed id ∷ [] })
  fail :
      (w : World) (message : String) → Step w (record w { client = change_failed message w.client })
  arrive :
      (w : World) (before : List Answer) (a : Answer) (after : List Answer)
      → w.air ≡ before ++ a ∷ after
      → Step w (record w { client = answered a w.client; air = before ++ after })

pub data Reach : World → World → Type 0 where
  here : {w : World} → Reach w w
  next : {v w x : World} → Reach v w → Step w x → Reach v x
