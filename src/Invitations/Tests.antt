-- ===== src/Invitations/Tests.antt =====
-- An invitation is revoked and another added, and the answers change places.
use isachore.Base.{ℕ, ◌≡◌, refl, true, false, none, some, [], ◌∷◌}
use isachore.Types.{HouseholdInvitation, InvitationStatus}
use isachore.Invitations.{
  added, revoked, add, answered, loaded, at_limit, controls, Control, copied,
}
use isachore.Invitations.Air.{has_added}
use isachore.Invitations.Course.{World, Step, Reach}
use isachore.Invitations.Agreement.{just_loaded, agreement}

abbrev invitation : ℕ → InvitationStatus → HouseholdInvitation
invitation id status = record {
  id = id;
  url = "https://example.org/invitations/x";
  status = status;
  created_at = "2025-01-01T00:00:00Z";
  expires_at = "2025-01-08T00:00:00Z";
}

abbrev open_one : HouseholdInvitation
open_one = invitation 1 InvitationStatus.pending

abbrev shut_one : HouseholdInvitation
shut_one = invitation 1 InvitationStatus.revoked

abbrev new_one : HouseholdInvitation
new_one = invitation 2 InvitationStatus.pending

abbrev begun : World
begun = just_loaded (open_one ∷ [])

abbrev clicked : World
clicked = record begun { client = add begun.client; sent = true }

abbrev shut : World
shut = record clicked { server = shut_one ∷ []; air = revoked shut_one ∷ [] }

abbrev made : World
made = record shut {
  server = new_one ∷ shut_one ∷ [];
  sent = false;
  air = revoked shut_one ∷ added new_one ∷ [];
}

abbrev shown : World
shown = record made { client = answered (added new_one) made.client; air = revoked shut_one ∷ [] }

abbrev over : World
over = record shown { client = answered (revoked shut_one) shown.client; air = [] }

course : Reach begun over
course =
    Reach.next
      (Reach.next
        (Reach.next
          (Reach.next (Reach.next Reach.here (Step.click begun refl))
            (Step.revoke clicked shut_one refl refl refl))
          (Step.create shut new_one refl refl refl refl))
        (Step.arrive made (revoked shut_one ∷ []) (added new_one) [] refl))
      (Step.arrive shown [] (revoked shut_one) [] refl)

agreement_example :
    (over.air ≡ [] → over.client.invitations ≡ over.server)
    × (over.client.creating ≡ false → (over.sent ≡ false) × (has_added over.air ≡ false))
agreement_example = agreement (open_one ∷ []) over course

-- A list that is asked for before an invitation is added and arrives after it shows none.
late_list :
    (loaded [] (
      answered
        (added new_one)
        (add (record { invitations = []; error = none; creating = false })))).invitations
    ≡ []
late_list = refl

limit_tests :
    (at_limit (record { invitations = open_one ∷ shut_one ∷ []; error = none; creating = false })
      ≡ false)
    × (controls shut_one ≡ Control.delete ∷ [])
limit_tests = (refl, refl)

no_clipboard :
    (copied none "Copy failed" (record { invitations = []; error = none; creating = false })).error
    ≡ some "Copy failed"
no_clipboard = refl
