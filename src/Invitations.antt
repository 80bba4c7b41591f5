-- ===== src/Invitations.antt =====
-- frontend/src/components/households/HouseholdInvitations.tsx: the invitations of a household, as
-- the component keeps them beside the server. An `add` is under way from the click to its answer;
-- requests to revoke and to remove may overlap with it and with each other.
pub mod Commute
pub mod Air
pub mod Rows
pub mod Course
pub mod Agreement
mod Tests
use isachore.Base.{
  ℕ, String, Bool, true, false, not, ◌||◌, Option, none, some, List, [], ◌∷◌, map, select, length,
  leb, ◌==◌, if◌then◌else◌,
}
use isachore.Types.{HouseholdInvitation, InvitationStatus}

abbrev pub max_pending : ℕ
max_pending = 5

abbrev pub is_pending : InvitationStatus → Bool
is_pending InvitationStatus.pending = true
is_pending _ = false

abbrev pub is_live_pending : HouseholdInvitation → Bool
is_live_pending invitation = is_pending invitation.status

pub record Invitations : Type 0 where
  pub invitations : List HouseholdInvitation
  pub error : Option String
  pub creating : Bool

-- `prev.map((i) => (i.id === updated.id ? updated : i))`
abbrev pub replace : HouseholdInvitation → List HouseholdInvitation → List HouseholdInvitation
replace updated rows = map (λ i. if i.id == updated.id then updated else i) rows

-- `prev.filter((i) => i.id !== id)`
abbrev pub without_id : ℕ → List HouseholdInvitation → List HouseholdInvitation
without_id id rows = select (λ i. not (i.id == id)) rows

-- What a request that succeeded is answered with: an added one, a revoked one, the id of a removed
-- one.
pub data Answer : Type 0 where
  added : HouseholdInvitation → Answer
  revoked : HouseholdInvitation → Answer
  removed : ℕ → Answer

abbrev pub settled : Answer → List HouseholdInvitation → List HouseholdInvitation
settled (added invitation) rows = invitation ∷ rows
settled (revoked updated) rows = replace updated rows
settled (removed id) rows = without_id id rows

-- The controls of a row: copy and revoke, or delete.
pub data Control : Type 0 where
  copy revoke delete : Control

abbrev pub controls : HouseholdInvitation → List Control
controls invitation = if is_live_pending invitation then copy ∷ revoke ∷ [] else delete ∷ []

abbrev pub at_limit : Invitations → Bool
at_limit h = leb max_pending (length (select is_live_pending h.invitations))

abbrev pub add_disabled : Invitations → Bool
add_disabled h = h.creating || at_limit h

-- The effect's answer, and the ends of the three requests.
abbrev pub loaded : List HouseholdInvitation → Invitations → Invitations
loaded rows h = record h { invitations = rows }

abbrev pub load_failed : String → Invitations → Invitations
load_failed message h = record h { error = some message }

abbrev pub add : Invitations → Invitations
add h = record h { error = none; creating = true }

abbrev pub add_failed : String → Invitations → Invitations
add_failed message h = record h { error = some message; creating = false }

-- The start of a revocation or of a removal, and its failure.
abbrev pub start_change : Invitations → Invitations
start_change h = record h { error = none }

abbrev pub change_failed : String → Invitations → Invitations
change_failed message h = record h { error = some message }

abbrev pub is_added : Answer → Bool
is_added (added invitation) = true
is_added _ = false

abbrev pub answered : Answer → Invitations → Invitations
answered a h = record h {
  invitations = settled a h.invitations;
  creating = if is_added a then false else h.creating;
}

-- With a clipboard, whether it took the link; without one, `none`.
abbrev pub copied : Option Bool → String → Invitations → Invitations
copied (some true) message h = h
copied _ message h = record h { error = some message }
