-- ===== src/Members/Tests.antt =====
-- An organiser makes a helper a deputy.
use isachore.Base.{◌≡◌, refl, true, false, some, List, [], ◌∷◌, Memᴰ}
use isachore.Types.{HouseholdMemberWithRole, organiser, deputy, helper}
use isachore.Permissions.{assignable_roles}
use isachore.Web.Store.{Store}
use isachore.Web.Tally.{tally}
use isachore.Web.Value.{text, Json}
use isachore.Members.{
  Viewer, patch, Act, pick, cancel, confirm, role_settled, role_options, act, acts, opened,
}
use isachore.Members.Allowed.{AreAllowed, requests_allowed}

abbrev plain_json : Json
plain_json = record { stringify = λ v. "{}"; parse = λ s. some (text "") }

abbrev empty : Store
empty = record { entries = []; blocked = false; refuses = λ key value. false }

abbrev viewer : Viewer
viewer = record { admin_id = 1; can_manage = false; unrestricted = false; role = some organiser }

abbrev bob : HouseholdMemberWithRole
bob = record { id = 2; first_name = "Bob"; last_name = "Lee"; role = helper }

abbrev change : List Act
change = pick bob deputy ∷ confirm ∷ []

change_sends :
    (acts tally plain_json change (opened tally plain_json [] empty)).sent ≡ patch 2 deputy ∷ []
unfolding acts act opened
change_sends = refl

cancelled_sends :
    (acts tally plain_json
      (pick bob deputy ∷ cancel ∷ confirm ∷ [])
      (opened tally plain_json [] empty)).sent
    ≡ []
unfolding acts act opened
cancelled_sends = refl

on_offer : Memᴰ deputy (role_options viewer bob)
unfolding assignable_roles
on_offer = Memᴰ.head refl

requests_allowed_example :
    let h = acts tally plain_json change (opened tally plain_json [] empty) in
    AreAllowed viewer change h.sent
    × ((act tally plain_json (role_settled (some "No longer the owner")) h).table.pending ≡ true)
requests_allowed_example =
    requests_allowed tally plain_json viewer [] empty change (some "No longer the owner")
      (on_offer, (tt, tt))
