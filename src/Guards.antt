-- ===== src/Guards.antt =====
-- Which page the router shows to whom: the routes of frontend/src/App.tsx and the four guards
-- frontend/src/components/RequireAuth.tsx, RequireRole.tsx, RequireOwner.tsx and RequireAdmin.tsx,
-- over the session of Auth.
pub mod Open
mod Tests
use isachore.Base.{ℕ, Bool, true, false, Option, none, some, List, [], ◌∷◌, if◌then◌else◌}
use isachore.Types.{User, HouseholdRole, deputy, organiser}
use isachore.Permissions.{has_role_somewhere, owns_any_household}
use isachore.Auth.{Auth}

pub data Guard : Type 0 where
  require_auth : Guard
  require_role : HouseholdRole → Guard
  require_owner require_admin : Guard

-- What a layout route renders: its outlet, nothing yet, or a redirect.
pub data Rendered : Type 0 where
  outlet nothing to_login to_home : Rendered

abbrev pub is_admin : Option User → Bool
is_admin none = false
is_admin (some u) = u.is_admin

abbrev pub auth_outlet : Option User → Rendered
auth_outlet none = to_login
auth_outlet (some u) = outlet

unfoldable pub decide : Auth → Guard → Rendered
decide h require_auth = if h.loading then nothing else auth_outlet h.user
decide h (require_role min) = if has_role_somewhere h.memberships min then outlet else to_home
decide h require_owner = if owns_any_household h.memberships then outlet else to_home
decide h require_admin = if is_admin h.user then outlet else to_home

-- An outlet renders the route within.
abbrev pub within : Rendered → Rendered → Rendered
within outlet r = r
within nothing r = nothing
within to_login r = to_login
within to_home r = to_home

unfoldable pub nested : Auth → List Guard → Rendered
unfolding decide
nested h [] = outlet
nested h (g ∷ gs) = within (decide h g) (nested h gs)

pub data Screen : Type 0 where
  login confirm_account accept_invite home unscheduled profile history statistics logs : Screen
  chores chore_create chore_edit tags tag_create tag_edit : Screen
  households household_create household_edit : Screen
  users user_create user_edit : Screen
  admin_households admin_household_create admin_household_edit server_settings : Screen

-- Where a route stands: outside RequireAuth, or within it and maybe one guard more.
pub data Area : Type 0 where
  outside : Area
  account : Option Guard → Area

abbrev pub organised : Area
organised = account (some (require_role organiser))

abbrev pub administered : Area
administered = account (some require_admin)

abbrev pub area : Screen → Area
area login = outside
area confirm_account = outside
area accept_invite = outside
area home = account none
area unscheduled = account none
area profile = account none
area history = account none
area statistics = account (some (require_role deputy))
area logs = account (some require_owner)
area chores = organised
area chore_create = organised
area chore_edit = organised
area tags = organised
area tag_create = organised
area tag_edit = organised
area households = account none
area household_create = account none
area household_edit = account none
area users = administered
area user_create = administered
area user_edit = administered
area admin_households = administered
area admin_household_create = administered
area admin_household_edit = administered
area server_settings = administered

abbrev pub guards : Area → List Guard
guards outside = []
guards (account none) = require_auth ∷ []
guards (account (some g)) = require_auth ∷ g ∷ []

unfoldable pub app : Auth → Screen → Rendered
unfolding nested
app h screen = nested h (guards (area screen))
