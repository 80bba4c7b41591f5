-- ===== src/Guards/Tests.antt =====
-- A deputy in one household who owns another.
use isachore.Base.{◌≡◌, ◌↔◌, refl, none, some, [], ◌∷◌, true, false}
use isachore.Types.{User, UserStatus, Flavour, Accent, Language, deputy, organiser}
use isachore.Web.Store.{Store}
use isachore.Auth.{Auth, loaded}
use isachore.Guards.{Screen, outlet, to_home, app}
use isachore.Guards.Open.{MayOpen, app_opens_iff}

abbrev ann : User
ann = record {
  id = 1;
  email = "ann@example.org";
  first_name = "Ann";
  last_name = "Lee";
  is_admin = false;
  status = UserStatus.active;
  confirmed_at = none;
  created_at = "2025-01-01T00:00:00Z";
  avatar_url = none;
  theme = none;
  accent_color = none;
  language = none;
  two_factor_enabled = false;
}

abbrev empty : Store
empty = record { entries = []; blocked = false; refuses = λ key value. false }

abbrev session : Auth
session = record (loaded Flavour.latte Accent.teal Language.en empty) {
  user = some ann;
  loading = false;
  memberships =
      record { household_id = 7; role = deputy; owned = false }
      ∷ record { household_id = 8; role = organiser; owned = true }
      ∷ [];
}

app_opens_iff_example :
    ((app session Screen.users ≡ outlet) ↔ MayOpen session Screen.users)
    × (app session Screen.users ≡ to_home → app session Screen.home ≡ outlet)
app_opens_iff_example = app_opens_iff session (refl, (refl, tt)) Screen.users
