-- ===== src/Auth/Tests.antt =====
-- A day with two accounts in one browser.
use isachore.Base.{ℕ, ◌≡◌, refl, true, false, Option, none, some, List, [], ◌∷◌}
use isachore.Types.{User, Me, UserStatus, Flavour, Accent, Language, organiser, helper}
use isachore.Web.Tally.{tally, tally_number}
use isachore.Web.Store.{Store, lookup, insert, without, set_item}
use isachore.Permissions.{has_role_somewhere, owns_any_household}
use isachore.Table.Settings.{write_settings}
use isachore.Table.Owner.{is_table_key, claim_table_settings}
use isachore.Auth.{
  Auth, loaded, signed_in, signed_out, probe, refresh, verify_two_factor, login, Event, step, run,
  adopt, sync_appearance, sync_choices, set_theme, change_language, handle_expiry,
}
use isachore.Auth.Clean.{signed_out_closed}
use isachore.Auth.Sessions.{Visit, Act, acts, act, settings_stay_private}
use isachore.Auth.Refused.{sign_in_refused}

abbrev account : ℕ → Option Flavour → User
account id theme = record {
  id = id;
  email = "ann@example.org";
  first_name = "Ann";
  last_name = "Lee";
  is_admin = false;
  status = UserStatus.active;
  confirmed_at = none;
  created_at = "2025-01-01T00:00:00Z";
  avatar_url = none;
  theme = theme;
  accent_color = none;
  language = some Language.it;
  two_factor_enabled = false;
}

abbrev answer_for : ℕ → Option Flavour → Me
answer_for id theme = record {
  user = account id theme;
  impersonating = false;
  memberships = some (record { household_id = 7; role = organiser; owned = true } ∷ []);
  email_confirmation_required = none;
}

abbrev empty : Store
empty = record { entries = []; blocked = false; refuses = λ key value. false }

-- A storage with room for nothing but texts that are there already.
abbrev full : Store
full = record { entries = []; blocked = false; refuses = λ key value. true }

abbrev fresh : Store → Auth
fresh store = loaded Flavour.latte Accent.teal Language.en store

abbrev expiry : List Event
expiry =
    Event.probed (some (answer_for 1 (some Flavour.mocha)))
    ∷ Event.committed
    ∷ Event.unauthorized
    ∷ []

signed_out_closed_example :
    let h = run tally expiry (fresh empty) in
    (h.impersonating ≡ false)
    × (has_role_somewhere h.memberships helper ≡ false)
    × (owns_any_household h.memberships ≡ false)
    × (h.email_confirmation_required ≡ false)
unfolding run step probe adopt signed_in signed_out handle_expiry sync_appearance sync_choices
    set_theme set_item claim_table_settings lookup change_language
signed_out_closed_example =
    signed_out_closed tally Flavour.latte Accent.teal Language.en empty expiry helper refl

abbrev day : List Act
day =
    Act.event (Event.verified (some (answer_for 1 none)))
    ∷ Act.save "admin-users" "{}"
    ∷ Act.load Flavour.latte Accent.teal Language.en
    ∷ Act.event (Event.probed none)
    ∷ Act.event (Event.verified (some (answer_for 2 none)))
    ∷ Act.save "admin-users" "[]"
    ∷ []

abbrev morning : Visit
morning = record { auth = fresh empty; writer = λ key. 0 }

settings_stay_private_example : (acts tally day morning).writer "isachore-table-admin-users" ≡ 2
unfolding acts act step probe verify_two_factor adopt signed_in signed_out sync_appearance
    sync_choices claim_table_settings write_settings lookup insert without is_table_key
    change_language
settings_stay_private_example =
    settings_stay_private tally morning day (account 2 none) "isachore-table-admin-users" "[]" refl
      refl (λ key t. refl) (tally_number 1, (tt, (tally_number 2, tt))) refl refl refl

sign_in_refused_example :
    let me = answer_for 1 (some Flavour.mocha) in
    ((probe tally (some me) (fresh full)).user ≡ none)
    × ((refresh tally (some me) (fresh full)).1.user ≡ some me.user)
    × (verify_two_factor tally (some me) (fresh full)
        ≡ (none, signed_in tally me false (fresh full)))
    × (login tally (some (record { two_factor_required = false; user = some me })) (fresh full)
        ≡ (none, signed_in tally me false (fresh full)))
unfolding claim_table_settings set_item lookup
sign_in_refused_example =
    sign_in_refused tally (answer_for 1 (some Flavour.mocha)) Flavour.mocha (fresh full) refl refl
      refl refl
