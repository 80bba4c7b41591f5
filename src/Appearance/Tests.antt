-- ===== src/Appearance/Tests.antt =====
-- A browser with a flavour of the theme of an earlier version, in a dark room.
use isachore.Base.{String, ◌≡◌, refl, Bool, true, false, none, some, List, [], ◌∷◌, ◌=s=◌, ◌↔◌}
use isachore.Types.{User, Me, UserStatus, Flavour, Accent, Language}
use isachore.Web.Tally.{tally}
use isachore.Web.Store.{Store, lookup, get_item}
use isachore.Auth.{Event, flavour_id, accent_id, theme_key, accent_key}
use isachore.Appearance.{
  initial_theme, initial_accent, get_initial_theme, get_initial_accent, get_initial_language,
  dressed, theme_init, locale_for, read_language,
}
use isachore.Appearance.Reload.{Act, acts, opening, reload_same}
use isachore.Appearance.Prepaint.{IsApart, is_inherited, prepaint_iff}

abbrev remembered : Store
remembered = record {
  entries = (theme_key, "dark") ∷ (accent_key, "pink") ∷ [];
  blocked = false;
  refuses = λ key value. false;
}

abbrev account : User
account = record {
  id = 3;
  email = "ann@example.org";
  first_name = "Ann";
  last_name = "Lee";
  is_admin = false;
  status = UserStatus.active;
  confirmed_at = none;
  created_at = "2025-01-01T00:00:00Z";
  avatar_url = none;
  theme = some Flavour.frappe;
  accent_color = none;
  language = some Language.it;
  two_factor_enabled = false;
}

abbrev answer : Me
answer = record {
  user = account;
  impersonating = false;
  memberships = none;
  email_confirmation_required = none;
}

abbrev evening : List Act
evening =
    Act.session (Event.probed (some answer))
    ∷ Act.pick_accent Accent.sky
    ∷ Act.session Event.unauthorized
    ∷ []

abbrev inherited : String → Bool
inherited text = text =s= "constructor"

inherited-IsApart : IsApart inherited
inherited-IsApart = record { flavour = flavours; accent = accents_apart; light = refl; dark = refl }
  where
    flavours : (f : Flavour) → inherited (flavour_id f) ≡ false
    flavours Flavour.latte = refl
    flavours Flavour.frappe = refl
    flavours Flavour.macchiato = refl
    flavours Flavour.mocha = refl

    accents_apart : (a : Accent) → inherited (accent_id a) ≡ false
    accents_apart Accent.rosewater = refl
    accents_apart Accent.flamingo = refl
    accents_apart Accent.pink = refl
    accents_apart Accent.mauve = refl
    accents_apart Accent.red = refl
    accents_apart Accent.maroon = refl
    accents_apart Accent.peach = refl
    accents_apart Accent.yellow = refl
    accents_apart Accent.green = refl
    accents_apart Accent.teal = refl
    accents_apart Accent.sky = refl
    accents_apart Accent.sapphire = refl
    accents_apart Accent.blue = refl
    accents_apart Accent.lavender = refl

reload_same_example :
    let h = acts tally evening (opening true remembered) in
    (get_initial_theme true h.store ≡ some h.theme)
    × (get_initial_accent h.store ≡ some h.accent)
    × (get_initial_language h.store ≡ some h.language)
reload_same_example = reload_same true tally remembered evening refl

prepaint_iff_example :
    (theme_init inherited true remembered
      ≡ some (
          dressed
            (initial_theme true (lookup theme_key remembered.entries))
            (initial_accent (lookup accent_key remembered.entries))))
    ↔ ((is_inherited inherited (lookup theme_key remembered.entries) ≡ false)
        × (is_inherited inherited (lookup accent_key remembered.entries) ≡ false))
prepaint_iff_example = prepaint_iff inherited inherited-IsApart true remembered refl

-- A stored name that every object has is not what the application takes it for.
script_takes_it :
    theme_init inherited false (record remembered { entries = (theme_key, "constructor") ∷ [] })
    ≡ some (record { theme = "constructor"; accent = "teal"; dark_class = true })
unfolding theme_init get_item lookup
script_takes_it = refl

application_falls_back : initial_theme false (some "constructor") ≡ Flavour.latte
unfolding initial_theme
application_falls_back = refl

unknown_locale : locale_for "de" ≡ "en-GB"
unfolding locale_for read_language
unknown_locale = refl
