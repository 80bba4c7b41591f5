-- ===== src/Auth/Refused.antt =====
-- Signing in on a browser that refuses to store the account's theme.
use isachore.Base.{◌≡◌, refl, ap, ◌∙◌, Bool, true, false, Option, none, some, if◌then◌else◌}
use isachore.Types.{User, Me, Flavour}
use isachore.Web.Number.{Numerals}
use isachore.Web.Store.{Store, set_item}
use isachore.Table.Owner.{claim_table_settings}
use isachore.Auth.{
  ◌>>◌, Auth, and_then, pure, when_some, theme_key, flavour_id, set_theme, set_accent,
  change_language, sync_choices, sync_appearance, signed_in, signed_out, adopt, caught, probe,
  refresh, adopt_login, login, verify_two_factor,
}

-- The write throws.
abbrev pub IsRefused : Numerals → Me → Flavour → Store → Type 0
IsRefused num me t store =
    set_item theme_key (flavour_id t) (claim_table_settings num me.user.id store) ≡ none

sync_choices_refused :
    (u : User) (o : Option Flavour) (t : Flavour) (h : Auth)
    → o ≡ some t
    → set_item theme_key (flavour_id t) h.store ≡ none
    → and_then
        (when_some o set_theme h)
        (λ _. (when_some u.accent_color set_accent >> when_some u.language change_language))
      ≡ (none, h)
unfolding set_theme
sync_choices_refused u o t h e r = simp (e, r)

adopt_refused :
    (num : Numerals) (me : Me) (t : Flavour) (b : Bool) (h : Auth)
    → me.impersonating ≡ false
    → me.user.theme ≡ some t
    → IsRefused num me t h.store
    → adopt num me b h ≡ (none, signed_in num me b h)
unfolding adopt sync_appearance sync_choices signed_in
adopt_refused num me t b h i e r =
    simp i (sync_choices_refused me.user me.user.theme t (signed_in num me b h) e r)

chosen_user : (b : Bool) (x y : Auth) → b ≡ false → (if b then x else y).user ≡ y.user
chosen_user true x y e = cc
chosen_user false x y e = refl

-- Where the browser refuses the write of the account's theme: the probe of a new visit ends with
-- nobody signed in, though the server answered with the user; a refresh keeps the user; and the
-- two steps of a login sign the user in and reject.
pub sign_in_refused :
    (num : Numerals) (me : Me) (t : Flavour) (h : Auth)
    → me.impersonating ≡ false
    → me.user.theme ≡ some t
    → h.cancelled ≡ false
    → IsRefused num me t h.store
    → ((probe num (some me) h).user ≡ none)
      × ((refresh num (some me) h).1.user ≡ some me.user)
      × (verify_two_factor num (some me) h ≡ (none, signed_in num me false h))
      × (login num (some (record { two_factor_required = false; user = some me })) h
          ≡ (none, signed_in num me false h))
unfolding probe refresh verify_two_factor login adopt_login signed_in signed_out
sign_in_refused num me t h i e c r =
    let p : (b : Bool) → adopt num me b h ≡ (none, signed_in num me b h) =
      λ b. adopt_refused num me t b h i e r in
    (
      chosen_user h.cancelled h _ c
          ∙ (ap (λ r. (caught r).user) (p me.impersonating)
              ∙ chosen_user h.cancelled (signed_in num me me.impersonating h) _ c),
      ap (λ r. r.1.user) (p me.impersonating),
      p false,
      ap (λ r. and_then r (λ _. pure false)) (p false),
    )
