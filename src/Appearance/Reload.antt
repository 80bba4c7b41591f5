-- ===== src/Appearance/Reload.antt =====
-- The session and the appearance: what a reload of the page shows.
pub mod Keeping
use isachore.Base.{
  String, ◌≡◌, refl, sym, ap, ◌∙◌, Bool, true, false, ◌||◌, Option, none, some, List, [], ◌∷◌,
  ◌=s=◌, if◌then◌else◌, arith, eq_iff,
}
use isachore.Types.{User, Me, Flavour, Accent, Language}
use isachore.Web.Number.{Numerals}
use isachore.Web.Store.{Store, lookup, insert, set_item, get_item}
use isachore.Web.Store.Laws.{lookup-insert}
use isachore.Table.Owner.{is_table_key, owner_key, claim_table_settings, clear_table_settings}
use isachore.Table.Owner.Laws.{
  lookup-clear_table_settings, lookup-claim_other, blocked-clear_table_settings,
  blocked-claim_table_settings,
}
use isachore.Auth.{
  Auth, Task, pure, modify, and_then, ◌>>=◌, ◌>>◌, stored, choose, when_some, set_theme, set_accent,
  change_language, sync_choices, sync_appearance, theme_key, accent_key, language_key, flavour_id,
  accent_id, language_id, signed_in, signed_out, adopt, caught, probe, expire, handle_expiry,
  refresh, adopt_login, login, verify_two_factor, logout, Event, step, run, loaded,
}
use isachore.Auth.Appearance.{set_item-taken}
use isachore.Auth.Clean.{then_pure}
use isachore.Appearance.{
  initial_theme, initial_accent, initial_language, get_initial_theme, get_initial_accent,
  get_initial_language, on_some,
}
use isachore.Appearance.Reading.{initial_theme-id, initial_accent-id, initial_language-id}
use isachore.Appearance.Reload.Keeping.{
  IsRemembered, IsKeeping, sync_appearance-IsKeeping, set_theme-IsKeeping, set_accent-IsKeeping,
  change_language-IsKeeping, theme_other, accent_other, language_other,
}

-- What can happen to a page that is open: an event of the session, or a choice of the user. A
-- choice that the browser refuses to write throws, and changes nothing.
pub data Act : Type 0 where
  session : Event → Act
  pick_theme : Flavour → Act
  pick_accent : Accent → Act
  pick_language : Language → Act

abbrev pub act : Numerals → Act → Auth → Auth
act num (session e) h = step num e h
act num (pick_theme f) h = (set_theme f h).1
act num (pick_accent a) h = (set_accent a h).1
act num (pick_language l) h = (change_language l h).1

abbrev pub acts : Numerals → List Act → Auth → Auth
acts num [] h = h
acts num (a ∷ rest) h = acts num rest (act num a h)

module _ (prefers_dark : Bool) where
  signed_in-IsRemembered :
      (num : Numerals) (me : Me) (b : Bool) (h : Auth)
      → IsRemembered prefers_dark h
      → IsRemembered prefers_dark (signed_in num me b h)
  unfolding signed_in
  signed_in-IsRemembered num me b h r = record {
    unblocked = blocked-claim_table_settings num me.user.id h.store r.unblocked;
    theme =
        rw (lookup-claim_other num me.user.id h.store theme_key r.unblocked theme_other) r.theme;
    accent =
        rw (lookup-claim_other num me.user.id h.store accent_key r.unblocked accent_other) r.accent;
    language =
        rw (lookup-claim_other num me.user.id h.store language_key r.unblocked language_other)
          r.language;
  }

  cleared-IsRemembered :
      (h : Auth) (b : Bool)
      → IsRemembered prefers_dark h
      → IsRemembered prefers_dark
          (record (signed_out h) { store = clear_table_settings h.store; expired = b })
  unfolding signed_out
  cleared-IsRemembered h b r = record {
    unblocked = blocked-clear_table_settings h.store r.unblocked;
    theme = rw (lookup-clear_table_settings h.store theme_key r.unblocked, theme_other) r.theme;
    accent = rw (lookup-clear_table_settings h.store accent_key r.unblocked, accent_other) r.accent;
    language =
        rw (lookup-clear_table_settings h.store language_key r.unblocked, language_other)
          r.language;
  }

  -- The session's own fields do not matter.
  same_look :
      (h h' : Auth)
      → h'.store ≡ h.store
      → h'.theme ≡ h.theme
      → h'.accent ≡ h.accent
      → h'.language ≡ h.language
      → IsRemembered prefers_dark h
      → IsRemembered prefers_dark h'
  same_look h h' s t a l r = record {
    unblocked = ap (λ (x : Store). x.blocked) s ∙ r.unblocked;
    theme =
        ap (λ (x : Store). initial_theme prefers_dark (lookup theme_key x.entries)) s
        ∙ r.theme
        ∙ sym t;
    accent = ap (λ (x : Store). initial_accent (lookup accent_key x.entries)) s ∙ r.accent ∙ sym a;
    language =
        ap (λ (x : Store). initial_language (lookup language_key x.entries)) s ∙ r.language ∙ sym l;
  }

  adopt-IsKeeping : (num : Numerals) (me : Me) (b : Bool) → IsKeeping prefers_dark (adopt num me b)
  unfolding adopt
  adopt-IsKeeping num me b h r =
      sync_appearance-IsKeeping prefers_dark me (signed_in num me b h)
        (signed_in-IsRemembered num me b h r)

  either_auth :
      (b : Bool) (x y : Auth)
      → IsRemembered prefers_dark x
      → IsRemembered prefers_dark y
      → IsRemembered prefers_dark (if b then x else y)
  either_auth true x y p q = p
  either_auth false x y p q = q

  caught-IsRemembered :
      (x : Option (Unit {0}) × Auth)
      → IsRemembered prefers_dark x.1
      → IsRemembered prefers_dark (record (caught x) { loading = false })
  unfolding signed_out
  caught-IsRemembered (some x, h) r = same_look h _ refl refl refl refl r
  caught-IsRemembered (none, h) r = same_look (caught (none, h)) _ refl refl refl refl (
      either_auth h.cancelled h (signed_out h) r (same_look h (signed_out h) refl refl refl refl r))

  probe-IsRemembered :
      (num : Numerals) (answer : Option Me) (h : Auth)
      → IsRemembered prefers_dark h
      → IsRemembered prefers_dark (probe num answer h)
  unfolding probe
  probe-IsRemembered num none h r = either_auth h.cancelled h _ r (caught-IsRemembered (none, h) r)
  probe-IsRemembered num (some me) h r = either_auth h.cancelled h _ r (
      caught-IsRemembered (adopt num me me.impersonating h)
        (adopt-IsKeeping num me me.impersonating h r))

  adopt_login-IsKeeping :
      (num : Numerals) (required : Bool) (o : Option Me)
      → IsKeeping prefers_dark (adopt_login num required o)
  unfolding adopt_login
  adopt_login-IsKeeping num required none h r = r
  adopt_login-IsKeeping num true (some me) h r = r
  adopt_login-IsKeeping num false (some me) h r =
      rw (then_pure (adopt num me false h) false) (adopt-IsKeeping num me false h r)

  expire-IsRemembered :
      (o : Option User) (h : Auth)
      → IsRemembered prefers_dark h
      → IsRemembered prefers_dark (expire o h)
  expire-IsRemembered none h r = r
  expire-IsRemembered (some u) h r = cleared-IsRemembered h true r

  step-IsRemembered :
      (num : Numerals) (e : Event) (h : Auth)
      → IsRemembered prefers_dark h
      → IsRemembered prefers_dark (step num e h)
  unfolding step refresh login verify_two_factor logout handle_expiry signed_out
  step-IsRemembered num (Event.probed answer) h r = probe-IsRemembered num answer h r
  step-IsRemembered num (Event.refreshed none) h r = r
  step-IsRemembered num (Event.refreshed (some me)) h r =
      adopt-IsKeeping num me me.impersonating h r
  step-IsRemembered num (Event.logged_in none) h r = r
  step-IsRemembered num (Event.logged_in (some res)) h r =
      adopt_login-IsKeeping num res.two_factor_required res.user h r
  step-IsRemembered num (Event.verified none) h r = r
  step-IsRemembered num (Event.verified (some me)) h r = adopt-IsKeeping num me false h r
  step-IsRemembered num (Event.logged_out false) h r = r
  step-IsRemembered num (Event.logged_out true) h r = cleared-IsRemembered h h.expired r
  step-IsRemembered num Event.unauthorized h r =
      either_auth h.cancelled h _ r (expire-IsRemembered h.current h r)
  step-IsRemembered num Event.committed h r = same_look h _ refl refl refl refl r
  step-IsRemembered num Event.unmounted h r = same_look h _ refl refl refl refl r

  act-IsRemembered :
      (num : Numerals) (a : Act) (h : Auth)
      → IsRemembered prefers_dark h
      → IsRemembered prefers_dark (act num a h)
  act-IsRemembered num (Act.session e) h r = step-IsRemembered num e h r
  act-IsRemembered num (Act.pick_theme f) h r = set_theme-IsKeeping prefers_dark f h r
  act-IsRemembered num (Act.pick_accent a) h r = set_accent-IsKeeping prefers_dark a h r
  act-IsRemembered num (Act.pick_language l) h r = change_language-IsKeeping prefers_dark l h r

  acts-IsRemembered :
      (num : Numerals) (as_done : List Act) (h : Auth)
      → IsRemembered prefers_dark h
      → IsRemembered prefers_dark (acts num as_done h)
  acts-IsRemembered num [] h r = r
  acts-IsRemembered num (a ∷ rest) h r =
      acts-IsRemembered num rest (act num a h) (act-IsRemembered num a h r)

  -- A page load whose storage can be read.
  abbrev pub opening : Store → Auth
  opening s =
      loaded (initial_theme prefers_dark (lookup theme_key s.entries))
        (initial_accent (lookup accent_key s.entries))
        (initial_language (lookup language_key s.entries)) s

  -- On an open storage, whatever it holds and whichever writes the browser refuses, and however
  -- answers, sign-ins, sign-outs, expired sessions and the user's own choices follow one another
  -- since the page was loaded: another load of the page, with the same preference of the system, opens with the flavour, the
  -- accent and the language that are on screen.
  pub reload_same :
      (num : Numerals) (s : Store) (as_done : List Act)
      → s.blocked ≡ false
      → let h = acts num as_done (opening s) in
        (get_initial_theme prefers_dark h.store ≡ some h.theme)
        × (get_initial_accent h.store ≡ some h.accent)
        × (get_initial_language h.store ≡ some h.language)
  unfolding get_initial_theme get_initial_accent get_initial_language get_item
  reload_same num s as_done open_storage =
      let r =
        acts-IsRemembered num as_done (opening s)
          (record { unblocked = open_storage; theme = refl; accent = refl; language = refl }) in
      (
        rw r.unblocked (ap some r.theme),
        rw r.unblocked (ap some r.accent),
        rw r.unblocked (ap some r.language),
      )
