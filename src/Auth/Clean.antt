-- ===== src/Auth/Clean.antt =====
-- A session that has ended leaves nothing of itself behind.
use isachore.Base.{◌≡◌, refl, Bool, true, false, Option, none, some, List, [], ◌∷◌, if◌then◌else◌}
use isachore.Types.{Flavour, Accent, Language, User, Me, LoginResponse, HouseholdRole}
use isachore.Web.Number.{Numerals}
use isachore.Web.Store.{Store}
use isachore.Permissions.{has_role_somewhere, owns_any_household}
use isachore.Auth.{
  expire, adopt_login, Auth, and_then, pure, signed_in, signed_out, adopt, caught, probe,
  handle_expiry, refresh, login, verify_two_factor, logout, Event, step, loaded, run,
}
use isachore.Table.Owner.{clear_table_settings}
use isachore.Auth.Appearance.{Restyled, sync_appearance-Restyled}

-- Without a user there is no impersonation, no membership and no word about confirmation.
pub IsClean : Auth → Type 0
IsClean h =
    h.user ≡ none
    → (h.impersonating ≡ false) × (h.memberships ≡ []) × (h.email_confirmation_required ≡ false)

pub adopt-Restyled :
    (num : Numerals) (me : Me) (b : Bool) (h : Auth)
    → Restyled (signed_in num me b h) (adopt num me b h).1
unfolding adopt
adopt-Restyled num me b h = sync_appearance-Restyled me (signed_in num me b h)

pub adopt-user :
    (num : Numerals) (me : Me) (b : Bool) (h : Auth) → (adopt num me b h).1.user ≡ some me.user
unfolding signed_in
adopt-user num me b h = (adopt-Restyled num me b h).user

adopt-IsClean : (num : Numerals) (me : Me) (b : Bool) (h : Auth) → IsClean (adopt num me b h).1
unfolding IsClean
adopt-IsClean num me b h e = let u = adopt-user num me b h in cc

signed_out-IsClean : (h : Auth) → IsClean (signed_out h)
unfolding IsClean signed_out
signed_out-IsClean h e = (refl, refl, refl)

either-IsClean : (b : Bool) (x y : Auth) → IsClean x → IsClean y → IsClean (if b then x else y)
either-IsClean true x y p q = p
either-IsClean false x y p q = q

caught-IsClean :
    (r : Option (Unit {0}) × Auth) → IsClean r.1 → IsClean (record (caught r) { loading = false })
unfolding IsClean
caught-IsClean (none, h) p = either-IsClean h.cancelled h (signed_out h) p (signed_out-IsClean h)
caught-IsClean (some x, h) p = p

probe-IsClean :
    (num : Numerals) (answer : Option Me) (h : Auth) → IsClean h → IsClean (probe num answer h)
unfolding probe
probe-IsClean num none h p = either-IsClean h.cancelled h _ p (caught-IsClean (none, h) p)
probe-IsClean num (some me) h p =
    either-IsClean h.cancelled h _ p
      (caught-IsClean (adopt num me me.impersonating h) (adopt-IsClean num me me.impersonating h))

pub then_pure : {A B : Type 0} (r : Option A × Auth) (b : B) → (and_then r (λ _. pure b)).1 ≡ r.1
then_pure (none, h) b = refl
then_pure (some a, h) b = refl

adopt_login-IsClean :
    (num : Numerals) (required : Bool) (o : Option Me) (h : Auth)
    → IsClean h
    → IsClean (adopt_login num required o h).1
unfolding adopt_login
adopt_login-IsClean num required none h p = p
adopt_login-IsClean num true (some me) h p = p
adopt_login-IsClean num false (some me) h p =
    rw (then_pure (adopt num me false h) false) (adopt-IsClean num me false h)

login-IsClean :
    (num : Numerals) (answer : Option LoginResponse) (h : Auth)
    → IsClean h
    → IsClean (login num answer h).1
unfolding login
login-IsClean num none h p = p
login-IsClean num (some res) h p = adopt_login-IsClean num res.two_factor_required res.user h p

ended-IsClean :
    (h : Auth) (b : Bool)
    → IsClean (record (signed_out h) { store = clear_table_settings h.store; expired = b })
unfolding IsClean signed_out
ended-IsClean h b e = (refl, refl, refl)

expire-IsClean : (o : Option User) (h : Auth) → IsClean h → IsClean (expire o h)
expire-IsClean none h p = p
expire-IsClean (some u) h p = ended-IsClean h true

-- After any event a session that has ended leaves nothing behind, if it did before.
pub step-IsClean : (num : Numerals) (e : Event) (h : Auth) → IsClean h → IsClean (step num e h)
unfolding step refresh verify_two_factor logout handle_expiry signed_out IsClean
step-IsClean num (Event.probed answer) h p = probe-IsClean num answer h p
step-IsClean num (Event.refreshed none) h p = p
step-IsClean num (Event.refreshed (some me)) h p = adopt-IsClean num me me.impersonating h
step-IsClean num (Event.logged_in answer) h p = login-IsClean num answer h p
step-IsClean num (Event.verified none) h p = p
step-IsClean num (Event.verified (some me)) h p = adopt-IsClean num me false h
step-IsClean num (Event.logged_out false) h p = p
step-IsClean num (Event.logged_out true) h p = ended-IsClean h h.expired
step-IsClean num Event.unauthorized h p =
    either-IsClean h.cancelled h (expire h.current h) p (expire-IsClean h.current h p)
step-IsClean num Event.committed h p = p
step-IsClean num Event.unmounted h p = p

run-IsClean : (num : Numerals) (es : List Event) (h : Auth) → IsClean h → IsClean (run num es h)
unfolding run
run-IsClean num [] h p = p
run-IsClean num (e ∷ es) h p = run-IsClean num es (step num e h) (step-IsClean num e h p)

-- However answers, expired sessions and renders interleave from the load of the page on: while
-- nobody is signed in, nobody is impersonated, every page that is gated on a role or on owning a
-- household is closed, and nothing is asked about confirming an address.
pub signed_out_closed :
    (num : Numerals) (theme : Flavour) (accent : Accent) (language : Language) (store : Store)
    (es : List Event) (min : HouseholdRole)
    → (run num es (loaded theme accent language store)).user ≡ none
    → let h = run num es (loaded theme accent language store) in
      (h.impersonating ≡ false)
      × (has_role_somewhere h.memberships min ≡ false)
      × (owns_any_household h.memberships ≡ false)
      × (h.email_confirmation_required ≡ false)
unfolding IsClean has_role_somewhere owns_any_household
signed_out_closed num theme accent language store es min e =
    let start = loaded theme accent language store in
    let p = run-IsClean num es start (λ _. (refl, refl, refl)) e in
    (p.0, rw p.1 refl, rw p.1 refl, p.2)
