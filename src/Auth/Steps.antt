-- ===== src/Auth/Steps.antt =====
-- The provider's events as sign-ins and sign-outs of the browser's table settings.
use isachore.Base.{ℕ, String, ◌≡◌, refl, sym, Bool, true, false, Option, none, some, if◌then◌else◌}
use isachore.Types.{User, Me}
use isachore.Web.Number.{Numerals, IsNumber}
use isachore.Table.Owner.{clear_table_settings}
use isachore.Table.Owner.Sessions.{World, Step, Reach}
use isachore.Auth.{
  Auth, signed_in, signed_out, adopt, caught, probe, expire, handle_expiry, refresh, adopt_login,
  login, verify_two_factor, logout, Event, step,
}
use isachore.Auth.Clean.{adopt-Restyled, then_pure}

-- The account of the provider's user.
abbrev pub account : Option User → Option ℕ
account none = none
account (some u) = some u.id

abbrev pub world : Auth → (String → ℕ) → World
world h writer = record { store = h.store; session = account h.user; writer = writer }

-- The ids that an answer brings are numbers that a text gives back.
abbrev pub IsNumbered : Numerals → Event → Type 0
IsNumbered num (Event.probed (some me)) = IsNumber num me.user.id
IsNumbered num (Event.refreshed (some me)) = IsNumber num me.user.id
IsNumbered num (Event.logged_in (some res)) =
    (me : Me) → res.user ≡ some me → IsNumber num me.user.id
IsNumbered num (Event.verified (some me)) = IsNumber num me.user.id
IsNumbered num _ = Unit

module _ (num : Numerals) (start : World) (writer : String → ℕ) where
  -- Where the one is reached, so is the other.
  Leads : Auth → Auth → Type 0
  Leads h h' = Reach num start (world h writer) → Reach num start (world h' writer)

  adopt-Leads :
      (me : Me) (b : Bool) (h : Auth) → IsNumber num me.user.id → Leads h (adopt num me b h).1
  unfolding Leads signed_in
  adopt-Leads me b h n r =
      let h' = (adopt num me b h).1 in
      let p = adopt-Restyled num me b h in
      let signed : World = world (signed_in num me b h) writer in
      let moved : record signed { store = record signed.store { entries = h'.store.entries } }
          ≡ world h' writer =
        λ i. record { store = sym p.store i; session = account (sym p.user i); writer = writer } in
      rw (← moved) (
        Reach.next (Reach.next r (Step.sign_in (world h writer) me.user.id n))
          (Step.elsewhere signed h'.store.entries p.tables))

  either-Leads : (b : Bool) (h x y : Auth) → Leads h x → Leads h y → Leads h (if b then x else y)
  either-Leads true h x y p q = p
  either-Leads false h x y p q = q

  caught-Leads :
      (h : Auth) (r : Option (Unit {0}) × Auth)
      → Leads h r.1
      → Leads h (record (caught r) { loading = false })
  unfolding Leads signed_out
  caught-Leads h (some x, h') p = p
  caught-Leads h (none, h') p =
      either-Leads h'.cancelled h h' _ p (λ r. Reach.next (p r) (Step.close (world h' writer)))

  stays : (h : Auth) → Leads h h
  unfolding Leads
  stays h r = r

  probe-Leads :
      (answer : Option Me) (h : Auth)
      → IsNumbered num (Event.probed answer)
      → Leads h (probe num answer h)
  unfolding probe
  probe-Leads none h n =
      either-Leads h.cancelled h h _ (stays h) (caught-Leads h (none, h) (stays h))
  probe-Leads (some me) h n =
      either-Leads h.cancelled h h _ (stays h)
        (caught-Leads h (adopt num me me.impersonating h) (adopt-Leads me me.impersonating h n))

  adopt_login-Leads :
      (required : Bool) (o : Option Me) (h : Auth)
      → ((me : Me) → o ≡ some me → IsNumber num me.user.id)
      → Leads h (adopt_login num required o h).1
  unfolding adopt_login
  adopt_login-Leads required none h n = stays h
  adopt_login-Leads true (some me) h n = stays h
  adopt_login-Leads false (some me) h n =
      rw (then_pure (adopt num me false h) false) (adopt-Leads me false h (n me refl))

  ended-Leads :
      (h : Auth) (b : Bool)
      → Leads h (record (signed_out h) { store = clear_table_settings h.store; expired = b })
  unfolding Leads signed_out
  ended-Leads h b r = Reach.next r (Step.sign_out (world h writer))

  expire-Leads : (o : Option User) (h : Auth) → Leads h (expire o h)
  expire-Leads none h = stays h
  expire-Leads (some u) h = ended-Leads h true

  step-Leads : (e : Event) (h : Auth) → IsNumbered num e → Leads h (step num e h)
  unfolding step refresh login verify_two_factor logout handle_expiry Leads signed_out
  step-Leads (Event.probed answer) h n = probe-Leads answer h n
  step-Leads (Event.refreshed none) h n = stays h
  step-Leads (Event.refreshed (some me)) h n = adopt-Leads me me.impersonating h n
  step-Leads (Event.logged_in none) h n = stays h
  step-Leads (Event.logged_in (some res)) h n =
      adopt_login-Leads res.two_factor_required res.user h n
  step-Leads (Event.verified none) h n = stays h
  step-Leads (Event.verified (some me)) h n = adopt-Leads me false h n
  step-Leads (Event.logged_out false) h n = stays h
  step-Leads (Event.logged_out true) h n = ended-Leads h h.expired
  step-Leads Event.unauthorized h n =
      either-Leads h.cancelled h h (expire h.current h) (stays h) (expire-Leads h.current h)
  step-Leads Event.committed h n = stays h
  step-Leads Event.unmounted h n = stays h

-- Every event of the provider is a course of sign-ins, sign-outs and writes of other keys: where
-- the browser's state before the event is reached, so is the one after it.
pub step-Reach :
    (num : Numerals) (start : World) (writer : String → ℕ) (e : Event) (h : Auth)
    → IsNumbered num e
    → Reach num start (world h writer)
    → Reach num start (world (step num e h) writer)
unfolding Leads
step-Reach num start writer e h n r = step-Leads num start writer e h n r
