-- ===== src/Auth.antt =====
-- The session of frontend/src/auth/AuthProvider.tsx: who is signed in, and each thing that can
-- happen to it. The appearance that a sign-in adopts is kept by
-- frontend/src/theme/ThemeProvider.tsx and frontend/src/i18n/i18n.ts, whose setters write the
-- storage first and throw where the browser refuses the write.
--
-- A state belongs to one mount of the provider. The handlers of an answer run to the end before
-- the next event; `current` follows `user` only when React has committed the render.
pub mod Appearance
pub mod Clean
pub mod Steps
pub mod Sessions
pub mod Refused
mod Tests
use isachore.Base.{
  ℕ, String, Bool, true, false, not, ◌||◌, Option, none, some, List, [], ◌∷◌, if◌then◌else◌,
}
use isachore.Types.{
  User, Membership, Me, LoginResponse, Flavour, latte, frappe, macchiato, mocha, Accent, Language,
  en, it,
}
use isachore.Web.Number.{Numerals}
use isachore.Web.Store.{Store, set_item}
use isachore.Table.Owner.{claim_table_settings, clear_table_settings}

pub record Auth : Type 0 where
  pub user : Option User
  pub impersonating : Bool
  pub memberships : List Membership
  pub email_confirmation_required : Bool
  pub loading : Bool
  -- `userRef.current`, whether the mount effect was cancelled, and whether the notice of an
  -- expired session was shown.
  pub current : Option User
  pub cancelled : Bool
  pub expired : Bool
  pub theme : Flavour
  pub accent : Accent
  pub language : Language
  pub store : Store

-- The page has just been loaded.
abbrev pub loaded : Flavour → Accent → Language → Store → Auth
loaded theme accent language store = record {
  user = none;
  impersonating = false;
  memberships = [];
  email_confirmation_required = false;
  loading = true;
  current = none;
  cancelled = false;
  expired = false;
  theme = theme;
  accent = accent;
  language = language;
  store = store;
}

-- Code that may throw: what it has changed by then stays changed.
abbrev pub Task : Type 0 → Type 0
Task A = Auth → Option A × Auth

abbrev pub and_then : {A B : Type 0} → Option A × Auth → (A → Task B) → Option B × Auth
and_then (none, h) f = (none, h)
and_then (some a, h) f = f a h

infixl 5 ◌>>=◌ ◌>>◌
abbrev pub ◌>>=◌ : {A B : Type 0} → Task A → (A → Task B) → Task B
◌>>=◌ m f h = and_then (m h) f

abbrev pub ◌>>◌ : {B : Type 0} → Task (Unit {0}) → Task B → Task B
m >> k = m >>= λ _. k

abbrev pub pure : {A : Type 0} → A → Task A
pure a h = (some a, h)

abbrev pub modify : (Auth → Auth) → Task (Unit {0})
modify f h = (some tt, f h)

-- `localStorage.setItem(key, value)`, and the choice in its wake.
abbrev pub stored : Option Store → (Auth → Auth) → Task (Unit {0})
stored none f h = (none, h)
stored (some store) f h = (some tt, f (record h { store = store }))

abbrev pub choose : String → String → (Auth → Auth) → Task (Unit {0})
choose key value f h = stored (set_item key value h.store) f h

abbrev pub theme_key : String
theme_key = "isachore-theme"

abbrev pub accent_key : String
accent_key = "isachore-accent"

abbrev pub language_key : String
language_key = "isachore-language"

abbrev pub flavour_id : Flavour → String
flavour_id latte = "latte"
flavour_id frappe = "frappe"
flavour_id macchiato = "macchiato"
flavour_id mocha = "mocha"

abbrev pub accent_id : Accent → String
accent_id Accent.rosewater = "rosewater"
accent_id Accent.flamingo = "flamingo"
accent_id Accent.pink = "pink"
accent_id Accent.mauve = "mauve"
accent_id Accent.red = "red"
accent_id Accent.maroon = "maroon"
accent_id Accent.peach = "peach"
accent_id Accent.yellow = "yellow"
accent_id Accent.green = "green"
accent_id Accent.teal = "teal"
accent_id Accent.sky = "sky"
accent_id Accent.sapphire = "sapphire"
accent_id Accent.blue = "blue"
accent_id Accent.lavender = "lavender"

abbrev pub language_id : Language → String
language_id en = "en"
language_id it = "it"

unfoldable pub set_theme : Flavour → Task (Unit {0})
set_theme next = choose theme_key (flavour_id next) (λ h. record h { theme = next })

unfoldable pub set_accent : Accent → Task (Unit {0})
set_accent next = choose accent_key (accent_id next) (λ h. record h { accent = next })

unfoldable pub change_language : Language → Task (Unit {0})
change_language next = choose language_key (language_id next) (λ h. record h { language = next })

-- `if (choice) apply(choice)`
abbrev pub when_some : {A : Type 0} → Option A → (A → Task (Unit {0})) → Task (Unit {0})
when_some none apply = pure tt
when_some (some choice) apply = apply choice

unfoldable pub sync_choices : User → Task (Unit {0})
sync_choices u = do
  when_some u.theme set_theme
  when_some u.accent_color set_accent
  when_some u.language change_language

unfoldable pub sync_appearance : Me → Task (Unit {0})
sync_appearance u = if u.impersonating then pure tt else sync_choices u.user

-- `value ?? fallback`
abbrev pub or_else : {A : Type 0} → Option A → A → A
or_else none fallback = fallback
or_else (some value) fallback = value

unfoldable pub signed_out : Auth → Auth
signed_out h = record h {
  user = none;
  impersonating = false;
  memberships = [];
  email_confirmation_required = false;
}

unfoldable pub signed_in : Numerals → Me → Bool → Auth → Auth
signed_in num me impersonating h = record h {
  store = claim_table_settings num me.user.id h.store;
  user = some me.user;
  impersonating = impersonating;
  memberships = or_else me.memberships [];
  email_confirmation_required = or_else me.email_confirmation_required false;
}

-- What each place that adopts a user does.
unfoldable pub adopt : Numerals → Me → Bool → Task (Unit {0})
adopt num me impersonating = do modify (signed_in num me impersonating); sync_appearance me

-- The mount effect's `.then`, its `.catch`, which also catches what `.then` throws, and its
-- `.finally`. A rejected request is `none`.
abbrev pub caught : Option (Unit {0}) × Auth → Auth
caught (none, h) = if h.cancelled then h else signed_out h
caught (some x, h) = h

unfoldable pub probe : Numerals → Option Me → Auth → Auth
probe num none h = if h.cancelled then h else record (caught (none, h)) { loading = false }
probe num (some me) h =
    if h.cancelled then h else record (caught (adopt num me me.impersonating h)) { loading = false }

-- `if (!userRef.current) return`, and the rest.
abbrev pub expire : Option User → Auth → Auth
expire none h = h
expire (some u) h = record (signed_out h) { store = clear_table_settings h.store; expired = true }

unfoldable pub handle_expiry : Auth → Auth
handle_expiry h = expire h.current h

unfoldable pub refresh : Numerals → Option Me → Task (Unit {0})
refresh num none h = (some tt, h)
refresh num (some me) h = (some tt, (adopt num me me.impersonating h).1)

-- The result is `twoFactorRequired`; `none` where the call rejects.
unfoldable pub adopt_login : Numerals → Bool → Option Me → Task Bool
adopt_login num two_factor_required none = pure two_factor_required
adopt_login num true (some me) = pure true
adopt_login num false (some me) = do adopt num me false; pure false

unfoldable pub login : Numerals → Option LoginResponse → Task Bool
unfolding adopt_login
login num none h = (none, h)
login num (some res) h = adopt_login num res.two_factor_required res.user h

unfoldable pub verify_two_factor : Numerals → Option Me → Task (Unit {0})
verify_two_factor num none h = (none, h)
verify_two_factor num (some me) h = adopt num me false h

-- Whether the server took the request.
unfoldable pub logout : Bool → Task (Unit {0})
logout false h = (none, h)
logout true h = (some tt, record (signed_out h) { store = clear_table_settings h.store })

-- What can happen: an answer to one of the requests, an answer 401 to any request (the API wrapper
-- calls the handler before the request's own rejection), a committed render, and the unmount.
pub data Event : Type 0 where
  probed : Option Me → Event
  refreshed : Option Me → Event
  logged_in : Option LoginResponse → Event
  verified : Option Me → Event
  logged_out : Bool → Event
  unauthorized : Event
  committed : Event
  unmounted : Event

unfoldable pub step : Numerals → Event → Auth → Auth
step num (probed answer) h = probe num answer h
step num (refreshed answer) h = (refresh num answer h).1
step num (logged_in answer) h = (login num answer h).1
step num (verified answer) h = (verify_two_factor num answer h).1
step num (logged_out taken) h = (logout taken h).1
step num unauthorized h = if h.cancelled then h else handle_expiry h
step num committed h = record h { current = h.user }
step num unmounted h = record h { cancelled = true }

unfoldable pub run : Numerals → List Event → Auth → Auth
run num [] h = h
run num (e ∷ es) h = run num es (step num e h)
