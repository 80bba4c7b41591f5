-- ===== src/Login.antt =====
-- The login page: frontend/src/pages/Login.tsx and frontend/src/lib/sso.ts. The session that its
-- requests open is Auth's, the guard of the return path is that of Routes.
pub mod Ways
mod Tests
use Prim.Native.String
use isachore.Base.{
  ℕ, String, Bool, true, false, not, ◌&&◌, ◌||◌, Option, none, some, List, [], ◌∷◌, any, ◌=s=◌,
  if◌then◌else◌,
}
use isachore.Types.{AuthMethods}
use isachore.Feed.{error_text}
use isachore.Routes.{UrlParser, safe_return_path}
use isachore.Api.Validation.{trim_start, trim_end}

abbrev pub sso_errors : List String
sso_errors = "no_account" ∷ "account_disabled" ∷ "already_linked" ∷ "state" ∷ "provider" ∷ []

unfoldable pub is_sso_error : String → Bool
is_sso_error value = any (λ e. e =s= value) sso_errors

unfoldable pub sso_error_key : String → String
sso_error_key code =
    if is_sso_error code then String.◌++◌ "login.ssoError." code else "login.ssoError.fallback"

abbrev pub password_only : AuthMethods
password_only = record { password_enabled = true; oidc_enabled = false; oidc_provider_name = none }

pub data Step : Type 0 where
  password code : Step

-- The request of a form under way.
pub data Attempt : Type 0 where
  login verify : Attempt

pub record LoginPage : Type 0 where
  pub email : String
  pub password : String
  pub remember : Bool
  pub error : Option String
  pub submitting : Bool
  pub step : Step
  pub code : String
  pub recovery_mode : Bool
  pub methods : AuthMethods
  pub attempt : Option Attempt

pub record LoginWords : Type 0 where
  pub key : String → String
  pub error : String
  pub two_factor_error : String

-- `code ? t(ssoErrorKey(code)) : null`
abbrev pub refused_text : LoginWords → Option String → Option String
refused_text t none = none
refused_text t (some c) = if c =s= "" then none else some (t.key (sso_error_key c))

-- The page as it opens, for the `sso_error` of the address.
unfoldable pub start : LoginWords → Option String → LoginPage
start t sso_error = record {
  email = "";
  password = "";
  remember = false;
  error = refused_text t sso_error;
  submitting = false;
  step = password;
  code = "";
  recovery_mode = false;
  methods = password_only;
  attempt = none;
}

-- What a form's request ends with: the answer of `login` says whether a second factor is due.
pub data Outcome : Type 0 where
  accepted : (two_factor_required : Bool) → Outcome
  rejected : Option String → Outcome

pub data Event : Type 0 where
  methods_answer : Option AuthMethods → Event
  set_email set_password set_code : String → Event
  set_remember : Bool → Event
  toggle_recovery : Event
  submit : Event
  answered : Outcome → Event
  back : Event

abbrev pub attempt_of : Step → Attempt
attempt_of password = login
attempt_of code = verify

-- The form of the step is on screen.
abbrev pub has_form : LoginPage → Bool
has_form p = elim p.step [ password ↦ p.methods.password_enabled | code ↦ true ]

-- `onSubmit` and `onVerify` up to their request; a disabled button does not submit.
unfoldable pub begin : LoginPage → LoginPage
begin p =
    if p.submitting || not (has_form p)
    then p
    else record p { submitting = true; error = none; attempt = some (attempt_of p.step) }

unfoldable pub settle : LoginWords → Option Attempt → Outcome → LoginPage → LoginPage
settle t none o p = p
settle t (some login) (accepted two_factor) p = record p {
  step = if two_factor then code else p.step;
  submitting = false;
  attempt = none;
}
settle t (some login) (rejected message) p = record p {
  error = some (error_text message t.error);
  submitting = false;
  attempt = none;
}
settle t (some verify) (accepted two_factor) p = record p { submitting = false; attempt = none }
settle t (some verify) (rejected message) p = record p {
  error = some (error_text message t.two_factor_error);
  submitting = false;
  attempt = none;
}

module _ (t : LoginWords) where
  unfoldable pub step : Event → LoginPage → LoginPage
  unfolding begin settle
  step (methods_answer none) p = p
  step (methods_answer (some found)) p = record p { methods = found }
  step (set_email x) p = record p { email = x }
  step (set_password x) p = record p { password = x }
  step (set_code x) p = record p { code = x }
  step (set_remember b) p = record p { remember = b }
  step toggle_recovery p = record p { recovery_mode = not p.recovery_mode; code = ""; error = none }
  step submit p = begin p
  step (answered o) p = settle t p.attempt o p
  step back p = record p { step = password; code = ""; recovery_mode = false; error = none }

  unfoldable pub run : List Event → LoginPage → LoginPage
  run [] p = p
  run (e ∷ es) p = run es (step e p)

abbrev pub fallback_provider_name : String
fallback_provider_name = "SSO"

-- `name?.trim() || FALLBACK_PROVIDER_NAME`
unfoldable pub provider_name : Option String → String
provider_name none = fallback_provider_name
provider_name (some name) =
    let trimmed = trim_end (trim_start name) in
    if trimmed =s= "" then fallback_provider_name else trimmed

-- `returnTo ?? state?.from ?? routes.home`
abbrev pub first_of : Option String → Option String → String → String
first_of (some path) from home = path
first_of none (some path) home = path
first_of none none home = home

-- What is rendered: nothing while the session is loading or the browser is handed over, a
-- redirect within the application, or the forms.
pub data View : Type 0 where
  nothing : View
  replace_location : String → View
  navigate : String → View
  forms : View

abbrev pub leave : Option String → String → View
leave none from = navigate from
leave (some path) from = replace_location path

unfoldable pub view :
    UrlParser → (home : String) (next from : Option String) (loading signed_in : Bool) → View
view new_url home next from loading signed_in =
    if loading
    then nothing
    else if signed_in
    then leave (safe_return_path new_url next) (first_of (safe_return_path new_url next) from home)
    else forms
