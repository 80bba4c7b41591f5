-- ===== src/ApiToken.antt =====
-- frontend/src/components/ApiTokenSettings.tsx: whether the account holds an access token, and the
-- dialog that shows a new one. `onGenerate` awaits a second answer, the status anew, where a
-- refusal may mean that the panel is out of date.
pub mod Once
mod Tests
use isachore.Base.{
  ℕ, String, Bool, true, false, not, Option, none, some, List, [], ◌∷◌, ◌==◌, if◌then◌else◌,
}

-- `{ token: { created_at } | null }`, the status that the API reports.
abbrev pub Status : Type 0
Status = Option String

pub record ApiToken : Type 0 where
  pub status : Option Status
  pub load_failed : Bool
  pub load_detail : Option String
  pub password : String
  pub busy : Bool
  pub error : Option String
  pub revealed : Option String

-- A failed request: an `ApiError` with its status and message, or another failure with a text of
-- the page.
pub data Failure : Type 0 where
  api_error : (status : ℕ) (message : String) → Failure
  failure : (message : String) → Failure

-- `submitted` is the status at the time of the submit, which stays where reading it again fails.
pub data Act : Type 0 where
  loaded : Status → Act
  load_failed : Option String → Act
  type_password : String → Act
  submit : Act
  generated : (token created_at : String) → Act
  refused : Failure → Act
  read_again : (answer submitted : Option Status) → Act
  start_delete : Act
  deleted : Option String → Act
  close : Act

abbrev pub opened : ApiToken
opened = record {
  status = none;
  load_failed = false;
  load_detail = none;
  password = "";
  busy = false;
  error = none;
  revealed = none;
}

abbrev pub message_of : Failure → String
message_of (api_error status message) = message
message_of (failure message) = message

-- A wrong password is no sign that the panel is out of date.
abbrev pub is_doubtful : Failure → Bool
is_doubtful (api_error status message) = not (status == 400)
is_doubtful (failure message) = true

abbrev pub or_submitted : Option Status → Option Status → Option Status
or_submitted (some status) submitted = some status
or_submitted none submitted = submitted

unfoldable pub act : Act → ApiToken → ApiToken
act (loaded status) h = record h { status = some status }
act (load_failed detail) h = record h { load_failed = true; load_detail = detail }
act (type_password text) h = record h { password = text }
act submit h = if h.busy then h else record h { error = none; busy = true }
act (generated token created_at) h = record h {
  status = some (some created_at);
  revealed = some token;
  password = "";
  busy = false;
}
act (refused f) h = record h { error = some (message_of f); busy = is_doubtful f }
act (read_again answer submitted) h = record h {
  status = or_submitted answer submitted;
  busy = false;
}
act start_delete h = record h { error = none }
act (deleted none) h = record h { status = some none }
act (deleted (some message)) h = record h { error = some message }
act close h = record h { revealed = none }

unfoldable pub acts : List Act → ApiToken → ApiToken
acts [] h = h
acts (a ∷ rest) h = acts rest (act a h)
