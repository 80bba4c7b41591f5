-- ===== src/Login/Tests.antt =====
-- A sign-in with a second factor, on a server without passwords.
use isachore.Base.{some, none, List, [], ◌∷◌, true, false}
use isachore.Types.{AuthMethods}
use isachore.Login.{LoginWords, Outcome, Event, start, run}
use isachore.Login.Ways.{IsFounded, past_of, under_way, start-IsFounded}

abbrev words : LoginWords
words = record { key = λ s. s; error = "login"; two_factor_error = "code" }

abbrev provider_only : AuthMethods
provider_only = record {
  password_enabled = false;
  oidc_enabled = true;
  oidc_provider_name = some "Keys";
}

abbrev sign_in : List Event
sign_in =
    Event.set_email "ann@example.org"
    ∷ Event.set_password "secret"
    ∷ Event.submit
    ∷ Event.methods_answer (some provider_only)
    ∷ Event.answered (Outcome.accepted true)
    ∷ Event.set_code "123456"
    ∷ Event.submit
    ∷ []

start-IsFounded_example :
    let p = start words (some "state") in
    IsFounded (past_of sign_in []) (under_way words sign_in p none) (run words sign_in p)
start-IsFounded_example = start-IsFounded words (some "state") sign_in
