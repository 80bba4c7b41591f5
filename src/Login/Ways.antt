-- ===== src/Login/Ways.antt =====
-- Which ways in the login page offers, and when.
use isachore.Base.{
  String, ◌≡◌, refl, sym, ap, ◌∙◌, Bool, true, false, not, ◌||◌, Option, none, some, List, [], ◌∷◌,
  ◌=s=◌, ◌≢◌, text→ne, if◌then◌else◌, Memᴰ,
}
use isachore.Types.{AuthMethods}
use isachore.Api.Validation.{trim_start, trim_end}
use isachore.Login.{
  Step, Attempt, LoginPage, LoginWords, Outcome, Event, start, begin, attempt_of, has_form, settle,
  step, run, provider_name,
}

abbrev pub is_some : {A : Type 0} → Option A → Bool
is_some none = false
is_some (some a) = true

-- The request under way, beside the one before the event: only a form on screen sends one, and
-- none while another is unanswered.
abbrev pub sent_by : Event → LoginPage → Option Attempt → Option Attempt
sent_by Event.submit p none = if has_form p then some (attempt_of p.step) else none
sent_by (Event.answered o) p u = none
sent_by _ p u = u

abbrev pub under_way : LoginWords → List Event → LoginPage → Option Attempt → Option Attempt
under_way t [] p u = u
under_way t (e ∷ es) p u = under_way t es (step t e p) (sent_by e p u)

-- What the page has to say for itself after some events, with the request that is under way.
pub record IsFounded (es : List Event) (u : Option Attempt) (p : LoginPage) : Type 0 where
  pub waits : p.submitting ≡ is_some u
  pub sent : p.attempt ≡ u
  pub asked : p.step ≡ Step.code → Memᴰ (Event.answered (Outcome.accepted true)) es
  pub told :
      has_form p ≡ false
      → (found : AuthMethods) × (Memᴰ (Event.methods_answer (some found)) es
          × (found.password_enabled ≡ false))

-- The same, with what the server told kept also at the step for a code.
record IsSound (es : List Event) (u : Option Attempt) (p : LoginPage) : Type 0 where
  waits : p.submitting ≡ is_some u
  sent : p.attempt ≡ u
  asked : p.step ≡ Step.code → Memᴰ (Event.answered (Outcome.accepted true)) es
  told :
      p.methods.password_enabled ≡ false
      → (found : AuthMethods) × (Memᴰ (Event.methods_answer (some found)) es
          × (found.password_enabled ≡ false))

abbrev pub past_of : List Event → List Event → List Event
past_of [] past = past
past_of (e ∷ es) past = past_of es (e ∷ past)

module _ (t : LoginWords) where
  later :
      (e : Event) (es : List Event) (u : Option Attempt) (p : LoginPage)
      → IsSound es u p
      → IsSound (e ∷ es) u p
  later e es u p f = record {
    waits = f.waits;
    sent = f.sent;
    asked = λ h. Memᴰ.tail (f.asked h);
    told = λ h. let (found, (m, q)) = f.told h in (found, (Memᴰ.tail m, q));
  }

  begun :
      (b c : Bool) (es : List Event) (u : Option Attempt) (p : LoginPage)
      → p.submitting ≡ b
      → has_form p ≡ c
      → IsSound es u p
      → IsSound es (sent_by Event.submit p u) (
          if b || not c
          then p
          else record p { submitting = true; error = none; attempt = some (attempt_of p.step) })
  begun true c es none p e h f = let q = f.waits in cc
  begun true c es (some a) p e h f = f
  begun false c es (some a) p e h f = let q = f.waits in cc
  begun false false es none p e h f = rw h f
  begun false true es none p e h f =
      rw h (record { waits = refl; sent = refl; asked = f.asked; told = f.told })

  settled :
      (a u : Option Attempt) (o : Outcome) (es : List Event) (p : LoginPage)
      → p.attempt ≡ a
      → IsSound es u p
      → IsSound (Event.answered o ∷ es) none (settle t a o p)
  unfolding settle
  settled none u o es p e f =
      let g = later (Event.answered o) es u p f in
      let q : u ≡ none = sym f.sent ∙ e in
      record { waits = f.waits ∙ ap is_some q; sent = e; asked = g.asked; told = g.told }
  settled (some Attempt.login) u (Outcome.accepted true) es p e f =
      let g = later (Event.answered (Outcome.accepted true)) es u p f in
      record { waits = refl; sent = refl; asked = λ h. Memᴰ.head refl; told = g.told }
  settled (some Attempt.login) u (Outcome.accepted false) es p e f =
      let g = later (Event.answered (Outcome.accepted false)) es u p f in
      record { waits = refl; sent = refl; asked = g.asked; told = g.told }
  settled (some Attempt.login) u (Outcome.rejected message) es p e f =
      let g = later (Event.answered (Outcome.rejected message)) es u p f in
      record { waits = refl; sent = refl; asked = g.asked; told = g.told }
  settled (some Attempt.verify) u (Outcome.accepted two_factor) es p e f =
      let g = later (Event.answered (Outcome.accepted two_factor)) es u p f in
      record { waits = refl; sent = refl; asked = g.asked; told = g.told }
  settled (some Attempt.verify) u (Outcome.rejected message) es p e f =
      let g = later (Event.answered (Outcome.rejected message)) es u p f in
      record { waits = refl; sent = refl; asked = g.asked; told = g.told }

  step-IsSound :
      (e : Event) (es : List Event) (u : Option Attempt) (p : LoginPage)
      → IsSound es u p
      → IsSound (e ∷ es) (sent_by e p u) (step t e p)
  unfolding step begin
  step-IsSound (Event.methods_answer none) es u p f = later (Event.methods_answer none) es u p f
  step-IsSound (Event.methods_answer (some found)) es u p f = record {
    waits = f.waits;
    sent = f.sent;
    asked = λ h. Memᴰ.tail (f.asked h);
    told = λ h. (found, (Memᴰ.head refl, h));
  }
  step-IsSound (Event.set_email x) es u p f =
      let g = later (Event.set_email x) es u p f in
      record { waits = g.waits; sent = g.sent; asked = g.asked; told = g.told }
  step-IsSound (Event.set_password x) es u p f =
      let g = later (Event.set_password x) es u p f in
      record { waits = g.waits; sent = g.sent; asked = g.asked; told = g.told }
  step-IsSound (Event.set_code x) es u p f =
      let g = later (Event.set_code x) es u p f in
      record { waits = g.waits; sent = g.sent; asked = g.asked; told = g.told }
  step-IsSound (Event.set_remember b) es u p f =
      let g = later (Event.set_remember b) es u p f in
      record { waits = g.waits; sent = g.sent; asked = g.asked; told = g.told }
  step-IsSound Event.toggle_recovery es u p f =
      let g = later Event.toggle_recovery es u p f in
      record { waits = g.waits; sent = g.sent; asked = g.asked; told = g.told }
  step-IsSound Event.submit es u p f =
      begun p.submitting (has_form p) (Event.submit ∷ es) u p refl refl
        (later Event.submit es u p f)
  step-IsSound (Event.answered o) es u p f = settled p.attempt u o es p refl f
  step-IsSound Event.back es u p f =
      let g = later Event.back es u p f in
      record { waits = g.waits; sent = g.sent; asked = λ h. cc; told = g.told }

  -- The events in the order in which they happened, and those before them, the last first.
  run-IsSound :
      (es past : List Event) (u : Option Attempt) (p : LoginPage)
      → IsSound past u p
      → IsSound (past_of es past) (under_way t es p u) (run t es p)
  unfolding run
  run-IsSound [] past u p f = f
  run-IsSound (e ∷ es) past u p f =
      run-IsSound es (e ∷ past) (sent_by e p u) (step t e p) (step-IsSound e past u p f)

  formless :
      (s : Step) (b : Bool) → (elim s [ Step.password ↦ b | Step.code ↦ true ]) ≡ false → b ≡ false
  formless Step.password b e = e
  formless Step.code b e = cc

  -- However the login page was used since it opened: one request at most is under way, that of the
  -- form on screen that was submitted first since the last answer, and a button is locked exactly
  -- while it is unanswered, also that of the form which `back` has brought up meanwhile; the form
  -- for a code is shown only if a request has been answered that a second factor is due; and no
  -- form is shown only if the server has answered that it takes no password.
  pub start-IsFounded :
      (sso_error : Option String) (es : List Event)
      → let p = start t sso_error in IsFounded (past_of es []) (under_way t es p none) (run t es p)
  unfolding start
  start-IsFounded sso_error es =
      let f =
        run-IsSound es [] none (start t sso_error)
          (record { waits = refl; sent = refl; asked = λ h. cc; told = λ h. cc }) in
      let p = run t es (start t sso_error) in
      record {
        waits = f.waits;
        sent = f.sent;
        asked = f.asked;
        told = λ h. f.told (formless p.step p.methods.password_enabled h);
      }

label_by : (s : String) (b : Bool) → (s =s= "") ≡ b → (if b then "SSO" else s) ≢ ""
label_by s true e h = cc
label_by s false e h = text→ne s "" e h

-- The link of the provider always has a name to show.
pub provider_name-nonempty : (name : Option String) → provider_name name ≢ ""
unfolding provider_name
provider_name-nonempty none h = cc
provider_name-nonempty (some name) h =
    let trimmed = trim_end (trim_start name) in label_by trimmed (trimmed =s= "") refl h
