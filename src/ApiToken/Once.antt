-- ===== src/ApiToken/Once.antt =====
-- The token is shown from the answer that carries it until its dialog is closed.
use isachore.Base.{
  String, ◌≡◌, refl, Bool, true, false, Option, none, some, List, [], ◌∷◌, if◌then◌else◌,
}
use isachore.ApiToken.{ApiToken, Act, act, acts, opened}

-- The newest token that an answer brought since the dialog was last closed.
abbrev pub brought : Act → Option String → Option String
brought (Act.generated token created_at) last = some token
brought Act.close last = none
brought _ last = last

abbrev pub newest : Option String → List Act → Option String
newest last [] = last
newest last (a ∷ rest) = newest (brought a last) rest

act-revealed : (a : Act) (h : ApiToken) → (act a h).revealed ≡ brought a h.revealed
unfolding act
act-revealed (Act.loaded status) h = refl
act-revealed (Act.load_failed detail) h = refl
act-revealed (Act.type_password text) h = refl
act-revealed Act.submit h = unchanged h.busy
  where
    unchanged :
        (b : Bool) → (if b then h else record h { error = none; busy = true }).revealed ≡ h.revealed
    unchanged true = refl
    unchanged false = refl
act-revealed (Act.generated token created_at) h = refl
act-revealed (Act.refused f) h = refl
act-revealed (Act.read_again answer submitted) h = refl
act-revealed Act.start_delete h = refl
act-revealed (Act.deleted none) h = refl
act-revealed (Act.deleted (some message)) h = refl
act-revealed Act.close h = refl

-- Whatever order the answers come in: the token on screen, if any, is that of the newest answer that
-- brought one, and the dialog was not closed since.
pub token_shown : (as_done : List Act) → (acts as_done opened).revealed ≡ newest none as_done
unfolding acts
token_shown as_done = from as_done opened
  where
    from :
        (as_done : List Act) (h : ApiToken) → (acts as_done h).revealed ≡ newest h.revealed as_done
    from [] h = refl
    from (a ∷ rest) h = rw (← act-revealed a h) (from rest (act a h))
