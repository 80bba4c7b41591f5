-- ===== src/TwoFactor/Once.antt =====
-- Recovery codes are shown once.
use isachore.Base.{
  String, ◌≡◌, refl, ◌⊎◌, inl, inr, Bool, true, false, ◌&&◌, ◌||◌, Option, none, some, List, [],
  ◌∷◌, if◌then◌else◌,
}
use isachore.TwoFactor.{
  TwoFactor, Outcome, Act, act, acts, is_recovery, is_new_codes, on_screen, closed,
}

-- The codes that an answer carries.
abbrev pub carried : Act → Option (List String)
carried (Act.confirm_answered (Outcome.done codes)) = some codes
carried (Act.regen_answered (Outcome.done codes)) = some codes
carried _ = none

abbrev pub newest : Option (List String) → List String → List String
newest none last = last
newest (some codes) last = codes

-- The codes of the newest answer that carried any.
abbrev pub issued : List String → List Act → List String
issued last [] = last
issued last (a ∷ rest) = issued (newest (carried a) last) rest

abbrev pub AreBare : List Act → Type 0
AreBare [] = Unit
AreBare (a ∷ rest) = (carried a ≡ none) × AreBare rest

abbrev nil : List String
nil = []

cleared : (b : Bool) → (if b then nil else nil) ≡ nil
cleared true = refl
cleared false = refl

fewer :
    (e e' r r' : Bool) (codes : List String)
    → (e' ≡ true → e ≡ true)
    → (r' ≡ true → r ≡ true)
    → (if e || r then codes else []) ≡ []
    → (if e' || r' then codes else []) ≡ []
fewer e false r false codes p q h = refl
fewer e true r r' codes p q h = rw (p refl) at h
fewer true false r true codes p q h = h
fewer false false r true codes p q h = rw (q refl) at h

either_same :
    (b : Bool) (x y : TwoFactor) (Q : TwoFactor → Type 0) → Q x → Q y → Q (if b then x else y)
either_same true x y Q p q = p
either_same false x y Q p q = q

IsBlank : TwoFactor → Type 0
IsBlank h = on_screen h ≡ []

act-IsBlank : (a : Act) (h : TwoFactor) → carried a ≡ none → IsBlank h → IsBlank (act a h)
unfolding act IsBlank
act-IsBlank Act.open_enable h c p = cleared (h.regen_open && is_new_codes h.regen_phase)
act-IsBlank Act.open_disable h c p = p
act-IsBlank Act.open_regen h c p = cleared ((h.enable_open && is_recovery h.enable_phase) || false)
act-IsBlank Act.close_enable h c p =
    fewer (h.enable_open && is_recovery h.enable_phase) false
      (h.regen_open && is_new_codes h.regen_phase) (h.regen_open && is_new_codes h.regen_phase)
      h.codes (λ e. cc) (λ e. e) p
act-IsBlank Act.close_disable h c p = p
act-IsBlank Act.close_regen h c p =
    fewer (h.enable_open && is_recovery h.enable_phase)
      (h.enable_open && is_recovery h.enable_phase) (h.regen_open && is_new_codes h.regen_phase)
      false h.codes (λ e. e) (λ e. cc) p
act-IsBlank (Act.type_confirm text) h c p = p
act-IsBlank (Act.type_prompt text) h c p = p
act-IsBlank Act.confirm_enable h c p =
    either_same h.enable_busy h (record h { enable_error = none; enable_busy = true }) IsBlank p p
act-IsBlank Act.disable h c p =
    either_same h.prompt_busy h (record h { prompt_error = none; prompt_busy = true }) IsBlank p p
act-IsBlank Act.regen h c p =
    either_same h.prompt_busy h (record h { prompt_error = none; prompt_busy = true }) IsBlank p p
act-IsBlank (Act.setup_answered (Outcome.done s)) h c p = p
act-IsBlank (Act.setup_answered (Outcome.failed message)) h c p = p
act-IsBlank (Act.confirm_answered (Outcome.done codes)) h c p = cc
act-IsBlank (Act.confirm_answered (Outcome.failed message)) h c p = p
act-IsBlank (Act.enable_refreshed failure) h c p = p
act-IsBlank (Act.disable_answered (Outcome.done _)) h c p = p
act-IsBlank (Act.disable_answered (Outcome.failed message)) h c p = p
act-IsBlank (Act.disable_refreshed failure) h c p = p
act-IsBlank (Act.regen_answered (Outcome.done codes)) h c p = cc
act-IsBlank (Act.regen_answered (Outcome.failed message)) h c p = p

acts-IsBlank :
    (as_done : List Act) (h : TwoFactor) → AreBare as_done → IsBlank h → IsBlank (acts as_done h)
unfolding acts
acts-IsBlank [] h c p = p
acts-IsBlank (a ∷ rest) h (c, cs) p = acts-IsBlank rest (act a h) cs (act-IsBlank a h c p)

abbrev IsIssued : List String → List String → Type 0
IsIssued last codes = (codes ≡ []) ⊎ (codes ≡ last)

act-IsIssued :
    (a : Act) (h : TwoFactor) (last : List String)
    → IsIssued last h.codes
    → IsIssued (newest (carried a) last) (act a h).codes
unfolding act
act-IsIssued Act.open_enable h last p = inl refl
act-IsIssued Act.open_disable h last p = p
act-IsIssued Act.open_regen h last p = inl refl
act-IsIssued Act.close_enable h last p = p
act-IsIssued Act.close_disable h last p = p
act-IsIssued Act.close_regen h last p = p
act-IsIssued (Act.type_confirm text) h last p = p
act-IsIssued (Act.type_prompt text) h last p = p
act-IsIssued Act.confirm_enable h last p =
    either_same h.enable_busy h (record h { enable_error = none; enable_busy = true })
      (λ x. IsIssued last x.codes) p p
act-IsIssued Act.disable h last p =
    either_same h.prompt_busy h (record h { prompt_error = none; prompt_busy = true })
      (λ x. IsIssued last x.codes) p p
act-IsIssued Act.regen h last p =
    either_same h.prompt_busy h (record h { prompt_error = none; prompt_busy = true })
      (λ x. IsIssued last x.codes) p p
act-IsIssued (Act.setup_answered (Outcome.done s)) h last p = p
act-IsIssued (Act.setup_answered (Outcome.failed message)) h last p = p
act-IsIssued (Act.confirm_answered (Outcome.done codes)) h last p = inr refl
act-IsIssued (Act.confirm_answered (Outcome.failed message)) h last p = p
act-IsIssued (Act.enable_refreshed failure) h last p = p
act-IsIssued (Act.disable_answered (Outcome.done _)) h last p = p
act-IsIssued (Act.disable_answered (Outcome.failed message)) h last p = p
act-IsIssued (Act.disable_refreshed failure) h last p = p
act-IsIssued (Act.regen_answered (Outcome.done codes)) h last p = inr refl
act-IsIssued (Act.regen_answered (Outcome.failed message)) h last p = p

acts-IsIssued :
    (as_done : List Act) (h : TwoFactor) (last : List String)
    → IsIssued last h.codes
    → IsIssued (issued last as_done) (acts as_done h).codes
unfolding acts
acts-IsIssued [] h last p = p
acts-IsIssued (a ∷ rest) h last p =
    acts-IsIssued rest (act a h) (newest (carried a) last) (act-IsIssued a h last p)

-- However the dialogs of the second factor were used, and in whatever order the requests are
-- answered: the recovery codes on screen, if any, are those of the newest answer that carried
-- some; and once none are on screen, none are again before such an answer.
pub shown_once :
    (before after : List Act)
    → AreBare after
    → IsIssued (issued [] before) (on_screen (acts before closed))
      × (on_screen (acts before closed) ≡ [] → on_screen (acts after (acts before closed)) ≡ [])
unfolding IsBlank
shown_once before after c = (
  either_shown
      (((acts before closed).enable_open && is_recovery (acts before closed).enable_phase)
        || ((acts before closed).regen_open && is_new_codes (acts before closed).regen_phase))
      (acts before closed).codes (acts-IsIssued before closed [] (inl refl)),
  λ p. acts-IsBlank after (acts before closed) c p,
)
  where
    either_shown :
        (b : Bool) (codes : List String)
        → IsIssued (issued [] before) codes
        → IsIssued (issued [] before) (if b then codes else [])
    either_shown true codes p = p
    either_shown false codes p = inl refl
