-- ===== src/Api/Errors.antt =====
-- Which responses are errors, and which call the handler.
use isachore.Base.{
  ℕ, String, ◌≡◌, ◌≢◌, refl, Bool, true, false, Option, none, some, ◌==◌, if◌then◌else◌, arith,
  Bool-cases, inl, inr,
}
use isachore.Web.Number.{Numerals}
use isachore.Web.Value.{Value}
use isachore.Api.Issue.{Translate}
use isachore.Api.{Response, api_error, undefined, is_ok, returned, handle, error_detail}

returned-ne-api_error : (o : Option Value) (s : ℕ) (d : String) → returned o ≢ api_error s d
unfolding returned
returned-ne-api_error none s d e = cc
returned-ne-api_error (some v) s d e = cc

chosen-ne-api_error :
    (b : Bool) (o : Option Value) (s : ℕ) (d : String)
    → (if b then undefined else returned o) ≢ api_error s d
chosen-ne-api_error true o s d e = cc
chosen-ne-api_error false o s d e = returned-ne-api_error o s d e

chosen_undefined :
    (b : Bool) (o : Option Value) → b ≡ true → (if b then undefined else returned o) ≡ undefined
chosen_undefined true o e = refl
chosen_undefined false o e = cc

-- The handler is called for an answer 401 and for no other. A response out of 200 to 299 is an
-- error with its own status, whatever its body; one within is never, and 204 needs no body.
pub handle_lem :
    (num : Numerals) (t : Translate) (res : Response)
    → ((handle num t res).1 ≡ (res.status == 401))
      × (is_ok res.status ≡ false → (d : String) × ((handle num t res).0 ≡ api_error res.status d))
      × (is_ok res.status ≡ true → (s : ℕ) (d : String) → (handle num t res).0 ≢ api_error s d)
      × (res.status ≡ 204 → (handle num t res).0 ≡ undefined)
unfolding handle
handle_lem num t res = elim (Bool-cases (is_ok res.status)) [
  | inl ok ↦ simp ok (
    ground (arith, ok),
    λ f. absurd (cc f),
    λ _ s d. chosen-ne-api_error (res.status == 204) res.json s d,
    λ e. chosen_undefined (res.status == 204) res.json (ground (arith, e)),
  )
  | inr failed ↦ simp failed (
    refl,
    λ _. (error_detail num t res.status_text res.json, refl),
    λ f. absurd (cc f),
    λ e. absurd (ground (arith, failed, e)),
  )
]
