-- ===== src/Api.antt =====
-- The fetch layer of frontend/src/lib/api.ts: what becomes of a response.
pub mod Issue
pub mod Validation
pub mod Lines
pub mod Errors
mod Tests
use isachore.Base.{
  ℕ, String, Bool, true, false, not, ◌&&◌, Option, none, some, leb, ◌==◌, if◌then◌else◌,
}
use isachore.Web.Number.{Numerals}
use isachore.Web.Value.{Value, text, is_object, property}
use isachore.Api.Issue.{Translate}
use isachore.Api.Validation.{format_validation_detail}

-- A response; its body is none where it is no JSON text.
pub record Response : Type 0 where
  pub status : ℕ
  pub status_text : String
  pub json : Option Value

-- `res.ok`
abbrev pub is_ok : ℕ → Bool
is_ok status = leb 200 status && leb status 299

-- What the caller gets: a value, undefined, an `ApiError`, or what `res.json()` throws.
pub data Outcome : Type 0 where
  value : Value → Outcome
  undefined : Outcome
  api_error : (status : ℕ) (detail : String) → Outcome
  not_json : Outcome

-- `typeof data.detail === 'string' ? … : formatValidationDetail(…) ?? detail`
abbrev pub or_text : Option String → String → String
or_text none fallback = fallback
or_text (some t) fallback = t

unfoldable pub detail_of : Numerals → Translate → String → Option Value → String
detail_of num t fallback none = fallback
detail_of num t fallback (some (text s)) = s
detail_of num t fallback (some v) = or_text (format_validation_detail num t v) fallback

unfoldable pub error_detail : Numerals → Translate → String → Option Value → String
unfolding detail_of
error_detail num t status_text none = status_text
error_detail num t status_text (some body) =
    if is_object body then detail_of num t status_text (property num "detail" body) else status_text

unfoldable pub returned : Option Value → Outcome
returned none = not_json
returned (some v) = value v

-- The outcome, and whether the handler of an answer 401 was called.
unfoldable pub handle : Numerals → Translate → Response → Outcome × Bool
unfolding error_detail returned
handle num t res =
    if is_ok res.status
    then ((if res.status == 204 then undefined else returned res.json), false)
    else (api_error res.status (error_detail num t res.status_text res.json), res.status == 401)
