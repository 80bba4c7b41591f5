-- ===== src/Routes.antt =====
-- Where the client may send a browser after a sign-in: `safeReturnPath` of
-- frontend/src/lib/routes.ts. The URL parser is the browser's.
pub mod Return
mod Tests
use Prim.Native.Char.{Char, code}
use Prim.Native.String
use isachore.Base.{
  ℕ, ◌+◌, String, Bool, true, false, not, ◌||◌, Option, none, some, starts_with, ltb, ◌=s=◌,
  if◌then◌else◌,
}

-- `text.length`: a character past the first plane takes two code units.
unfoldable pub utf16_length : String → ℕ
utf16_length String.[] = 0
utf16_length (String.◌∷◌ c s) = (if ltb 65535 (code c) then 2 else 1) + utf16_length s

abbrev pub max_return_path : ℕ
max_return_path = 255

abbrev pub same_origin_base : String
same_origin_base = "https://isachore.invalid"

pub record Url : Type 0 where
  pub origin : String
  pub pathname : String
  pub search : String
  pub hash : String

-- `new URL(raw, base)`, which throws (`none`) on what is no reference.
abbrev pub UrlParser : Type 0
UrlParser = String → String → Option Url

abbrev pub path_of : Url → String
path_of u = String.◌++◌ u.pathname (String.◌++◌ u.search u.hash)

unfoldable pub resolved_path : Option Url → Option String
unfolding utf16_length
resolved_path none = none
resolved_path (some u) =
    if u.origin =s= same_origin_base
    then (if ltb max_return_path (utf16_length (path_of u)) then none else some (path_of u))
    else none

unfoldable pub safe_return_path : UrlParser → Option String → Option String
unfolding resolved_path utf16_length
safe_return_path new_url none = none
safe_return_path new_url (some raw) =
    if not (starts_with raw "/")
    then none
    else if ltb max_return_path (utf16_length raw)
    then none
    else resolved_path (new_url raw same_origin_base)
