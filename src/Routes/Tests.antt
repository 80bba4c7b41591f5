-- ===== src/Routes/Tests.antt =====
-- A return path that the parser normalises to two slashes.
use isachore.Base.{String, ◌≡◌, ◌↔◌, refl, none, some, ◌=s=◌, if◌then◌else◌}
use isachore.Routes.{
  Url, UrlParser, utf16_length, resolved_path, same_origin_base, safe_return_path,
}
use isachore.Routes.Return.{IsAllowed, safe_return_path_iff}

abbrev at_home : String → Url
at_home path = record { origin = same_origin_base; pathname = path; search = ""; hash = "" }

abbrev away : Url
away = record { origin = "https://evil.example"; pathname = "/"; search = ""; hash = "" }

-- What the WHATWG parser answers on three references: a dot segment is dropped, and what follows
-- two slashes is a host.
abbrev browser : UrlParser
browser raw base =
    if raw =s= "//evil.example"
    then some away
    else if raw =s= "/.//evil.example"
    then some (at_home "//evil.example")
    else some (at_home raw)

return_tests :
    (safe_return_path browser (some "/docs") ≡ some "/docs")
    × (safe_return_path browser (some "//evil.example") ≡ none)
    × (safe_return_path browser (some "docs") ≡ none)
    × (safe_return_path browser none ≡ none)
unfolding safe_return_path resolved_path utf16_length
return_tests = (refl, refl, refl, refl)

safe_return_path_iff_example :
    (safe_return_path browser (some "/docs") ≡ some "/docs") ↔ IsAllowed browser "/docs" "/docs"
safe_return_path_iff_example = safe_return_path_iff browser "/docs" "/docs"
