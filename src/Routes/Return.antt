-- ===== src/Routes/Return.antt =====
-- Which paths the guard lets through.
use isachore.Base.{
  ◌≤◌, String, ◌≡◌, ◌↔◌, refl, Bool, true, false, not, Option, none, some, starts_with, ltb, ◌=s=◌,
  if◌then◌else◌, arith, eq_iff, Bool-cases, inl, inr,
}
use isachore.Routes.{
  utf16_length, same_origin_base, Url, UrlParser, path_of, resolved_path, safe_return_path,
}

-- What the guard means to let through.
pub record IsAllowed (new_url : UrlParser) (raw p : String) : Type 0 where
  pub url : Url
  pub relative : starts_with raw "/" ≡ true
  pub short : utf16_length raw ≤ 255
  pub resolved : new_url raw same_origin_base ≡ some url
  pub home : url.origin ≡ same_origin_base
  pub path : path_of url ≡ p
  pub path_short : utf16_length p ≤ 255

resolved_path_sound :
    (o : Option Url) (p : String)
    → resolved_path o ≡ some p
    → (u : Url) × (o ≡ some u)
      × (u.origin ≡ same_origin_base)
      × (path_of u ≡ p)
      × (utf16_length p ≤ 255)
unfolding resolved_path
resolved_path_sound none p h = cc
resolved_path_sound (some u) p h = elim (Bool-cases (u.origin =s= same_origin_base)) [
  | inr away ↦ cc (rw away at h)
  | inl home ↦ elim (Bool-cases (ltb 255 (utf16_length (path_of u)))) [
    | inl long ↦ cc (rw (home, long) at h)
    | inr short ↦
        let e : path_of u ≡ p = cc (rw (home, short) at h) in
        (u, refl, (eq_iff _ _).0 home, e, rw (← e) (ground (arith, short)))
  ]
]

-- The guard lets a path through exactly when the text is relative to the site, resolves to the
-- site's own origin, and is not too long before and after the parser has normalised it; and the
-- path is the normalised one.
pub safe_return_path_iff :
    (new_url : UrlParser) (raw p : String)
    → (safe_return_path new_url (some raw) ≡ some p) ↔ IsAllowed new_url raw p
unfolding safe_return_path resolved_path
safe_return_path_iff new_url raw p = (forth, back)
  where
    checked :
        (r l : Bool) (o : Option String)
        → (if not r then none else if l then none else o) ≡ some p
        → (r ≡ true) × (l ≡ false) × (o ≡ some p)
    checked true false o h = (refl, refl, h)
    checked true true o h = cc
    checked false l o h = cc

    forth : safe_return_path new_url (some raw) ≡ some p → IsAllowed new_url raw p
    forth h =
        let (r, l, o) = checked (starts_with raw "/") (ltb 255 (utf16_length raw)) _ h in
        let (u, e, home, path, short) = resolved_path_sound (new_url raw same_origin_base) p o in
        record {
          url = u;
          relative = r;
          short = ground (arith, l);
          resolved = e;
          home = home;
          path = path;
          path_short = short;
        }

    back : IsAllowed new_url raw p → safe_return_path new_url (some raw) ≡ some p
    back a =
        let l : ltb 255 (utf16_length raw) ≡ false = ground (arith, a.short) in
        let q : ltb 255 (utf16_length p) ≡ false = ground (arith, a.path_short) in
        let o : (a.url.origin =s= same_origin_base) ≡ true = (eq_iff _ _).1 a.home in
        simp (a.relative, l, a.resolved, o, a.path, q)
