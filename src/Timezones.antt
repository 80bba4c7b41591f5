-- ===== src/Timezones.antt =====
-- frontend/src/lib/timezones.ts: the zones on offer, the viewer's own, and whether the browser can
-- format in a zone, with the two caches of the module as its state. `Intl` is a parameter: what
-- `supportedValuesOf` gives (`none` where it is missing), `localeCompare(a, b) <= 0`, the zone of the
-- browser, and whether a formatter for a zone can be made.
pub mod Direct
mod Tests
use isachore.Base.{
  String, Bool, true, false, ◌&&◌, not, Option, none, some, List, [], ◌∷◌, any, ◌=s=◌,
  if◌then◌else◌,
}
use isachore.Base.Sorting.{sort_by}

abbrev pub fallback_zones : List String
fallback_zones =
    "UTC" ∷ "Europe/Amsterdam" ∷ "Europe/London" ∷ "America/New_York" ∷ "America/Los_Angeles"
    ∷ "Asia/Tokyo" ∷ "Australia/Sydney" ∷ []

pub record Intl : Type 0 where
  pub supported : Option (List String)
  pub compare_le : String → String → Bool
  pub detected : Option String
  pub can_format : String → Bool

-- `cached` and `renderable`, the latter with its newest entry first.
pub record Caches : Type 0 where
  pub cached : Option (List String)
  pub renderable : List (String × Bool)

abbrev pub no_caches : Caches
no_caches = record { cached = none; renderable = [] }

abbrev pub includes : String → List String → Bool
includes zone zones = any (λ z. z =s= zone) zones

abbrev pub source_zones : Option (List String) → List String
source_zones none = fallback_zones
source_zones (some []) = fallback_zones
source_zones (some (z ∷ zs)) = z ∷ zs

abbrev pub with_utc : List String → List String
with_utc zones = if includes "UTC" zones then zones else "UTC" ∷ zones

unfoldable pub computed_zones : Intl → List String
computed_zones intl = with_utc (sort_by intl.compare_le (source_zones intl.supported))

-- `renderable.get(zone)`
abbrev pub lookup_zone : String → List (String × Bool) → Option Bool
lookup_zone zone [] = none
lookup_zone zone ((z, ok) ∷ entries) = if z =s= zone then some ok else lookup_zone zone entries

-- An empty text is no zone.
abbrev pub detected_in : Option String → List String → String
detected_in none zones = "UTC"
detected_in (some zone) zones = if not (zone =s= "") && includes zone zones then zone else "UTC"

abbrev pub has_detected : Option String → Bool
has_detected none = false
has_detected (some zone) = not (zone =s= "")

abbrev pub if_ok : Bool → String → Option String
if_ok ok zone = if ok then some zone else none

module _ (intl : Intl) where
  abbrev pub names_of : Option (List String) → Caches → List String × Caches
  names_of (some zones) s = (zones, s)
  names_of none s = (computed_zones intl, record s { cached = some (computed_zones intl) })

  unfoldable pub timezone_names : Caches → List String × Caches
  timezone_names s = names_of s.cached s

  unfoldable pub browser_timezone : Caches → String × Caches
  unfolding timezone_names
  browser_timezone s =
      if has_detected intl.detected
      then (detected_in intl.detected (timezone_names s).0, (timezone_names s).1)
      else ("UTC", s)

  abbrev pub rendered_by : Option Bool → String → Caches → Option String × Caches
  rendered_by (some ok) zone s = (if_ok ok zone, s)
  rendered_by none zone s = (
    if_ok (intl.can_format zone) zone,
    record s { renderable = (zone, intl.can_format zone) ∷ s.renderable },
  )

  unfoldable pub renderable_zone : Option String → Caches → Option String × Caches
  renderable_zone none s = (none, s)
  renderable_zone (some zone) s =
      if zone =s= "" then (none, s) else rendered_by (lookup_zone zone s.renderable) zone s
