-- ===== src/Timezones/Tests.antt =====
-- A browser in Amsterdam that lists two zones, in its own order of texts.
use isachore.Base.{
  ℕ, String, ◌≡◌, refl, true, false, none, some, List, [], ◌∷◌, leb, ◌=s=◌, if◌then◌else◌,
}
use isachore.Base.Sorting.{sort_by, put_in}
use isachore.Timezones.{Intl, no_caches, computed_zones}
use isachore.Timezones.Direct.{Call, Result, names, browser, render, calls, directs, calls_direct}

abbrev place : String → ℕ
place zone = if zone =s= "Asia/Tokyo" then 0 else if zone =s= "Europe/Amsterdam" then 1 else 2

abbrev amsterdam : Intl
amsterdam = record {
  supported = some ("Europe/Amsterdam" ∷ "Asia/Tokyo" ∷ []);
  compare_le = λ a b. leb (place a) (place b);
  detected = some "Europe/Amsterdam";
  can_format = λ zone. if zone =s= "Factory" then false else true;
}

abbrev visit : List Call
visit =
    render (some "Factory") ∷ browser ∷ names ∷ render (some "Factory") ∷ render (some "UTC") ∷ []

calls_direct_example : calls amsterdam visit no_caches ≡ directs amsterdam visit
calls_direct_example = calls_direct amsterdam visit

visit_answers :
    directs amsterdam visit
    ≡ Result.rendered none
      ∷ Result.zone "Europe/Amsterdam"
      ∷ Result.zones ("UTC" ∷ "Asia/Tokyo" ∷ "Europe/Amsterdam" ∷ [])
      ∷ Result.rendered none
      ∷ Result.rendered (some "UTC")
      ∷ []
unfolding computed_zones sort_by put_in
visit_answers = refl
