-- ===== src/Timezones/Direct.antt =====
-- The caches change no answer, and what the answers are.
use isachore.Base.{
  String, ◌≡◌, refl, sym, ap, ◌∙◌, inl, inr, Bool, false, Option, none, some, List, [], ◌∷◌, ◌=s=◌,
  if◌then◌else◌, eq_iff, Bool-cases,
}
use isachore.Timezones.{
  Intl, Caches, no_caches, computed_zones, lookup_zone, names_of, timezone_names, detected_in,
  has_detected, browser_timezone, if_ok, rendered_by, renderable_zone,
}

-- The calls of the module that keep something, and their answers.
pub data Call : Type 0 where
  names browser : Call
  render : Option String → Call

pub data Result : Type 0 where
  zones : List String → Result
  zone : String → Result
  rendered : Option String → Result

module _ (intl : Intl) where
  abbrev pub call : Call → Caches → Result × Caches
  call names s = let r = timezone_names intl s in (zones r.0, r.1)
  call browser s = let r = browser_timezone intl s in (zone r.0, r.1)
  call (render o) s = let r = renderable_zone intl o s in (rendered r.0, r.1)

  abbrev pub calls : List Call → Caches → List Result
  calls [] s = []
  calls (c ∷ cs) s = (call c s).0 ∷ calls cs (call c s).1

  -- The same without a cache.
  abbrev pub direct : Call → Result
  direct names = zones (computed_zones intl)
  direct browser = zone (detected_in intl.detected (computed_zones intl))
  direct (render none) = rendered none
  direct (render (some z)) = rendered (if z =s= "" then none else if_ok (intl.can_format z) z)

  abbrev pub directs : List Call → List Result
  directs [] = []
  directs (c ∷ cs) = direct c ∷ directs cs

  IsNames : Option (List String) → Type 0
  IsNames none = Unit
  IsNames (some zs) = zs ≡ computed_zones intl

  AreProbes : List (String × Bool) → Type 0
  AreProbes [] = Unit
  AreProbes ((z, ok) ∷ entries) = (ok ≡ intl.can_format z) × AreProbes entries

  IsTrue : Caches → Type 0
  unfolding IsNames AreProbes
  IsTrue s = IsNames s.cached × AreProbes s.renderable

  names_lem :
      (s : Caches)
      → IsTrue s
      → ((timezone_names intl s).0 ≡ computed_zones intl) × IsTrue (timezone_names intl s).1
  unfolding timezone_names IsTrue IsNames
  names_lem s (n, p) = known s.cached n
    where
      known :
          (o : Option (List String))
          → IsNames o
          → ((names_of intl o s).0 ≡ computed_zones intl) × IsTrue (names_of intl o s).1
      known none h = (refl, (refl, p))
      known (some zs) h = (h, (n, p))

  lookup_zone-AreProbes :
      (z : String) (entries : List (String × Bool)) (ok : Bool)
      → AreProbes entries
      → lookup_zone z entries ≡ some ok
      → ok ≡ intl.can_format z
  unfolding AreProbes
  lookup_zone-AreProbes z [] ok p h = cc
  lookup_zone-AreProbes z ((y, b) ∷ entries) ok (q, qs) h = elim (Bool-cases (y =s= z)) [
    | inl e ↦
        let same : y ≡ z = (eq_iff y z).0 e in
        let k : some b ≡ some ok = rw e at h in
        let r : b ≡ ok = cc in sym r ∙ q ∙ ap intl.can_format same
    | inr e ↦ lookup_zone-AreProbes z entries ok qs (rw e at h)
  ]

  render_lem :
      (z : String) (s : Caches) (o : Option Bool)
      → IsTrue s
      → ((ok : Bool) → o ≡ some ok → ok ≡ intl.can_format z)
      → ((rendered_by intl o z s).0 ≡ if_ok (intl.can_format z) z)
        × IsTrue (rendered_by intl o z s).1
  unfolding IsTrue AreProbes
  render_lem z s none (n, p) f = (refl, (n, (refl, p)))
  render_lem z s (some ok) t f = (ap (λ b. if_ok b z) (f ok refl), t)

  undetected :
      (o : Option String) (zs : List String) → has_detected o ≡ false → "UTC" ≡ detected_in o zs
  undetected none zs h = refl
  undetected (some z) zs h = rw h refl

  probes : (s : Caches) → IsTrue s → AreProbes s.renderable
  unfolding IsTrue
  probes s (n, p) = p

  call_lem : (c : Call) (s : Caches) → IsTrue s → ((call c s).0 ≡ direct c) × IsTrue (call c s).1
  unfolding browser_timezone renderable_zone
  call_lem names s t = let (e, u) = names_lem s t in (ap zones e, u)
  call_lem browser s t = elim (Bool-cases (has_detected intl.detected)) [
    | inl e ↦ let (q, u) = names_lem s t in rw e (ap (λ l. zone (detected_in intl.detected l)) q, u)
    | inr e ↦ rw e (ap zone (undetected intl.detected (computed_zones intl) e), t)
  ]
  call_lem (render none) s t = (refl, t)
  call_lem (render (some z)) s t = elim (Bool-cases (z =s= "")) [
    | inl e ↦ rw e (refl, t)
    | inr e ↦
        let (q, u) =
          render_lem z s (lookup_zone z s.renderable) t
            (λ ok h. lookup_zone-AreProbes z s.renderable ok (probes s t) h) in
        rw e (ap rendered q, u)
  ]

  -- Whatever was called before: every call answers what it would answer without the caches.
  pub calls_direct : (cs : List Call) → calls cs no_caches ≡ directs cs
  unfolding IsTrue IsNames AreProbes
  calls_direct cs = from cs no_caches (tt, tt)
    where
      from : (cs : List Call) (s : Caches) → IsTrue s → calls cs s ≡ directs cs
      from [] s t = refl
      from (c ∷ cs) s t =
          let (e, u) = call_lem c s t in
          ap (λ x. x ∷ calls cs (call c s).1) e ∙ ap (λ l. direct c ∷ l) (from cs (call c s).1 u)
