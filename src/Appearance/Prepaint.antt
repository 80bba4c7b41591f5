-- ===== src/Appearance/Prepaint.antt =====
-- The script before the application, frontend/public/theme-init.js, against the application.
use isachore.Base.{
  String, ◌≡◌, refl, sym, ap, ◌∙◌, ◌↔◌, Bool, true, false, ◌||◌, Option, none, some, List, [], ◌∷◌,
  any, find, map, ◌=s=◌, if◌then◌else◌, eq_iff, Bool-cases, inl, inr,
}
use isachore.Types.{Flavour, Accent}
use isachore.Web.Store.{Store, lookup, get_item}
use isachore.Auth.{flavour_id, accent_id, or_else, theme_key, accent_key}
use isachore.Appearance.{
  read_flavour, read_accent, migrate_legacy, initial_theme, initial_accent, os_theme, is_dark,
  dressed, Root, has_property, script_flavours, script_dark, script_accents, script_theme, themes,
  accents, script_accent, painted, theme_init,
}
use isachore.Appearance.Reading.{initial_theme-id, initial_accent-id}

-- No name that every object inherits is one of the identifiers, or one of the two old values.
pub record IsApart (inherited : String → Bool) : Type 0 where
  pub flavour : (f : Flavour) → inherited (flavour_id f) ≡ false
  pub accent : (a : Accent) → inherited (accent_id a) ≡ false
  pub light : inherited "light" ≡ false
  pub dark : inherited "dark" ≡ false

abbrev pub is_inherited : (String → Bool) → Option String → Bool
is_inherited inherited none = false
is_inherited inherited (some text) = inherited text

module _ {A : Type 0} (id : A → String) (text : String) where
  any_id : (xs : List A) → any (λ k. k =s= text) (map id xs) ≡ true → (x : A) × (id x ≡ text)
  any_id [] h = absurd (nothing h)
    where
      nothing : false ≡ true → ⊥
      nothing h = cc
  any_id (x ∷ xs) h = elim (Bool-cases (id x =s= text)) [
    | inl e ↦ (x, (eq_iff (id x) text).0 e)
    | inr e ↦ any_id xs (rw e at h)
  ]

  no_id :
      (xs : List A)
      → any (λ k. k =s= text) (map id xs) ≡ false
      → find (λ x. id x =s= text) xs ≡ none
  no_id [] h = refl
  no_id (x ∷ xs) h = elim (Bool-cases (id x =s= text)) [
    | inl e ↦ absurd (found (rw e at h))
    | inr e ↦ rw e (no_id xs (rw e at h))
  ]
    where
      found : true ≡ false → ⊥
      found h = cc

either_or : (b c : Bool) → b ≡ false → c ≡ false → (b || c) ≡ false
either_or b c e f = rw (e, f) refl

or_true : (b c : Bool) → c ≡ true → (b || c) ≡ true
or_true true c e = refl
or_true false c e = e

module _ (inherited : String → Bool) (apart : IsApart inherited) (prefers_dark : Bool) where
  own_theme :
      (f : Flavour) → script_theme inherited prefers_dark (some (flavour_id f)) ≡ flavour_id f
  unfolding script_theme
  own_theme Flavour.latte = refl
  own_theme Flavour.frappe = refl
  own_theme Flavour.macchiato = refl
  own_theme Flavour.mocha = refl

  old_theme :
      (text : String)
      → (if text =s= "light"
          then "latte"
          else if text =s= "dark"
          then "mocha"
          else if prefers_dark
          then "mocha"
          else "latte")
        ≡ flavour_id (or_else (migrate_legacy text) (os_theme prefers_dark))
  unfolding migrate_legacy
  old_theme text = elim (Bool-cases (text =s= "light")) [
    | inl e ↦ rw e refl
    | inr e ↦ elim (Bool-cases (text =s= "dark")) [
      | inl f ↦ rw (e, f) refl
      | inr f ↦ elim (Bool-cases prefers_dark) [
        | inl g ↦ rw (e, f, g) refl
        | inr g ↦ rw (e, f, g) refl
      ]
    ]
  ]

  theme_plain :
      (o : Option String)
      → is_inherited inherited o ≡ false
      → script_theme inherited prefers_dark o ≡ flavour_id (initial_theme prefers_dark o)
  unfolding script_theme initial_theme read_flavour
  theme_plain none h = elim (Bool-cases prefers_dark) [ inl e ↦ rw e refl | inr e ↦ rw e refl ]
  theme_plain (some text) h = elim (Bool-cases (any (λ k. k =s= text) script_flavours)) [
    | inl e ↦
        let (f, q) = any_id flavour_id text (map (λ m. m.id) themes) e in
        rw (← q) (own_theme f ∙ ap flavour_id (sym (initial_theme-id prefers_dark f)))
    | inr e ↦
        rw
          (
            either_or (any (λ k. k =s= text) script_flavours) (inherited text) e h,
            no_id flavour_id text (map (λ m. m.id) themes) e,
          )
          (old_theme text)
  ]

  own_accent : (a : Accent) → script_accent inherited (some (accent_id a)) ≡ accent_id a
  unfolding script_accent
  own_accent a = rw (or_listed a) refl
    where
      or_listed : (a : Accent) → has_property inherited script_accents (accent_id a) ≡ true
      or_listed Accent.rosewater = refl
      or_listed Accent.flamingo = refl
      or_listed Accent.pink = refl
      or_listed Accent.mauve = refl
      or_listed Accent.red = refl
      or_listed Accent.maroon = refl
      or_listed Accent.peach = refl
      or_listed Accent.yellow = refl
      or_listed Accent.green = refl
      or_listed Accent.teal = refl
      or_listed Accent.sky = refl
      or_listed Accent.sapphire = refl
      or_listed Accent.blue = refl
      or_listed Accent.lavender = refl

  accent_plain :
      (o : Option String)
      → is_inherited inherited o ≡ false
      → script_accent inherited o ≡ accent_id (initial_accent o)
  unfolding script_accent initial_accent read_accent
  accent_plain none h = refl
  accent_plain (some text) h = elim (Bool-cases (any (λ k. k =s= text) script_accents)) [
    | inl e ↦
        let (a, q) = any_id accent_id text accents e in
        rw (← q) (own_accent a ∙ ap accent_id (sym (initial_accent-id a)))
    | inr e ↦
        rw
          (
            either_or (any (λ k. k =s= text) script_accents) (inherited text) e h,
            no_id accent_id text accents e,
          )
          refl
  ]

  -- A name that every object inherits is taken as it stands, and is no identifier.
  theme_inherited :
      (o : Option String) (f : Flavour)
      → script_theme inherited prefers_dark o ≡ flavour_id f
      → is_inherited inherited o ≡ false
  unfolding script_theme
  theme_inherited none f h = refl
  theme_inherited (some text) f h = elim (Bool-cases (inherited text)) [
    | inl e ↦
        let own : has_property inherited script_flavours text ≡ true =
          or_true (any (λ k. k =s= text) script_flavours) (inherited text) e in
        let q : text ≡ flavour_id f = rw own at h in ap inherited q ∙ apart.flavour f
    | inr e ↦ e
  ]

  accent_inherited :
      (o : Option String) (a : Accent)
      → script_accent inherited o ≡ accent_id a
      → is_inherited inherited o ≡ false
  unfolding script_accent
  accent_inherited none a h = refl
  accent_inherited (some text) a h = elim (Bool-cases (inherited text)) [
    | inl e ↦
        let own : has_property inherited script_accents text ≡ true =
          or_true (any (λ k. k =s= text) script_accents) (inherited text) e in
        let q : text ≡ accent_id a = rw own at h in ap inherited q ∙ apart.accent a
    | inr e ↦ e
  ]

  dark_same : (f : Flavour) → has_property inherited script_dark (flavour_id f) ≡ is_dark f
  unfolding is_dark
  dark_same Flavour.latte = apart.flavour Flavour.latte
  dark_same Flavour.frappe = refl
  dark_same Flavour.macchiato = refl
  dark_same Flavour.mocha = refl

  painted_iff :
      (o p : Option String)
      → (painted inherited prefers_dark o p
          ≡ dressed (initial_theme prefers_dark o) (initial_accent p))
        ↔ ((is_inherited inherited o ≡ false) × (is_inherited inherited p ≡ false))
  unfolding dressed
  painted_iff o p = (
    λ e. (
      theme_inherited o _ (ap (λ (r : Root). r.theme) e),
      accent_inherited p _ (ap (λ (r : Root). r.accent) e),
    ),
    λ (h, k).
        let t = theme_plain o h in
        let a = accent_plain p k in
        let d : has_property inherited script_dark (script_theme inherited prefers_dark o)
            ≡ is_dark (initial_theme prefers_dark o) =
          rw t (dark_same (initial_theme prefers_dark o)) in
        λ i. record { theme = t i; accent = a i; dark_class = d i },
  )

  -- On an open storage, the script that runs before the application puts on the document what the
  -- application then puts there, exactly where neither the stored flavour nor the stored accent is
  -- a name that every object inherits (`constructor`, `toString`).
  pub prepaint_iff :
      (s : Store)
      → s.blocked ≡ false
      → (theme_init inherited prefers_dark s
          ≡ some (
              dressed
                (initial_theme prefers_dark (lookup theme_key s.entries))
                (initial_accent (lookup accent_key s.entries))))
        ↔ ((is_inherited inherited (lookup theme_key s.entries) ≡ false)
            × (is_inherited inherited (lookup accent_key s.entries) ≡ false))
  unfolding theme_init get_item
  prepaint_iff s h =
      let p = painted_iff (lookup theme_key s.entries) (lookup accent_key s.entries) in
      rw h (λ e. p.0 cc, λ k. ap some (p.1 k))
