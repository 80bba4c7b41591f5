-- ===== src/Appearance/Reading.antt =====
-- What is read back of an identifier that was written.
use isachore.Base.{String, ◌≡◌, refl, Bool, some, map, ◌=s=◌, find_sound, eq_iff}
use isachore.Types.{Flavour, Accent, Language}
use isachore.Auth.{flavour_id, accent_id, language_id}
use isachore.Appearance.{
  read_flavour, read_accent, read_language, initial_theme, initial_accent, initial_language, themes,
  accents,
}

pub read_flavour-id : (f : Flavour) → read_flavour (flavour_id f) ≡ some f
unfolding read_flavour
read_flavour-id Flavour.latte = refl
read_flavour-id Flavour.frappe = refl
read_flavour-id Flavour.macchiato = refl
read_flavour-id Flavour.mocha = refl

pub read_accent-id : (a : Accent) → read_accent (accent_id a) ≡ some a
unfolding read_accent
read_accent-id Accent.rosewater = refl
read_accent-id Accent.flamingo = refl
read_accent-id Accent.pink = refl
read_accent-id Accent.mauve = refl
read_accent-id Accent.red = refl
read_accent-id Accent.maroon = refl
read_accent-id Accent.peach = refl
read_accent-id Accent.yellow = refl
read_accent-id Accent.green = refl
read_accent-id Accent.teal = refl
read_accent-id Accent.sky = refl
read_accent-id Accent.sapphire = refl
read_accent-id Accent.blue = refl
read_accent-id Accent.lavender = refl

pub read_language-id : (l : Language) → read_language (language_id l) ≡ some l
unfolding read_language
read_language-id Language.en = refl
read_language-id Language.it = refl

pub read_flavour_sound :
    (text : String) (f : Flavour) → read_flavour text ≡ some f → flavour_id f ≡ text
unfolding read_flavour
read_flavour_sound text f h =
    (eq_iff (flavour_id f) text).0
      (find_sound (λ g. flavour_id g =s= text) (map (λ m. m.id) themes) h).1

pub read_accent_sound :
    (text : String) (a : Accent) → read_accent text ≡ some a → accent_id a ≡ text
unfolding read_accent
read_accent_sound text a h =
    (eq_iff (accent_id a) text).0 (find_sound (λ b. accent_id b =s= text) accents h).1

pub initial_theme-id :
    (prefers_dark : Bool) (f : Flavour) → initial_theme prefers_dark (some (flavour_id f)) ≡ f
unfolding initial_theme
initial_theme-id prefers_dark f = rw (read_flavour-id f) refl

pub initial_accent-id : (a : Accent) → initial_accent (some (accent_id a)) ≡ a
unfolding initial_accent
initial_accent-id a = rw (read_accent-id a) refl

pub initial_language-id : (l : Language) → initial_language (some (language_id l)) ≡ l
unfolding initial_language
initial_language-id l = rw (read_language-id l) refl
