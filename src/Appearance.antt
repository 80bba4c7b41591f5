-- ===== src/Appearance.antt =====
-- The appearance that a page opens with: frontend/src/theme/themes.ts, the readers of
-- frontend/src/theme/ThemeProvider.tsx and frontend/src/i18n/i18n.ts, the locales of
-- frontend/src/i18n/languages.ts, and frontend/public/theme-init.js, which runs before the
-- application and reads the same keys. The setters are Auth's.
pub mod Reading
pub mod Reload
pub mod Prepaint
mod Tests
use isachore.Base.{
  String, Bool, true, false, ◌||◌, Option, none, some, List, [], ◌∷◌, map, any, find, ◌=s=◌,
  if◌then◌else◌,
}
use isachore.Types.{Flavour, Accent, Language}
use isachore.Web.Store.{Store, get_item}
use isachore.Auth.{or_else, theme_key, accent_key, language_key, flavour_id, accent_id, language_id}

pub data ThemeGroup : Type 0 where
  light dark : ThemeGroup

-- A row of `THEMES`. The labels are texts on screen.
pub record ThemeMeta : Type 0 where
  pub id : Flavour
  pub group : ThemeGroup
  pub supports_accent : Bool

abbrev pub themes : List ThemeMeta
themes =
    record { id = Flavour.latte; group = light; supports_accent = true }
    ∷ record { id = Flavour.frappe; group = dark; supports_accent = true }
    ∷ record { id = Flavour.macchiato; group = dark; supports_accent = true }
    ∷ record { id = Flavour.mocha; group = dark; supports_accent = true }
    ∷ []

abbrev pub accents : List Accent
accents =
    Accent.rosewater ∷ Accent.flamingo ∷ Accent.pink ∷ Accent.mauve ∷ Accent.red ∷ Accent.maroon
    ∷ Accent.peach ∷ Accent.yellow ∷ Accent.green ∷ Accent.teal ∷ Accent.sky ∷ Accent.sapphire
    ∷ Accent.blue ∷ Accent.lavender ∷ []

abbrev pub languages : List Language
languages = Language.en ∷ Language.it ∷ []

abbrev pub default_light : Flavour
default_light = Flavour.latte

abbrev pub default_dark : Flavour
default_dark = Flavour.mocha

abbrev pub default_accent : Accent
default_accent = Accent.teal

abbrev pub default_language : Language
default_language = Language.en

-- `isFlavour`, `isAccent` and `isLanguage`, with the value that the text is then taken for.
unfoldable pub read_flavour : String → Option Flavour
read_flavour text = find (λ f. flavour_id f =s= text) (map (λ m. m.id) themes)

unfoldable pub read_accent : String → Option Accent
read_accent text = find (λ a. accent_id a =s= text) accents

unfoldable pub read_language : String → Option Language
read_language text = find (λ l. language_id l =s= text) languages

abbrev pub is_dark_group : ThemeGroup → Bool
is_dark_group light = false
is_dark_group dark = true

abbrev pub flavour_eq : Flavour → Flavour → Bool
flavour_eq a b = flavour_id a =s= flavour_id b

abbrev pub group_of : Option ThemeMeta → Bool
group_of none = false
group_of (some m) = is_dark_group m.group

unfoldable pub is_dark : Flavour → Bool
is_dark flavour = group_of (find (λ m. flavour_eq m.id flavour) themes)

unfoldable pub migrate_legacy : String → Option Flavour
migrate_legacy value =
    if value =s= "light"
    then some default_light
    else if value =s= "dark"
    then some default_dark
    else none

abbrev pub os_theme : Bool → Flavour
os_theme prefers_dark = if prefers_dark then default_dark else default_light

-- What a stored text, or none, stands for.
unfoldable pub initial_theme : Bool → Option String → Flavour
unfolding read_flavour migrate_legacy
initial_theme prefers_dark none = os_theme prefers_dark
initial_theme prefers_dark (some text) =
    or_else (read_flavour text) (or_else (migrate_legacy text) (os_theme prefers_dark))

unfoldable pub initial_accent : Option String → Accent
unfolding read_accent
initial_accent none = default_accent
initial_accent (some text) = or_else (read_accent text) default_accent

unfoldable pub initial_language : Option String → Language
unfolding read_language
initial_language none = default_language
initial_language (some text) = or_else (read_language text) default_language

abbrev pub on_some : {A B : Type 0} → (A → B) → Option A → Option B
on_some f none = none
on_some f (some a) = some (f a)

-- The readers proper; `none` where the storage throws.
unfoldable pub get_initial_theme : Bool → Store → Option Flavour
unfolding initial_theme
get_initial_theme prefers_dark s = on_some (initial_theme prefers_dark) (get_item theme_key s)

unfoldable pub get_initial_accent : Store → Option Accent
unfolding initial_accent
get_initial_accent s = on_some initial_accent (get_item accent_key s)

unfoldable pub get_initial_language : Store → Option Language
unfolding initial_language
get_initial_language s = on_some initial_language (get_item language_key s)

abbrev pub locale : Language → String
locale Language.en = "en-GB"
locale Language.it = "it-IT"

unfoldable pub locale_for : String → String
unfolding read_language
locale_for lang = locale (or_else (read_language lang) default_language)

-- What the document's root carries: `data-theme`, `data-accent` and the class `dark`.
pub record Root : Type 0 where
  pub theme : String
  pub accent : String
  pub dark_class : Bool

-- The provider's two effects.
unfoldable pub dressed : Flavour → Accent → Root
unfolding is_dark
dressed theme accent = record {
  theme = flavour_id theme;
  accent = accent_id accent;
  dark_class = is_dark theme;
}

-- Of a text, whether an object literal with these keys has a truthy property of that name: one of
-- its own, or one that every object inherits.
abbrev pub has_property : (String → Bool) → List String → String → Bool
has_property inherited keys text = any (λ k. k =s= text) keys || inherited text

abbrev pub script_flavours : List String
script_flavours = "latte" ∷ "frappe" ∷ "macchiato" ∷ "mocha" ∷ []

abbrev pub script_dark : List String
script_dark = "frappe" ∷ "macchiato" ∷ "mocha" ∷ []

abbrev pub script_accents : List String
script_accents =
    "rosewater" ∷ "flamingo" ∷ "pink" ∷ "mauve" ∷ "red" ∷ "maroon" ∷ "peach" ∷ "yellow" ∷ "green"
    ∷ "teal" ∷ "sky" ∷ "sapphire" ∷ "blue" ∷ "lavender" ∷ []

module _ (inherited : String → Bool) where
  unfoldable pub script_theme : Bool → Option String → String
  script_theme prefers_dark none = if prefers_dark then "mocha" else "latte"
  script_theme prefers_dark (some stored) =
      if has_property inherited script_flavours stored
      then stored
      else if stored =s= "light"
      then "latte"
      else if stored =s= "dark"
      then "mocha"
      else if prefers_dark
      then "mocha"
      else "latte"

  unfoldable pub script_accent : Option String → String
  script_accent none = "teal"
  script_accent (some stored) =
      if has_property inherited script_accents stored then stored else "teal"

  abbrev pub painted : Bool → Option String → Option String → Root
  painted prefers_dark stored stored_accent = record {
    theme = script_theme prefers_dark stored;
    accent = script_accent stored_accent;
    dark_class = has_property inherited script_dark (script_theme prefers_dark stored);
  }

  -- What theme-init.js puts on the root; `none` where the storage throws, which it ignores.
  unfoldable pub theme_init : Bool → Store → Option Root
  unfolding script_theme script_accent
  theme_init prefers_dark s = elim (get_item theme_key s) [
    | none ↦ none
    | some stored ↦ on_some (painted prefers_dark stored) (get_item accent_key s)
  ]
