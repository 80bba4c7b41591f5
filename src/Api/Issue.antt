-- ===== src/Api/Issue.antt =====
-- What an issue of frontend/src/lib/validationError.ts is about, and our own sentence for it: the
-- tables, `fieldOf`, `labelFor`, `interpolationFor` and `mappedMessage`. The translations are
-- i18next's.
use Prim.Native.String
use Prim.Native.Char.{code}
use isachore.Base.{
  ℕ, suc, String, Bool, true, false, Option, none, some, List, [], ◌∷◌, any, select, ◌==◌, ◌=s=◌,
  if◌then◌else◌,
}
use isachore.Web.Number.{JsNumber, Numerals}
use isachore.Web.Value.{Value, number, text, array, object, Elems, nil, cons, Fields, end, field}

abbrev pub Values : Type 0
Values = List (String × Value)

-- `i18n.t(key, options)`
pub record Options : Type 0 where
  pub count : Option JsNumber
  pub replace : Values
  pub words : List (String × String)

abbrev pub Translate : Type 0
Translate = String → Options → String

abbrev pub plain : Options
plain = record { count = none; replace = []; words = [] }

-- A type's sentence takes no value, or the bound under a key of `ctx`.
pub data Spec : Type 0 where
  bare : Spec
  bound : (ctx_key : String) (plural : Bool) → Spec

abbrev pub validation_types : List (String × Spec)
validation_types =
    ("missing", bare)
    ∷ ("string_type", bare)
    ∷ ("string_pattern_mismatch", bare)
    ∷ ("int_type", bare)
    ∷ ("int_parsing", bare)
    ∷ ("bool_type", bare)
    ∷ ("bool_parsing", bare)
    ∷ ("date_type", bare)
    ∷ ("date_parsing", bare)
    ∷ ("date_from_datetime_parsing", bare)
    ∷ ("datetime_parsing", bare)
    ∷ ("list_type", bare)
    ∷ ("json_invalid", bare)
    ∷ ("string_too_short", bound "min_length" true)
    ∷ ("string_too_long", bound "max_length" true)
    ∷ ("too_short", bound "min_length" true)
    ∷ ("too_long", bound "max_length" true)
    ∷ ("greater_than", bound "gt" false)
    ∷ ("greater_than_equal", bound "ge" false)
    ∷ ("less_than", bound "lt" false)
    ∷ ("less_than_equal", bound "le" false)
    ∷ ("literal_error", bound "expected" false)
    ∷ ("enum", bound "expected" false)
    ∷ []

abbrev pub field_names : List String
field_names =
    "email" ∷ "password" ∷ "current_password" ∷ "new_password" ∷ "first_name" ∷ "last_name"
    ∷ "title" ∷ "description" ∷ "start_date" ∷ "repeats" ∷ "assignment_type" ∷ "turn_length"
    ∷ "repeat_interval" ∷ "weekdays" ∷ "name" ∷ "color" ∷ "code" ∷ "role" ∷ "status" ∷ "language"
    ∷ "theme" ∷ "accent_color" ∷ []

abbrev pub locations : List String
locations = "body" ∷ "query" ∷ "path" ∷ "header" ∷ "cookie" ∷ []

abbrev pub value_error_prefix : String
value_error_prefix = "Value error, "

abbrev pub email_error_prefix : String
email_error_prefix = "value is not a valid email address"

abbrev pub entry {ℓ} : {A : Type ℓ} → String → List (String × A) → Option A
entry key [] = none
entry key ((k, a) ∷ es) = if k =s= key then some a else entry key es

abbrev pub includes : List String → String → Bool
includes names name = any (λ n. n =s= name) names

-- The last named segment; the segments are given last first by the recursion.
unfoldable pub last_named : Elems → Option String
last_named nil = none
last_named (cons (text part) vs) = elim (last_named vs) [
  | some name ↦ some name
  | none ↦ if includes locations part then none else some part
]
last_named (cons v vs) = last_named vs

unfoldable pub field_of_loc : Option Value → Option String
unfolding last_named
field_of_loc (some (array vs)) = last_named vs
field_of_loc _ = none

-- `field.replace(/_/g, ' ')`
unfoldable pub spaced : String → String
spaced String.[] = ""
spaced (String.◌∷◌ c s) = String.◌++◌ (if code c == 95 then " " else String.◌∷◌ c "") (spaced s)

unfoldable pub label_for : Translate → String → String
unfolding spaced
label_for t name =
    if includes field_names name then t (String.◌++◌ "errors.fields." name) plain else spaced name

-- `Object.entries(ctx)`, of which the texts and numbers are kept.
abbrev pub is_primitive : Value → Bool
is_primitive (text s) = true
is_primitive (number n) = true
is_primitive _ = false

unfoldable pub field_entries : Fields → Values
field_entries end = []
field_entries (field k v fs) = (k, v) ∷ field_entries fs

unfoldable pub elem_entries : Numerals → ℕ → Elems → Values
elem_entries num i nil = []
elem_entries num i (cons v vs) = (num.print i, v) ∷ elem_entries num (suc i) vs

unfoldable pub interpolation_for : Numerals → Option Value → Values
unfolding field_entries elem_entries
interpolation_for num (some (object fs)) = select (λ e. is_primitive e.1) (field_entries fs)
interpolation_for num (some (array vs)) = select (λ e. is_primitive e.1) (elem_entries num 0 vs)
interpolation_for num _ = []

-- The sentence of a bound, once it is known what `ctx` holds for it.
unfoldable pub bound_message : Translate → String → Bool → Values → Option Value → Option String
bound_message t key plural values none = none
bound_message t key false values (some v) = some (t key (record plain { replace = values }))
bound_message t key true values (some (number n)) =
    some (t key (record plain { count = some n; replace = values }))
bound_message t key true values (some v) = none

unfoldable pub mapped_message : Numerals → Translate → String → Spec → Option Value → Option String
unfolding bound_message interpolation_for
mapped_message num t type bare ctx = some (t (String.◌++◌ "errors.validation." type) plain)
mapped_message num t type (bound ctx_key plural) ctx =
    bound_message t (String.◌++◌ "errors.validation." type) plural (interpolation_for num ctx)
      (entry ctx_key (interpolation_for num ctx))
