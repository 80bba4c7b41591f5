-- ===== src/Web/Value.antt =====
-- Values as `JSON.parse` gives them, and reading a property of one.
use isachore.Base.{ℕ, suc, String, Bool, true, false, Option, none, some, ◌=s=◌, if◌then◌else◌}
use isachore.Web.Number.{JsNumber, Numerals}

mutual
  pub data Value : Type 0 where
    null : Value
    bool : Bool → Value
    number : JsNumber → Value
    text : String → Value
    array : Elems → Value
    object : Fields → Value

  pub data Elems : Type 0 where
    nil : Elems
    cons : Value → Elems → Elems

  -- The own properties, in order.
  pub data Fields : Type 0 where
    end : Fields
    field : String → Value → Fields → Fields

unfoldable pub field_of : String → Fields → Option Value
field_of name end = none
field_of name (field n v fs) = if n =s= name then some v else field_of name fs

-- The elements of an array are its properties named by the texts of their indexes.
unfoldable pub elem_named : Numerals → ℕ → String → Elems → Option Value
elem_named num i name nil = none
elem_named num i name (cons v vs) =
    if num.print i =s= name then some v else elem_named num (suc i) name vs

-- `value[name]` of an object or an array; what they inherit is never data, and counts as absent.
unfoldable pub property : Numerals → String → Value → Option Value
unfolding field_of elem_named
property num name (array vs) = elem_named num 0 name vs
property num name (object fs) = field_of name fs
property num name _ = none

-- `typeof value === 'object' && value !== null`
abbrev pub is_object : Value → Bool
is_object (array vs) = true
is_object (object fs) = true
is_object _ = false

-- `JSON.parse`, which throws (`none`) on what is no JSON text, and `JSON.stringify`.
pub record Json : Type 0 where
  pub parse : String → Option Value
  pub stringify : Value → String
