-- ===== src/Api/Validation.antt =====
-- `messageFor` and `formatValidationDetail` of frontend/src/lib/validationError.ts: pydantic's list
-- of issues as one sentence.
use Prim.Native.String
use Prim.Native.Char.{Char, code}
use isachore.Base.{
  ℕ, suc, zero, String, Bool, not, ◌&&◌, ◌||◌, Option, none, some, List, [], ◌∷◌, starts_with, leb,
  ◌==◌, ◌=s=◌, if◌then◌else◌,
}
use isachore.Web.Number.{Numerals}
use isachore.Web.Value.{Value, text, array, Elems, nil, cons, property, is_object}
use isachore.Api.Issue.{
  Translate, plain, Spec, validation_types, value_error_prefix, email_error_prefix, entry,
  field_of_loc, label_for, mapped_message,
}

-- White space and line ends, as `trim` reads them.
abbrev pub is_space : Char → Bool
is_space c =
    leb 9 (code c) && leb (code c) 13
    || code c == 32
    || code c == 160
    || code c == 5760
    || leb 8192 (code c) && leb (code c) 8202
    || code c == 8232
    || code c == 8233
    || code c == 8239
    || code c == 8287
    || code c == 12288
    || code c == 65279

abbrev keep_end : Char → String → String
keep_end c String.[] = if is_space c then "" else String.◌∷◌ c ""
keep_end c s = String.◌∷◌ c s

unfoldable pub trim_end : String → String
trim_end String.[] = ""
trim_end (String.◌∷◌ c s) = keep_end c (trim_end s)

unfoldable pub trim_start : String → String
trim_start String.[] = ""
trim_start (String.◌∷◌ c s) = let rest = trim_start s in if is_space c then rest else String.◌∷◌ c s

-- `text.slice(n)`, for a prefix of n characters of the first plane.
unfoldable pub slice_from : ℕ → String → String
slice_from zero s = s
slice_from (suc n) String.[] = ""
slice_from (suc n) (String.◌∷◌ c s) = slice_from n s

-- `typeof v === 'string' ? v : ''`
abbrev pub text_or_empty : Option Value → String
text_or_empty (some (text s)) = s
text_or_empty _ = ""

-- `msg || fallback`
abbrev pub or_fallback : String → String → String
or_fallback msg fallback = if msg =s= "" then fallback else msg

unfoldable pub unmapped_message : Translate → String → String → String
unfolding slice_from
unmapped_message t type msg =
    if type =s= "value_error" && starts_with msg email_error_prefix
    then t "errors.validation.email" plain
    else if type =s= "value_error" && starts_with msg value_error_prefix
    then slice_from 13 msg
    else or_fallback msg (t "errors.validation.fallback" plain)

abbrev pub or_unmapped : Option String → String → String
or_unmapped none message = message
or_unmapped (some mapped) message = mapped

abbrev pub mapped_if_known :
    Numerals → Translate → String → Option Spec → Option Value → Option String
mapped_if_known num t type none ctx = none
mapped_if_known num t type (some spec) ctx = mapped_message num t type spec ctx

unfoldable pub message_for : Numerals → Translate → Value → String
unfolding unmapped_message trim_start trim_end
message_for num t issue =
    let type = text_or_empty (property num "type" issue) in
    let msg = trim_end (trim_start (text_or_empty (property num "msg" issue))) in
    or_unmapped
      (mapped_if_known num t type (entry type validation_types) (property num "ctx" issue))
      (unmapped_message t type msg)

-- The field, if it has a name, and the message.
unfoldable pub labelled : Translate → Option String → String → String
unfolding label_for
labelled t none message = message
labelled t (some name) message =
    if name =s= ""
    then message
    else t "errors.validation.field"
        (record plain { words = ("field", label_for t name) ∷ ("message", message) ∷ [] })

-- What one entry of the list adds, if anything.
unfoldable pub line_of : Numerals → Translate → Value → Option String
unfolding labelled message_for field_of_loc
line_of num t issue =
    if not (is_object issue)
    then none
    else if message_for num t issue =s= ""
    then none
    else some (labelled t (field_of_loc (property num "loc" issue)) (message_for num t issue))

-- `messages.add(line)`: a set keeps the order of the first additions.
unfoldable pub add_line : Option String → List String → List String
add_line none lines = lines
add_line (some line) [] = line ∷ []
add_line (some line) (l ∷ lines) = if l =s= line then l ∷ lines else l ∷ add_line (some line) lines

unfoldable pub add_lines : Numerals → Translate → Elems → List String → List String
unfolding add_line line_of
add_lines num t nil lines = lines
add_lines num t (cons v vs) lines = add_lines num t vs (add_line (line_of num t v) lines)

-- `[...messages].join('; ')`
unfoldable pub joined : List String → String
joined [] = ""
joined (l ∷ []) = l
joined (l ∷ m ∷ ls) = String.◌++◌ l (String.◌++◌ "; " (joined (m ∷ ls)))

abbrev pub sentence : List String → Option String
sentence [] = none
sentence (l ∷ ls) = some (joined (l ∷ ls))

unfoldable pub format_validation_detail : Numerals → Translate → Value → Option String
unfolding add_lines joined
format_validation_detail num t (array vs) = sentence (add_lines num t vs [])
format_validation_detail num t _ = none
