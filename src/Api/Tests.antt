-- ===== src/Api/Tests.antt =====
-- A chore refused by the API.
use Prim.Native.String
use isachore.Base.{
  String, ◌≡◌, ◌↔◌, ◌⊎◌, refl, true, none, some, List, [], ◌∷◌, ◌=s=◌, if◌then◌else◌,
}
use isachore.Base.Int.{pos}
use isachore.Web.Number.{whole}
use isachore.Web.Tally.{tally}
use isachore.Web.Value.{
  Value, Elems, number, text, array, object, nil, cons, end, field, property, field_of,
}
use isachore.Api.Issue.{
  Translate, last_named, field_of_loc, spaced, label_for, interpolation_for, bound_message,
  mapped_message,
}
use isachore.Api.Validation.{
  message_for, trim_end, trim_start, slice_from, unmapped_message, labelled, line_of, add_line,
  add_lines, joined, format_validation_detail,
}
use isachore.Api.Lines.{has, IsDistinct, SomeSays, ended, format_validation_detail_lem}
use isachore.Api.{Response}

-- Translations that show the words they are given.
abbrev show_words : List (String × String) → String
show_words [] = ""
show_words ((k, w) ∷ ws) = String.◌++◌ w (String.◌++◌ "." (show_words ws))

abbrev show : Translate
show key o = if key =s= "errors.validation.field" then show_words o.words else key

abbrev issue : String → String → Value
issue name kind = object (
    field "loc" (array (cons (text "body") (cons (text name) (cons (number (whole (pos 0))) nil))))
      (field "type" (text kind) (field "msg" (text " Value error, pick a day ") end)))

abbrev issues : Elems
issues =
    cons (issue "weekdays" "value_error")
      (cons (issue "weekdays" "value_error") (cons (issue "tag_ids" "missing") nil))

abbrev refused : Value
refused = array issues

detail_tests :
    format_validation_detail tally show refused
    ≡ some "errors.fields.weekdays.pick a day.; tag ids.errors.validation.missing."
unfolding format_validation_detail add_lines add_line line_of labelled message_for unmapped_message
    trim_end trim_start slice_from joined label_for spaced field_of_loc last_named mapped_message
    interpolation_for bound_message property field_of
detail_tests = refl

format_validation_detail_lem_example :
    (lines : List String) × IsDistinct lines
    × ((x : String) → (has x lines ≡ true) ↔ SomeSays tally show issues x)
    × (((lines ≡ []) × (format_validation_detail tally show (array issues) ≡ none))
        ⊎ ((s : String) × (format_validation_detail tally show (array issues) ≡ some s)
            × (String.◌++◌ s "; " ≡ ended lines)))
format_validation_detail_lem_example = format_validation_detail_lem tally show issues

abbrev unprocessable : Response
unprocessable = record {
  status = 422;
  status_text = "Unprocessable Content";
  json = some (object (field "detail" refused end));
}
