-- ===== src/ChoreForm.antt =====
-- The form that creates and edits a chore: frontend/src/components/chores/ChoreForm.tsx. The rich
-- text editor, the calendar and the multi-selects report new values, which are events here.
pub mod Seeds
pub mod Bounds
pub mod Assignee
pub mod Stored
pub mod RoundTrip
mod Tests
use isachore.Base.{
  ℕ, String, Bool, true, false, not, ◌&&◌, ◌||◌, Option, none, some, List, [], ◌∷◌, map, select,
  any, ◌==◌, ◌=s=◌, ltb, if◌then◌else◌,
}
use isachore.Types.{RepeatPeriod, AssignmentType, HouseholdMember, Tag}
use isachore.Web.Number.{Numerals}
use isachore.Web.Whole.{Whole, Truncation, finite, or_else, at_least, at_most}
use isachore.Base.Int.{pos}

-- `MAX_REPEAT_INTERVAL`
abbrev pub max_repeat_interval : ℕ
max_repeat_interval = 365

pub record ChoreFormValues : Type 0 where
  pub title : String
  pub description : String
  pub start_date : String
  pub repeats : RepeatPeriod
  pub assignment_type : AssignmentType
  pub turn_length : ℕ
  pub repeat_interval : ℕ
  pub weekdays : List ℕ
  pub assignee_ids : List ℕ
  pub current_assignee_id : Option ℕ
  pub clear_current_assignee : Bool
  pub tag_ids : List ℕ

pub record ChoreSubmit : Type 0 where
  pub title : String
  pub description : Option String
  pub start_date : Option String
  pub repeats : RepeatPeriod
  pub assignment_type : AssignmentType
  pub turn_length : Whole
  pub repeat_interval : Whole
  pub weekdays : Option (List ℕ)
  pub assignee_ids : List ℕ
  pub current_assignee_id : Option ℕ
  pub clear_current_assignee : Bool
  pub tag_ids : List ℕ

-- The properties of the form that its behaviour depends on.
pub record Props : Type 0 where
  pub members : List HouseholdMember
  pub tags : List Tag
  pub timezone : Option String
  pub allow_assignee_override : Bool

-- The form's own state: the two numbers are kept as the texts of their inputs.
pub record FormState : Type 0 where
  pub values : ChoreFormValues
  pub take_turns : Bool
  pub turn_length : String
  pub repeat_interval : String
  pub saving : Bool
  pub error : Option String

abbrev pub is_manual : AssignmentType → Bool
is_manual AssignmentType.manual = true
is_manual _ = false

abbrev pub is_manual_repeat : RepeatPeriod → Bool
is_manual_repeat RepeatPeriod.manual = true
is_manual_repeat _ = false

abbrev pub is_weekly : RepeatPeriod → Bool
is_weekly RepeatPeriod.weekly = true
is_weekly _ = false

abbrev pub includes : List ℕ → ℕ → Bool
includes ids id = any (λ x. x == id) ids

-- `text || null`
abbrev pub nonempty_text : String → Option String
nonempty_text s = if s =s= "" then none else some s

abbrev pub nonempty_list : List ℕ → Option (List ℕ)
nonempty_list [] = none
nonempty_list (x ∷ xs) = some (x ∷ xs)

unfoldable pub initial_state : Numerals → ChoreFormValues → FormState
initial_state num initial = record {
  values = initial;
  take_turns = ltb 1 initial.turn_length;
  turn_length = num.print (if ltb 1 initial.turn_length then initial.turn_length else 2);
  repeat_interval = num.print initial.repeat_interval;
  saving = false;
  error = none;
}

unfoldable pub selected_assignees : Props → FormState → List ℕ
selected_assignees props s = select (includes (map (λ m. m.id) props.members)) s.values.assignee_ids

unfoldable pub selected_tags : Props → FormState → List ℕ
selected_tags props s = select (includes (map (λ tag. tag.id) props.tags)) s.values.tag_ids

abbrev pub kept_if : (ℕ → Bool) → Option ℕ → Option ℕ
kept_if p none = none
kept_if p (some id) = if p id then some id else none

unfoldable pub current_assignee_id : Props → FormState → Option ℕ
unfolding selected_assignees
current_assignee_id props s =
    kept_if (includes (selected_assignees props s)) s.values.current_assignee_id

abbrev pub can_pick_assignee : Props → FormState → Bool
can_pick_assignee props s = is_manual s.values.assignment_type || props.allow_assignee_override

module _ (num : Numerals) (js : Truncation num) where
  unfoldable pub interval : FormState → Whole
  interval s =
      if is_manual_repeat s.values.repeats
      then finite (pos 1)
      else at_most max_repeat_interval (at_least 1 (or_else (js.trunc s.repeat_interval) 1))

  unfoldable pub turn_length : FormState → Whole
  turn_length s =
      if is_manual s.values.assignment_type || not s.take_turns
      then finite (pos 1)
      else at_least 2 (or_else (js.trunc s.turn_length) 2)

  -- What `handleSubmit` passes on; `today_iso` is today's date in a zone, or in the viewer's own.
  unfoldable pub payload : (Option String → String) → Props → FormState → ChoreSubmit
  unfolding interval turn_length selected_assignees current_assignee_id selected_tags
  payload today_iso props s =
      let v = s.values in
      let manual_repeat = is_manual_repeat v.repeats in
      let start_date = if v.start_date =s= "" then today_iso props.timezone else v.start_date in
      let weekdays : List ℕ = if is_weekly v.repeats then v.weekdays else [] in
      record {
        title = v.title;
        description = nonempty_text v.description;
        start_date = if manual_repeat then none else some start_date;
        repeats = v.repeats;
        assignment_type = v.assignment_type;
        turn_length = turn_length s;
        repeat_interval = interval s;
        weekdays = nonempty_list weekdays;
        assignee_ids = selected_assignees props s;
        current_assignee_id =
            if can_pick_assignee props s then current_assignee_id props s else none;
        clear_current_assignee = can_pick_assignee props s && v.clear_current_assignee;
        tag_ids = selected_tags props s;
      }

-- What the user can do, and what becomes of a submit that fails.
pub data Event : Type 0 where
  set_title set_description : String → Event
  set_assignees set_tags set_weekdays : List ℕ → Event
  set_assignment : AssignmentType → Event
  set_repeats : RepeatPeriod → Event
  set_repeat_interval set_turn_length : String → Event
  set_take_turns : Bool → Event
  set_current_assignee : Option ℕ → Event
  set_start_date : String → Event
  submit : Event
  failed : Option String → Event

abbrev pub with_values : FormState → ChoreFormValues → FormState
with_values s v = record s { values = v }

unfoldable pub step : String → Event → FormState → FormState
step error_message (set_title x) s = with_values s (record s.values { title = x })
step error_message (set_description x) s = with_values s (record s.values { description = x })
step error_message (set_assignees ids) s = with_values s (record s.values { assignee_ids = ids })
step error_message (set_tags ids) s = with_values s (record s.values { tag_ids = ids })
step error_message (set_weekdays days) s = with_values s (record s.values { weekdays = days })
step error_message (set_assignment x) s = with_values s (record s.values { assignment_type = x })
step error_message (set_repeats x) s = with_values s (record s.values { repeats = x })
step error_message (set_repeat_interval x) s = record s { repeat_interval = x }
step error_message (set_turn_length x) s = record s { turn_length = x }
step error_message (set_take_turns b) s = record s { take_turns = b }
step error_message (set_current_assignee none) s =
    with_values s (record s.values { clear_current_assignee = true; current_assignee_id = none })
step error_message (set_current_assignee (some id)) s =
    with_values s
      (record s.values { clear_current_assignee = false; current_assignee_id = some id })
step error_message (set_start_date x) s = with_values s (record s.values { start_date = x })
step error_message submit s = record s { saving = true; error = none }
step error_message (failed none) s = record s { saving = false; error = some error_message }
step error_message (failed (some message)) s = record s { saving = false; error = some message }

unfoldable pub run : String → List Event → FormState → FormState
run error_message [] s = s
run error_message (e ∷ es) s = run error_message es (step error_message e s)
