-- ===== src/ChoreForm/Seeds.antt =====
-- What the form starts from: the initial values of frontend/src/pages/ChoreEdit.tsx and
-- frontend/src/pages/ChoreCreate.tsx, and `cloneState` of frontend/src/pages/Chores.tsx.
use isachore.Base.{ℕ, String, Bool, true, false, Option, none, some, List, [], ◌∷◌, map}
use isachore.Types.{Chore, ChoreCloneState, HouseholdMember, RepeatPeriod, AssignmentType}
use isachore.ChoreForm.{ChoreFormValues}

-- `text ?? ''`
abbrev pub text_or_empty : Option String → String
text_or_empty none = ""
text_or_empty (some s) = s

-- `days ?? []`
abbrev pub days_or_empty : Option (List ℕ) → List ℕ
days_or_empty none = []
days_or_empty (some days) = days

abbrev pub member_id : Option HouseholdMember → Option ℕ
member_id none = none
member_id (some m) = some m.id

abbrev pub is_unassigned : Option HouseholdMember → List HouseholdMember → Bool
is_unassigned none (m ∷ assignees) = true
is_unassigned none [] = false
is_unassigned (some m) assignees = false

unfoldable pub edit_initial : Chore → ChoreFormValues
edit_initial chore = record {
  title = chore.title;
  description = text_or_empty chore.description;
  start_date = text_or_empty chore.start_date;
  repeats = chore.repeats;
  assignment_type = chore.assignment_type;
  turn_length = chore.turn_length;
  repeat_interval = chore.repeat_interval;
  weekdays = days_or_empty chore.weekdays;
  assignee_ids = map (λ a. a.id) chore.assignees;
  current_assignee_id = member_id chore.current_assignee;
  clear_current_assignee = is_unassigned chore.current_assignee chore.assignees;
  tag_ids = map (λ tag. tag.id) chore.tags;
}

unfoldable pub clone_state : Chore → ChoreCloneState
clone_state chore = record {
  household_id = chore.household.id;
  title = chore.title;
  description = text_or_empty chore.description;
  start_date = text_or_empty chore.start_date;
  repeats = chore.repeats;
  assignment_type = chore.assignment_type;
  turn_length = chore.turn_length;
  repeat_interval = chore.repeat_interval;
  weekdays = days_or_empty chore.weekdays;
  assignee_ids = map (λ a. a.id) chore.assignees;
  tag_ids = map (λ tag. tag.id) chore.tags;
}

unfoldable pub create_initial : Option ChoreCloneState → ChoreFormValues
create_initial none = record {
  title = "";
  description = "";
  start_date = "";
  repeats = RepeatPeriod.weekly;
  assignment_type = AssignmentType.manual;
  turn_length = 1;
  repeat_interval = 1;
  weekdays = [];
  assignee_ids = [];
  current_assignee_id = none;
  clear_current_assignee = false;
  tag_ids = [];
}
create_initial (some clone) = record {
  title = clone.title;
  description = clone.description;
  start_date = clone.start_date;
  repeats = clone.repeats;
  assignment_type = clone.assignment_type;
  turn_length = clone.turn_length;
  repeat_interval = clone.repeat_interval;
  weekdays = clone.weekdays;
  assignee_ids = clone.assignee_ids;
  current_assignee_id = none;
  clear_current_assignee = false;
  tag_ids = clone.tag_ids;
}
