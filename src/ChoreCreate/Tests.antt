-- ===== src/ChoreCreate/Tests.antt =====
-- A clone, and a change of the household.
use isachore.Base.{ℕ, none, some, List, [], ◌∷◌, true, false}
use isachore.Types.{
  Membership, Household, ChoreCloneState, RepeatPeriod, AssignmentType, organiser, helper,
}
use isachore.ChoreCreate.{Answer, Event, start, run}
use isachore.ChoreCreate.Pickers.{IsFitting, last_given, pickers-IsFitting}

abbrev memberships : List Membership
memberships =
    record { household_id = 7; role = organiser; owned = true }
    ∷ record { household_id = 8; role = organiser; owned = false }
    ∷ record { household_id = 9; role = helper; owned = false }
    ∷ []

abbrev household : ℕ → Household
household id = record {
  id = id;
  name = "Home";
  admin_id = 1;
  timezone = "UTC";
  created_at = "2025-01-01T00:00:00Z";
  deleted_at = none;
  member_count = 2;
  chore_count = 3;
}

abbrev bins : ChoreCloneState
bins = record {
  household_id = 7;
  title = "Bins";
  description = "";
  start_date = "2025-11-03";
  repeats = RepeatPeriod.weekly;
  assignment_type = AssignmentType.manual;
  turn_length = 1;
  repeat_interval = 1;
  weekdays = [];
  assignee_ids = 1 ∷ [];
  tag_ids = [];
}

abbrev switch : List Event
switch =
    Event.households_answer (Answer.got (household 7 ∷ household 8 ∷ household 9 ∷ []))
    ∷ Event.options_answer (Answer.got (record { members = []; tags = [] }))
    ∷ Event.select_household 8
    ∷ Event.options_answer (Answer.got (record { members = []; tags = [] }))
    ∷ []

pickers-IsFitting_example :
    let p = start memberships (some bins) in
    IsFitting memberships
      (last_given memberships "load" switch p none)
      (run memberships "load" switch p)
pickers-IsFitting_example = pickers-IsFitting memberships "load" (some bins) switch
