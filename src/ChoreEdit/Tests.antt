-- ===== src/ChoreEdit/Tests.antt =====
-- A chore of another's household.
use isachore.Base.{none, some, List, [], ◌∷◌, false}
use isachore.Types.{Chore, Membership, RepeatPeriod, AssignmentType, helper}
use isachore.ChoreCreate.{Answer}
use isachore.ChoreEdit.{Event, start, run}
use isachore.ChoreEdit.Own.{IsOwn, start-IsOwn}

abbrev memberships : List Membership
memberships = record { household_id = 7; role = helper; owned = false } ∷ []

abbrev bins : Chore
bins = record {
  id = 5;
  title = "Bins";
  description = none;
  start_date = some "2025-11-03";
  repeats = RepeatPeriod.weekly;
  assignment_type = AssignmentType.manual;
  turn_length = 1;
  repeat_interval = 2;
  weekdays = none;
  created_at = "2025-11-01T00:00:00Z";
  household = record { id = 7; name = "Home"; timezone = "UTC" };
  assignees = [];
  current_assignee = none;
  tags = [];
}

abbrev visit : List Event
visit =
    Event.chore_answer (Answer.got bins)
    ∷ Event.again
    ∷ Event.chore_answer (Answer.failed none)
    ∷ []

start-IsOwn_example : IsOwn memberships "load" (run memberships "load" visit start)
start-IsOwn_example = start-IsOwn memberships "load" visit
