-- ===== src/Unscheduled/Tests.antt =====
-- A chore of somebody else, done five days ago.
use isachore.Base.{some, List, [], ◌∷◌, false}
use isachore.Base.Int.{pos}
use isachore.Types.{UnscheduledChore}
use isachore.Web.Tally.{tally}
use isachore.Feed.{Answer}
use isachore.Unscheduled.{LastDoneWords, UnscheduledWords, Event, start, run}
use isachore.Unscheduled.Credit.{IsJustified, credit_asked}

abbrev attic : UnscheduledChore
attic = record {
  id = 4;
  title = "Attic";
  days_since_last_completion = some (pos 5);
  has_description = false;
  household = record { id = 7; name = "Home"; timezone = "UTC" };
  assignees = record { id = 2; first_name = "Bob"; last_name = "Lee" } ∷ [];
}

abbrev labels : LastDoneWords
labels = record { never = "never"; today = "today"; days = λ n. "days" }

abbrev errors : UnscheduledWords
errors = record { load_error = "load"; complete_error = "complete" }

abbrev visit : List Event
visit =
    Event.list_answer (Answer.got (record { items = attic ∷ [] }))
    ∷ Event.done attic
    ∷ Event.answer_credit (some 2)
    ∷ []

credit_asked_example :
    IsJustified (some 1) (run tally errors (some 1) visit (start tally errors (some 1)))
credit_asked_example = credit_asked tally errors (some 1) visit
