-- ===== src/Home/Tests.antt =====
-- A morning with three chores.
use mathlib.Core.List.{Permᴰ}
use isachore.Base.{ℕ, String, ◌≡◌, true, false, none, some, List, [], ◌∷◌, Memᴰ}
use isachore.Base.Int.{ℤ, pos, negsuc}
use isachore.Types.{DueChore, DueStatus, HomeData, HouseholdMember, RepeatPeriod}
use isachore.Web.Tally.{tally}
use isachore.Feed.{Feed, Answer}
use isachore.Feed
use isachore.Feed.Lock.{IsLocked}
use isachore.Feed.Shown.{Shows, shown_is_current}
use isachore.Feed.Weight.{weight, drain}
use isachore.Feed.Quiet.{all_quiet, one_request}
use isachore.Home.{group_by_due}
use isachore.Home.Groups.{all_items, IsSection, group_by_due_lem}
use isachore.Home.Page.{Request, HomeWords, Event, start, run, fallback_error, complete}
use isachore.Home.Page.Asked.{IsJustified, asked_before_sent}
use isachore.Home.Page.Feeding.{page_quiet}

abbrev ann : HouseholdMember
ann = record { id = 1; first_name = "Ann"; last_name = "Lee" }

abbrev bob : HouseholdMember
bob = record { id = 2; first_name = "Bob"; last_name = "Lee" }

abbrev due : ℕ → DueStatus → ℤ → List HouseholdMember → DueChore
due id status days assignees = record {
  id = id;
  title = "Bins";
  repeats = RepeatPeriod.weekly;
  repeat_interval = 1;
  weekdays = none;
  next_due = "2026-01-05";
  days_until_due = days;
  status = status;
  has_description = false;
  household = record { id = 7; name = "Home"; timezone = "UTC" };
  assignees = assignees;
}

abbrev late : DueChore
late = due 1 DueStatus.overdue (negsuc 1) (bob ∷ [])

abbrev today : DueChore
today = due 2 DueStatus.today (pos 0) (ann ∷ [])

abbrev far : DueChore
far = due 3 DueStatus.soon (pos 9) []

abbrev chores : List DueChore
chores = far ∷ today ∷ late ∷ []

abbrev home : HomeData
home = record { progress = record { done_today = 0; total_today = 3 }; items = chores }

abbrev one_clock : String → ℤ
one_clock text = pos 0

abbrev words : HomeWords
words = record { load_error = "load"; complete_error = "complete"; skip_error = "skip" }

-- Bob's chore is credited to him as of its due day, while Ann's own one is on its way.
abbrev morning : List Event
morning =
    Event.list_answer (Answer.got home)
    ∷ Event.done today
    ∷ Event.done late
    ∷ Event.answer_backdate true
    ∷ Event.answer_credit (some 2)
    ∷ []

abbrev evening : List (Feed.Event HomeData Request)
evening =
    Feed.Event.list_answer (Answer.got home)
    ∷ Feed.Event.close 2 (complete today (record { completed_by = none; backdate = false }))
    ∷ Feed.Event.close_answer 2 (Answer.got home)
    ∷ []

group_by_due_lem_example :
    Permᴰ (all_items (group_by_due one_clock chores)) chores
    × ((g : _) → Memᴰ g (group_by_due one_clock chores) → IsSection one_clock g)
group_by_due_lem_example = group_by_due_lem one_clock chores

asked_before_sent_example :
    IsJustified (some 1) (run tally words (some 1) morning (start tally words (some 1)))
asked_before_sent_example = asked_before_sent tally words (some 1) morning

page_quiet_example :
    let f = (run tally words (some 1) morning (start tally words (some 1))).feed in
    let g =
      drain tally words.load_error (fallback_error words) (weight f) (λ n. Answer.failed none) f in
    (g.busy ≡ []) × (g.loading ≡ false)
page_quiet_example = page_quiet tally words (some 1) morning (λ n. Answer.failed none)

shown_is_current_example :
    let f =
      Feed.run tally words.load_error (fallback_error words) evening (Feed.opened tally (1 ∷ [])) in
    let e = Feed.Event.refetch_answer 2 (Answer.got home) in
    Shows tally e f (Feed.step tally words.load_error (fallback_error words) e f)
shown_is_current_example =
    shown_is_current tally words.load_error (fallback_error words) (1 ∷ []) evening
      (Feed.Event.refetch_answer 2 (Answer.got home))

all_quiet_example :
    let f =
      Feed.run tally words.load_error (fallback_error words) evening (Feed.opened tally (1 ∷ [])) in
    let g =
      drain tally words.load_error (fallback_error words) (weight f) (λ n. Answer.got home) f in
    (g.busy ≡ []) × (g.loading ≡ false) × (weight g ≡ 0)
all_quiet_example =
    all_quiet tally words.load_error (fallback_error words) (1 ∷ []) evening (λ n. Answer.got home)

one_request_example :
    IsLocked
      (Feed.run tally words.load_error (fallback_error words) evening (Feed.opened tally (1 ∷ [])))
one_request_example = one_request tally words.load_error (fallback_error words) (1 ∷ []) evening
