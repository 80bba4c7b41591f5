-- ===== src/Unscheduled.antt =====
-- The page of chores without a due date: frontend/src/lib/unscheduled.ts and
-- frontend/src/pages/Unscheduled.tsx. The toasts and the description dialog are output alone.
pub mod Credit
pub mod Recency
mod Tests
use isachore.Base.{
  ℕ, String, Bool, true, false, ◌||◌, Option, none, some, List, [], ◌∷◌, if◌then◌else◌,
}
use isachore.Base.Int.{ℤ, pos, leb_ℤ, pos_part}
use isachore.Types.{UnscheduledChore, UnscheduledData, HouseholdMember}
use isachore.Web.Number.{Numerals}
use isachore.Feed
use isachore.Feed.{Feed, Answer, opened, close_chore}
use isachore.Home.Page.{is_mine, mine_first}

abbrev pub done_week_days : ℕ
done_week_days = 7

abbrev pub dot_of : Option ℤ → String
dot_of none = "bg-done-stale"
dot_of (some days) =
    if leb_ℤ days (pos 0)
    then "bg-done-recent"
    else if leb_ℤ days (pos done_week_days)
    then "bg-done-week"
    else "bg-done-stale"

unfoldable pub done_dot_class : UnscheduledChore → String
done_dot_class item = dot_of item.days_since_last_completion

-- The translations of `unscheduled.lastDone`.
pub record LastDoneWords : Type 0 where
  pub never : String
  pub today : String
  pub days : ℕ → String

abbrev pub label_of : LastDoneWords → Option ℤ → String
label_of t none = t.never
label_of t (some days) = if leb_ℤ days (pos 0) then t.today else t.days (pos_part days)

unfoldable pub last_done_label : LastDoneWords → UnscheduledChore → String
last_done_label t item = label_of t item.days_since_last_completion

-- A completion, and the member it is credited to if not to the user.
pub record Closure : Type 0 where
  pub chore : UnscheduledChore
  pub completed_by : Option ℕ

pub record UnscheduledPage : Type 0 where
  pub feed : Feed UnscheduledData Closure
  pub credit_for : Option UnscheduledChore
  pub description_for : Option UnscheduledChore

pub record UnscheduledWords : Type 0 where
  pub load_error : String
  pub complete_error : String

-- `chore.assignees.length === 0 || mine`
abbrev pub is_own : Option ℕ → List HouseholdMember → Bool
is_own user [] = true
is_own user (a ∷ assignees) = is_mine user (a ∷ assignees)

unfoldable pub complete_chore : UnscheduledChore → Option ℕ → UnscheduledPage → UnscheduledPage
complete_chore chore completed_by p = record p {
  feed = close_chore chore.id (record { chore = chore; completed_by = completed_by }) p.feed;
}

unfoldable pub request_complete : Option ℕ → UnscheduledChore → UnscheduledPage → UnscheduledPage
unfolding complete_chore
request_complete user chore p =
    if is_own user chore.assignees
    then complete_chore chore none p
    else record p { credit_for = some chore }

abbrev pub credit_with : Option UnscheduledChore → Option ℕ → UnscheduledPage → UnscheduledPage
credit_with none completed_by p = p
credit_with (some chore) completed_by p = complete_chore chore completed_by p

unfoldable pub credit_and_complete : Option ℕ → UnscheduledPage → UnscheduledPage
unfolding complete_chore
credit_and_complete completed_by p =
    credit_with p.credit_for completed_by (record p { credit_for = none })

-- What the user and the server can do.
pub data Event : Type 0 where
  filter : String → List ℕ → Event
  again : Event
  list_answer : Answer UnscheduledData → Event
  close_answer : ℕ → Answer UnscheduledData → Event
  refetch_answer : ℕ → Answer UnscheduledData → Event
  done : UnscheduledChore → Event
  answer_credit : Option ℕ → Event
  close_credit : Event
  describe : Option UnscheduledChore → Event

module _ (num : Numerals) (t : UnscheduledWords) (user : Option ℕ) where
  -- The page as it opens.
  unfoldable pub start : UnscheduledPage
  start = record { feed = opened num (mine_first user); credit_for = none; description_for = none }

  abbrev pub feed_step : Feed.Event UnscheduledData Closure → UnscheduledPage → UnscheduledPage
  feed_step e p = record p { feed = Feed.step num t.load_error (λ k. t.complete_error) e p.feed }

  unfoldable pub step : Event → UnscheduledPage → UnscheduledPage
  unfolding request_complete credit_and_complete
  step (filter household_id ids) p = feed_step (Feed.Event.filter household_id ids) p
  step again p = feed_step Feed.Event.again p
  step (list_answer a) p = feed_step (Feed.Event.list_answer a) p
  step (close_answer chore a) p = feed_step (Feed.Event.close_answer chore a) p
  step (refetch_answer chore a) p = feed_step (Feed.Event.refetch_answer chore a) p
  step (done chore) p = request_complete user chore p
  step (answer_credit completed_by) p = credit_and_complete completed_by p
  step close_credit p = record p { credit_for = none }
  step (describe chore) p = record p { description_for = chore }

  unfoldable pub run : List Event → UnscheduledPage → UnscheduledPage
  run [] p = p
  run (e ∷ es) p = run es (step e p)
