-- ===== src/Home/Page.antt =====
-- The page of due chores, frontend/src/pages/Home.tsx: the feed, and the questions that it asks
-- before it closes a chore. The toasts and the animation are output alone.
pub mod Asked
pub mod Feeding
use isachore.Base.{
  ℕ, String, Bool, true, false, ◌||◌, Option, none, some, List, [], ◌∷◌, any, ◌==◌, if◌then◌else◌,
}
use isachore.Base.Int.{pos, ltb_ℤ}
use isachore.Types.{DueChore, HouseholdMember, HomeData}
use isachore.Web.Number.{Numerals}
use isachore.Feed
use isachore.Feed.{Feed, Answer, opened, close_chore}

-- `{ completed_by_user_id?, backdate? }`
pub record Body : Type 0 where
  pub completed_by : Option ℕ
  pub backdate : Bool

pub data Request : Type 0 where
  complete : DueChore → Body → Request
  skip : DueChore → Request

-- What is posted: no body at all where neither key carries a decision.
unfoldable pub sent_body : Body → Option Body
sent_body b = elim b.completed_by [ none ↦ if b.backdate then some b else none | some id ↦ some b ]

pub record CreditFor : Type 0 where
  pub chore : DueChore
  pub backdate : Bool

pub record HomePage : Type 0 where
  pub feed : Feed HomeData Request
  pub backdate_for : Option DueChore
  pub credit_for : Option CreditFor
  pub skip_for : Option DueChore
  pub description_for : Option DueChore

pub record HomeWords : Type 0 where
  pub load_error : String
  pub complete_error : String
  pub skip_error : String

abbrev pub fallback_error : HomeWords → Request → String
fallback_error t (complete chore body) = t.complete_error
fallback_error t (skip chore) = t.skip_error

-- `user ? [user.id] : []`
abbrev pub mine_first : Option ℕ → List ℕ
mine_first none = []
mine_first (some id) = id ∷ []

abbrev pub is_mine : Option ℕ → List HouseholdMember → Bool
is_mine none assignees = false
is_mine (some id) assignees = any (λ a. a.id == id) assignees

-- `chore.assignees.length === 0 || mine`
abbrev pub is_unasked : Option ℕ → List HouseholdMember → Bool
is_unasked user [] = true
is_unasked user (a ∷ assignees) = is_mine user (a ∷ assignees)

abbrev pub is_overdue : DueChore → Bool
is_overdue chore = ltb_ℤ chore.days_until_due (pos 0)

unfoldable pub complete_chore : DueChore → Option ℕ → Bool → HomePage → HomePage
complete_chore chore completed_by backdate p = record p {
  feed =
      close_chore chore.id
        (complete chore (record { completed_by = completed_by; backdate = backdate })) p.feed;
}

unfoldable pub skip_chore : DueChore → HomePage → HomePage
skip_chore chore p = record p { feed = close_chore chore.id (skip chore) p.feed }

module _ (user : Option ℕ) where
  unfoldable pub request_credit : DueChore → Bool → HomePage → HomePage
  unfolding complete_chore
  request_credit chore backdate p =
      if is_unasked user chore.assignees
      then complete_chore chore none backdate p
      else record p { credit_for = some (record { chore = chore; backdate = backdate }) }

  unfoldable pub request_complete : DueChore → HomePage → HomePage
  unfolding request_credit
  request_complete chore p =
      if is_overdue chore
      then record p { backdate_for = some chore }
      else request_credit chore false p

  abbrev pub backdate_with : Option DueChore → Bool → HomePage → HomePage
  backdate_with none backdate p = p
  backdate_with (some chore) backdate p = request_credit chore backdate p

  unfoldable pub confirm_backdate : Bool → HomePage → HomePage
  unfolding request_credit
  confirm_backdate backdate p =
      backdate_with p.backdate_for backdate (record p { backdate_for = none })

abbrev pub credit_with : Option CreditFor → Option ℕ → HomePage → HomePage
credit_with none completed_by p = p
credit_with (some pending) completed_by p =
    complete_chore pending.chore completed_by pending.backdate p

unfoldable pub credit_and_complete : Option ℕ → HomePage → HomePage
unfolding complete_chore
credit_and_complete completed_by p =
    credit_with p.credit_for completed_by (record p { credit_for = none })

abbrev pub skip_with : Option DueChore → HomePage → HomePage
skip_with none p = p
skip_with (some chore) p = skip_chore chore p

unfoldable pub confirm_skip : HomePage → HomePage
unfolding skip_chore
confirm_skip p = skip_with p.skip_for (record p { skip_for = none })

-- What the user and the server can do.
pub data Event : Type 0 where
  filter : String → List ℕ → Event
  again : Event
  list_answer : Answer HomeData → Event
  close_answer : ℕ → Answer HomeData → Event
  refetch_answer : ℕ → Answer HomeData → Event
  done : DueChore → Event
  answer_backdate : Bool → Event
  close_backdate : Event
  answer_credit : Option ℕ → Event
  close_credit : Event
  ask_skip : DueChore → Event
  answer_skip : Event
  close_skip : Event
  describe : Option DueChore → Event

module _ (num : Numerals) (t : HomeWords) (user : Option ℕ) where
  -- The page as it opens.
  unfoldable pub start : HomePage
  start = record {
    feed = opened num (mine_first user);
    backdate_for = none;
    credit_for = none;
    skip_for = none;
    description_for = none;
  }

  abbrev pub feed_step : Feed.Event HomeData Request → HomePage → HomePage
  feed_step e p = record p { feed = Feed.step num t.load_error (fallback_error t) e p.feed }

  unfoldable pub step : Event → HomePage → HomePage
  unfolding request_complete confirm_backdate credit_and_complete confirm_skip
  step (filter household_id ids) p = feed_step (Feed.Event.filter household_id ids) p
  step again p = feed_step Feed.Event.again p
  step (list_answer a) p = feed_step (Feed.Event.list_answer a) p
  step (close_answer chore a) p = feed_step (Feed.Event.close_answer chore a) p
  step (refetch_answer chore a) p = feed_step (Feed.Event.refetch_answer chore a) p
  step (done chore) p = request_complete user chore p
  step (answer_backdate backdate) p = confirm_backdate user backdate p
  step close_backdate p = record p { backdate_for = none }
  step (answer_credit completed_by) p = credit_and_complete completed_by p
  step close_credit p = record p { credit_for = none }
  step (ask_skip chore) p = record p { skip_for = some chore }
  step answer_skip p = confirm_skip p
  step close_skip p = record p { skip_for = none }
  step (describe chore) p = record p { description_for = chore }

  unfoldable pub run : List Event → HomePage → HomePage
  run [] p = p
  run (e ∷ es) p = run es (step e p)
