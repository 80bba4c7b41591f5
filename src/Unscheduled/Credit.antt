-- ===== src/Unscheduled/Credit.antt =====
-- Who is credited by frontend/src/pages/Unscheduled.tsx.
use isachore.Base.{ℕ, ◌≡◌, refl, false, Option, none, some, List, [], ◌∷◌, Bool-cases, inl, inr}
use isachore.Types.{UnscheduledChore, UnscheduledData}
use isachore.Web.Number.{Numerals}
use isachore.Feed
use isachore.Feed.{Feed}
use isachore.Feed.Requests.{AreRequests, Fits, step-AreRequests}
use isachore.Unscheduled.{
  Closure, UnscheduledPage, UnscheduledWords, is_own, complete_chore, request_complete, credit_with,
  credit_and_complete, Event, start, step, run,
}

-- Nobody is named who completed a chore that is unassigned or assigned to the user.
abbrev pub IsAllowed : Option ℕ → Closure → Type 0
IsAllowed user k = (id : ℕ) → k.completed_by ≡ some id → is_own user k.chore.assignees ≡ false

pub record IsJustified (user : Option ℕ) (p : UnscheduledPage) : Type 0 where
  pub credited :
      (chore : UnscheduledChore) → p.credit_for ≡ some chore → is_own user chore.assignees ≡ false
  pub sent : AreRequests (IsAllowed user) p.feed.closings

module _ (num : Numerals) (t : UnscheduledWords) (user : Option ℕ) where
  feed-IsJustified :
      (e : Feed.Event UnscheduledData Closure) (p : UnscheduledPage)
      → Fits (IsAllowed user) e
      → IsJustified user p
      → IsJustified user
          (record p { feed = Feed.step num t.load_error (λ k. t.complete_error) e p.feed })
  feed-IsJustified e p h a = record {
    credited = a.credited;
    sent =
        step-AreRequests num (IsAllowed user) t.load_error (λ k. t.complete_error) e p.feed h
          a.sent;
  }

  complete_chore-IsJustified :
      (chore : UnscheduledChore) (completed_by : Option ℕ) (p : UnscheduledPage)
      → ((id : ℕ) → completed_by ≡ some id → is_own user chore.assignees ≡ false)
      → IsJustified user p
      → IsJustified user (complete_chore chore completed_by p)
  unfolding complete_chore Feed.step
  complete_chore-IsJustified chore completed_by p h a =
      let k : Closure = record { chore = chore; completed_by = completed_by } in
      feed-IsJustified (Feed.Event.close chore.id k) p h a

  request_complete-IsJustified :
      (chore : UnscheduledChore) (p : UnscheduledPage)
      → IsJustified user p
      → IsJustified user (request_complete user chore p)
  unfolding request_complete
  request_complete-IsJustified chore p a = elim (Bool-cases (is_own user chore.assignees)) [
    | inl e ↦ rw e (complete_chore-IsJustified chore none p (λ id n. cc) a)
    | inr e ↦ rw e (asked e)
  ]
    where
      asked :
          is_own user chore.assignees ≡ false
          → IsJustified user (record p { credit_for = some chore })
      asked e = record { credited = λ c m. let r : chore ≡ c = cc in rw (← r) e; sent = a.sent }

  credit_with-IsJustified :
      (o : Option UnscheduledChore) (completed_by : Option ℕ) (p : UnscheduledPage)
      → ((chore : UnscheduledChore) → o ≡ some chore → is_own user chore.assignees ≡ false)
      → IsJustified user p
      → IsJustified user (credit_with o completed_by p)
  credit_with-IsJustified none completed_by p h a = a
  credit_with-IsJustified (some chore) completed_by p h a =
      complete_chore-IsJustified chore completed_by p (λ id e. h chore refl) a

  no_credit :
      (p : UnscheduledPage) → IsJustified user p → IsJustified user (record p { credit_for = none })
  no_credit p a = record { credited = λ q m. cc; sent = a.sent }

  step-IsJustified :
      (e : Event) (p : UnscheduledPage)
      → IsJustified user p
      → IsJustified user (step num t user e p)
  unfolding step credit_and_complete
  step-IsJustified (Event.filter household_id ids) p a =
      feed-IsJustified (Feed.Event.filter household_id ids) p tt a
  step-IsJustified Event.again p a = feed-IsJustified Feed.Event.again p tt a
  step-IsJustified (Event.list_answer x) p a = feed-IsJustified (Feed.Event.list_answer x) p tt a
  step-IsJustified (Event.close_answer chore x) p a =
      feed-IsJustified (Feed.Event.close_answer chore x) p tt a
  step-IsJustified (Event.refetch_answer chore x) p a =
      feed-IsJustified (Feed.Event.refetch_answer chore x) p tt a
  step-IsJustified (Event.done chore) p a = request_complete-IsJustified chore p a
  step-IsJustified (Event.answer_credit completed_by) p a =
      credit_with-IsJustified p.credit_for completed_by _ a.credited (no_credit p a)
  step-IsJustified Event.close_credit p a = no_credit p a
  step-IsJustified (Event.describe chore) p a = record { credited = a.credited; sent = a.sent }

  run-IsJustified :
      (es : List Event) (p : UnscheduledPage)
      → IsJustified user p
      → IsJustified user (run num t user es p)
  unfolding run
  run-IsJustified [] p a = a
  run-IsJustified (e ∷ es) p a = run-IsJustified es _ (step-IsJustified e p a)

  -- However the page of chores without a due date was used since it opened: where a completion
  -- under way names who completed the chore, the chore has assignees and the user is none of them,
  -- and an open question about the credit is about such a chore.
  pub credit_asked : (es : List Event) → IsJustified user (run num t user es (start num t user))
  unfolding start Feed.opened Feed.start_listing
  credit_asked es =
      run-IsJustified es (start num t user)
        (record { credited = λ c m. cc; sent = λ k m. elim m [ ] })
