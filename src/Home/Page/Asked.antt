-- ===== src/Home/Page/Asked.antt =====
-- What the two questions of frontend/src/pages/Home.tsx let through.
use isachore.Base.{
  ℕ, ◌≡◌, refl, Bool, true, false, Option, none, some, List, [], ◌∷◌, Bool-cases, inl, inr,
}
use isachore.Types.{DueChore, HomeData}
use isachore.Web.Number.{Numerals}
use isachore.Feed
use isachore.Feed.{Feed}
use isachore.Feed.Requests.{AreRequests, Fits, step-AreRequests}
use isachore.Home.Page.{
  Request, complete, skip, Body, CreditFor, HomePage, HomeWords, fallback_error, is_unasked,
  is_overdue, complete_chore, skip_chore, request_credit, request_complete, backdate_with,
  confirm_backdate, credit_with, credit_and_complete, skip_with, confirm_skip, Event, start, step,
  run,
}

-- A completion as of the due day is one of an overdue chore, and nobody is named who completed a
-- chore that is unassigned or assigned to the user.
abbrev pub IsAllowed : Option ℕ → Request → Type 0
IsAllowed user (complete chore body) =
    (body.backdate ≡ true → is_overdue chore ≡ true)
    × ((id : ℕ) → body.completed_by ≡ some id → is_unasked user chore.assignees ≡ false)
IsAllowed user (skip chore) = Unit

pub record IsJustified (user : Option ℕ) (p : HomePage) : Type 0 where
  pub backdated : (chore : DueChore) → p.backdate_for ≡ some chore → is_overdue chore ≡ true
  pub credited :
      (q : CreditFor)
      → p.credit_for ≡ some q
      → (is_unasked user q.chore.assignees ≡ false)
        × (q.backdate ≡ true → is_overdue q.chore ≡ true)
  pub sent : AreRequests (IsAllowed user) p.feed.closings

module _ (num : Numerals) (t : HomeWords) (user : Option ℕ) where
  feed-IsJustified :
      (e : Feed.Event HomeData Request) (p : HomePage)
      → Fits (IsAllowed user) e
      → IsJustified user p
      → IsJustified user
          (record p { feed = Feed.step num t.load_error (fallback_error t) e p.feed })
  feed-IsJustified e p h a = record {
    backdated = a.backdated;
    credited = a.credited;
    sent = step-AreRequests num (IsAllowed user) t.load_error (fallback_error t) e p.feed h a.sent;
  }

  complete_chore-IsJustified :
      (chore : DueChore) (completed_by : Option ℕ) (backdate : Bool) (p : HomePage)
      → (backdate ≡ true → is_overdue chore ≡ true)
      → ((id : ℕ) → completed_by ≡ some id → is_unasked user chore.assignees ≡ false)
      → IsJustified user p
      → IsJustified user (complete_chore chore completed_by backdate p)
  unfolding complete_chore Feed.step
  complete_chore-IsJustified chore completed_by backdate p h k a =
      let body : Body = record { completed_by = completed_by; backdate = backdate } in
      feed-IsJustified (Feed.Event.close chore.id (complete chore body)) p (h, k) a

  skip_chore-IsJustified :
      (chore : DueChore) (p : HomePage) → IsJustified user p → IsJustified user (skip_chore chore p)
  unfolding skip_chore Feed.step
  skip_chore-IsJustified chore p a =
      feed-IsJustified (Feed.Event.close chore.id (skip chore)) p tt a

  asked-IsJustified :
      (chore : DueChore) (backdate : Bool) (p : HomePage)
      → is_unasked user chore.assignees ≡ false
      → (backdate ≡ true → is_overdue chore ≡ true)
      → IsJustified user p
      → IsJustified user
          (record p { credit_for = some (record { chore = chore; backdate = backdate }) })
  asked-IsJustified chore backdate p e h a = record {
    backdated = a.backdated;
    credited =
        λ q m. let r : record { chore = chore; backdate = backdate } ≡ q = cc in rw (← r) (e, h);
    sent = a.sent;
  }

  request_credit-IsJustified :
      (chore : DueChore) (backdate : Bool) (p : HomePage)
      → (backdate ≡ true → is_overdue chore ≡ true)
      → IsJustified user p
      → IsJustified user (request_credit user chore backdate p)
  unfolding request_credit
  request_credit-IsJustified chore backdate p h a =
      elim (Bool-cases (is_unasked user chore.assignees)) [
        | inl e ↦ rw e (complete_chore-IsJustified chore none backdate p h (λ id n. cc) a)
        | inr e ↦ rw e (asked-IsJustified chore backdate p e h a)
      ]

  request_complete-IsJustified :
      (chore : DueChore) (p : HomePage)
      → IsJustified user p
      → IsJustified user (request_complete user chore p)
  unfolding request_complete
  request_complete-IsJustified chore p a = elim (Bool-cases (is_overdue chore)) [
    | inl e ↦ rw e (late e)
    | inr e ↦ rw e (request_credit-IsJustified chore false p (λ n. cc) a)
  ]
    where
      late : is_overdue chore ≡ true → IsJustified user (record p { backdate_for = some chore })
      late e = record {
        backdated = λ c m. let r : chore ≡ c = cc in rw (← r) e;
        credited = a.credited;
        sent = a.sent;
      }

  no_backdate :
      (p : HomePage) → IsJustified user p → IsJustified user (record p { backdate_for = none })
  no_backdate p a = record { backdated = λ c m. cc; credited = a.credited; sent = a.sent }

  no_credit :
      (p : HomePage) → IsJustified user p → IsJustified user (record p { credit_for = none })
  no_credit p a = record { backdated = a.backdated; credited = λ q m. cc; sent = a.sent }

  backdate_with-IsJustified :
      (o : Option DueChore) (backdate : Bool) (p : HomePage)
      → ((chore : DueChore) → o ≡ some chore → is_overdue chore ≡ true)
      → IsJustified user p
      → IsJustified user (backdate_with user o backdate p)
  backdate_with-IsJustified none backdate p h a = a
  backdate_with-IsJustified (some chore) backdate p h a =
      request_credit-IsJustified chore backdate p (λ e. h chore refl) a

  credit_with-IsJustified :
      (o : Option CreditFor) (completed_by : Option ℕ) (p : HomePage)
      → ((q : CreditFor)
          → o ≡ some q
          → (is_unasked user q.chore.assignees ≡ false)
            × (q.backdate ≡ true → is_overdue q.chore ≡ true))
      → IsJustified user p
      → IsJustified user (credit_with o completed_by p)
  credit_with-IsJustified none completed_by p h a = a
  credit_with-IsJustified (some q) completed_by p h a =
      complete_chore-IsJustified q.chore completed_by q.backdate p (h q refl).1
        (λ id e. (h q refl).0) a

  skip_with-IsJustified :
      (o : Option DueChore) (p : HomePage) → IsJustified user p → IsJustified user (skip_with o p)
  skip_with-IsJustified none p a = a
  skip_with-IsJustified (some chore) p a = skip_chore-IsJustified chore p a

  pub step-IsJustified :
      (e : Event) (p : HomePage) → IsJustified user p → IsJustified user (step num t user e p)
  unfolding step confirm_backdate credit_and_complete confirm_skip
  step-IsJustified (Event.filter household_id ids) p a =
      feed-IsJustified (Feed.Event.filter household_id ids) p tt a
  step-IsJustified Event.again p a = feed-IsJustified Feed.Event.again p tt a
  step-IsJustified (Event.list_answer x) p a = feed-IsJustified (Feed.Event.list_answer x) p tt a
  step-IsJustified (Event.close_answer chore x) p a =
      feed-IsJustified (Feed.Event.close_answer chore x) p tt a
  step-IsJustified (Event.refetch_answer chore x) p a =
      feed-IsJustified (Feed.Event.refetch_answer chore x) p tt a
  step-IsJustified (Event.done chore) p a = request_complete-IsJustified chore p a
  step-IsJustified (Event.answer_backdate backdate) p a =
      backdate_with-IsJustified p.backdate_for backdate _ a.backdated (no_backdate p a)
  step-IsJustified Event.close_backdate p a = no_backdate p a
  step-IsJustified (Event.answer_credit completed_by) p a =
      credit_with-IsJustified p.credit_for completed_by _ a.credited (no_credit p a)
  step-IsJustified Event.close_credit p a = no_credit p a
  step-IsJustified (Event.ask_skip chore) p a = record {
    backdated = a.backdated;
    credited = a.credited;
    sent = a.sent;
  }
  step-IsJustified Event.answer_skip p a =
      skip_with-IsJustified p.skip_for _
        (record { backdated = a.backdated; credited = a.credited; sent = a.sent })
  step-IsJustified Event.close_skip p a = record {
    backdated = a.backdated;
    credited = a.credited;
    sent = a.sent;
  }
  step-IsJustified (Event.describe chore) p a = record {
    backdated = a.backdated;
    credited = a.credited;
    sent = a.sent;
  }

  run-IsJustified :
      (es : List Event) (p : HomePage) → IsJustified user p → IsJustified user (run num t user es p)
  unfolding run
  run-IsJustified [] p a = a
  run-IsJustified (e ∷ es) p a = run-IsJustified es _ (step-IsJustified e p a)

  -- However the page of due chores was used since it opened: every completion under way that is
  -- recorded as of the due day is one of an overdue chore, and where one names who completed the
  -- chore, the chore has assignees and the user is none of them. An open question about the day is
  -- about an overdue chore, and an open question about the credit is about a chore of others.
  pub asked_before_sent :
      (es : List Event) → IsJustified user (run num t user es (start num t user))
  unfolding start Feed.opened Feed.start_listing
  asked_before_sent es =
      run-IsJustified es (start num t user)
        (record { backdated = λ c m. cc; credited = λ q m. cc; sent = λ k m. elim m [ ] })
