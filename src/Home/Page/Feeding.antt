-- ===== src/Home/Page/Feeding.antt =====
-- The page of due chores, frontend/src/pages/Home.tsx, uses its feed only by the feed's own events.
use isachore.Base.{
  ℕ, ◌≡◌, refl, ◌∙◌, sym, ap, Bool, true, false, Option, none, some, List, [], ◌∷◌, ◌++◌,
  if◌then◌else◌,
}
use isachore.Types.{DueChore, HomeData}
use isachore.Web.Number.{Numerals}
use isachore.Feed
use isachore.Feed.{Feed, Answer, opened}
use isachore.Feed.Weight.{weight, drain}
use isachore.Feed.Quiet.{all_quiet}
use isachore.Home.Page.{
  Request, complete, skip, Body, CreditFor, HomePage, HomeWords, fallback_error, mine_first,
  is_unasked, is_overdue, complete_chore, skip_chore, request_credit, request_complete,
  backdate_with, confirm_backdate, credit_with, credit_and_complete, skip_with, confirm_skip, Event,
  start, step, run,
}

module _ (num : Numerals) (t : HomeWords) (user : Option ℕ) where
  abbrev feed_run :
      List (Feed.Event HomeData Request) → Feed HomeData Request → Feed HomeData Request
  feed_run fs f = Feed.run num t.load_error (fallback_error t) fs f

  -- What the page does to its feed is a run of the feed.
  abbrev Feeds : Feed HomeData Request → Feed HomeData Request → Type 0
  Feeds f g = (fs : List (Feed.Event HomeData Request)) × (g ≡ feed_run fs f)

  still : (f : Feed HomeData Request) → Feeds f f
  unfolding Feed.run
  still f = ([], refl)

  moved :
      (e : Feed.Event HomeData Request) (f : Feed HomeData Request)
      → Feeds f (Feed.step num t.load_error (fallback_error t) e f)
  unfolding Feed.run
  moved e f = (e ∷ [], refl)

  either_way :
      (b : Bool) (f : Feed HomeData Request) (p q : HomePage)
      → Feeds f p.feed
      → Feeds f q.feed
      → Feeds f (if b then p else q).feed
  either_way true f p q m n = m
  either_way false f p q m n = n

  complete_chore-Feeds :
      (chore : DueChore) (completed_by : Option ℕ) (backdate : Bool) (p : HomePage)
      → Feeds p.feed (complete_chore chore completed_by backdate p).feed
  unfolding complete_chore Feed.step
  complete_chore-Feeds chore completed_by backdate p =
      let body : Body = record { completed_by = completed_by; backdate = backdate } in
      moved (Feed.Event.close chore.id (complete chore body)) p.feed

  request_credit-Feeds :
      (chore : DueChore) (backdate : Bool) (p : HomePage)
      → Feeds p.feed (request_credit user chore backdate p).feed
  unfolding request_credit
  request_credit-Feeds chore backdate p =
      either_way (is_unasked user chore.assignees) p.feed _ _
        (complete_chore-Feeds chore none backdate p) (still p.feed)

  request_complete-Feeds :
      (chore : DueChore) (p : HomePage) → Feeds p.feed (request_complete user chore p).feed
  unfolding request_complete
  request_complete-Feeds chore p =
      either_way (is_overdue chore) p.feed _ _ (still p.feed) (request_credit-Feeds chore false p)

  backdate_with-Feeds :
      (o : Option DueChore) (backdate : Bool) (p : HomePage)
      → Feeds p.feed (backdate_with user o backdate p).feed
  backdate_with-Feeds none backdate p = still p.feed
  backdate_with-Feeds (some chore) backdate p = request_credit-Feeds chore backdate p

  credit_with-Feeds :
      (o : Option CreditFor) (completed_by : Option ℕ) (p : HomePage)
      → Feeds p.feed (credit_with o completed_by p).feed
  credit_with-Feeds none completed_by p = still p.feed
  credit_with-Feeds (some q) completed_by p = complete_chore-Feeds q.chore completed_by q.backdate p

  skip_with-Feeds : (o : Option DueChore) (p : HomePage) → Feeds p.feed (skip_with o p).feed
  unfolding skip_chore Feed.step
  skip_with-Feeds none p = still p.feed
  skip_with-Feeds (some chore) p = moved (Feed.Event.close chore.id (skip chore)) p.feed

  step-Feeds : (e : Event) (p : HomePage) → Feeds p.feed (step num t user e p).feed
  unfolding step confirm_backdate credit_and_complete confirm_skip
  step-Feeds (Event.filter household_id ids) p = moved (Feed.Event.filter household_id ids) p.feed
  step-Feeds Event.again p = moved Feed.Event.again p.feed
  step-Feeds (Event.list_answer a) p = moved (Feed.Event.list_answer a) p.feed
  step-Feeds (Event.close_answer chore a) p = moved (Feed.Event.close_answer chore a) p.feed
  step-Feeds (Event.refetch_answer chore a) p = moved (Feed.Event.refetch_answer chore a) p.feed
  step-Feeds (Event.done chore) p = request_complete-Feeds chore p
  step-Feeds (Event.answer_backdate backdate) p =
      backdate_with-Feeds p.backdate_for backdate (record p { backdate_for = none })
  step-Feeds Event.close_backdate p = still p.feed
  step-Feeds (Event.answer_credit completed_by) p =
      credit_with-Feeds p.credit_for completed_by (record p { credit_for = none })
  step-Feeds Event.close_credit p = still p.feed
  step-Feeds (Event.ask_skip chore) p = still p.feed
  step-Feeds Event.answer_skip p = skip_with-Feeds p.skip_for (record p { skip_for = none })
  step-Feeds Event.close_skip p = still p.feed
  step-Feeds (Event.describe chore) p = still p.feed

  feed_run-append :
      (fs gs : List (Feed.Event HomeData Request)) (f : Feed HomeData Request)
      → feed_run (fs ++ gs) f ≡ feed_run gs (feed_run fs f)
  unfolding Feed.run
  feed_run-append [] gs f = refl
  feed_run-append (e ∷ fs) gs f = feed_run-append fs gs _

  -- However the page of due chores is used, its feed is what some sequence of the feed's own events
  -- makes of the feed that it opened with.
  pub page_refines : (es : List Event) (p : HomePage) → Feeds p.feed (run num t user es p).feed
  unfolding run
  page_refines [] p = still p.feed
  page_refines (e ∷ es) p =
      let (fs, m) = step-Feeds e p in
      let (gs, n) = page_refines es (step num t user e p) in
      (fs ++ gs, n ∙ ap (feed_run gs) m ∙ sym (feed_run-append fs gs p.feed))

  quiet_where :
      (answers : ℕ → Answer HomeData) (f : Feed HomeData Request)
      → Feeds (opened num (mine_first user)) f
      → let g = drain num t.load_error (fallback_error t) (weight f) answers f in
        (g.busy ≡ []) × (g.loading ≡ false)
  quiet_where answers f (fs, m) =
      let (free, ended, rest) =
        all_quiet num t.load_error (fallback_error t) (mine_first user) fs answers in
      rw m (free, ended)

  -- However the page of due chores was used since it opened: once the server has answered as many
  -- requests as are to come, whatever it answers, no chore's button is locked and the page is not
  -- loading.
  pub page_quiet :
      (es : List Event) (answers : ℕ → Answer HomeData)
      → let f = (run num t user es (start num t user)).feed in
        let g = drain num t.load_error (fallback_error t) (weight f) answers f in
        (g.busy ≡ []) × (g.loading ≡ false)
  unfolding start
  page_quiet es answers =
      quiet_where answers (run num t user es (start num t user)).feed
        (page_refines es (start num t user))
