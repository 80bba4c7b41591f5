-- ===== src/ChoreEdit/Own.antt =====
-- Whose chores the edit page shows, and that it ends with something to show.
use isachore.Base.{
  String, ◌≡◌, ◌≢◌, refl, ◌⊎◌, inl, inr, Bool, true, false, Option, none, some, List, [], ◌∷◌,
  if◌then◌else◌,
}
use isachore.Types.{Chore, Membership}
use isachore.ChoreCreate.{Answer, Options}
use isachore.ChoreEdit.{
  Loading, chore_asked, options_asked, EditPage, Event, start, organises, give_up, chore_settled,
  options_settled, stale_settled, step, run,
}

pub record IsOwn (memberships : List Membership) (load_error : String) (p : EditPage) : Type 0 where
  pub shown : (c : Chore) → p.chore ≡ some c → organises memberships load_error c ≡ true
  pub next :
      (c : Chore) → p.request ≡ some (options_asked c) → organises memberships load_error c ≡ true
  pub waiting : p.loading ≡ true → p.request ≢ none
  pub ended : p.loading ≡ false → (p.chore ≢ none) ⊎ ((p.error ≢ none) ⊎ (p.left ≡ true))

module _ (memberships : List Membership) (load_error : String) where
  answered :
      (b : Bool) (c : Chore) (p : EditPage)
      → organises memberships load_error c ≡ b
      → IsOwn memberships load_error p
      → IsOwn memberships load_error (
          if b
          then record p { request = some (options_asked c) }
          else record p { left = true; loading = false; request = none })
  answered true c p e f = record {
    shown = f.shown;
    next = λ d q. let r : c ≡ d = cc in rw (← r) e;
    waiting = λ l q. cc;
    ended = f.ended;
  }
  answered false c p e f = record {
    shown = f.shown;
    next = λ d q. cc;
    waiting = λ l. cc;
    ended = λ l. inr (inr refl);
  }

  gave_up :
      (message : Option String) (p : EditPage)
      → IsOwn memberships load_error p
      → IsOwn memberships load_error (give_up memberships load_error message p)
  gave_up message p f = record {
    shown = f.shown;
    next = λ d q. cc;
    waiting = λ l. cc;
    ended = λ l. inr (inl (λ q. cc));
  }

  chore_settled-IsOwn :
      (o : Option Loading) (a : Answer Chore) (p : EditPage)
      → IsOwn memberships load_error p
      → IsOwn memberships load_error (chore_settled memberships load_error o a p)
  unfolding chore_settled
  chore_settled-IsOwn (some chore_asked) (Answer.got c) p f =
      answered (organises memberships load_error c) c p refl f
  chore_settled-IsOwn (some chore_asked) (Answer.failed message) p f = gave_up message p f
  chore_settled-IsOwn (some (options_asked c)) a p f = f
  chore_settled-IsOwn none a p f = f

  options_settled-IsOwn :
      (o : Option Loading) (a : Answer Options) (p : EditPage)
      → p.request ≡ o
      → IsOwn memberships load_error p
      → IsOwn memberships load_error (options_settled memberships load_error o a p)
  unfolding options_settled
  options_settled-IsOwn (some (options_asked c)) (Answer.got x) p e f = record {
    shown = λ d q. let r : c ≡ d = cc in rw (← r) (f.next c e);
    next = λ d q. cc;
    waiting = λ l. cc;
    ended = λ l. inl (λ q. cc);
  }
  options_settled-IsOwn (some (options_asked c)) (Answer.failed message) p e f = gave_up message p f
  options_settled-IsOwn (some chore_asked) a p e f = f
  options_settled-IsOwn none a p e f = f

  sent_away :
      (b : Bool) (p : EditPage)
      → IsOwn memberships load_error p
      → IsOwn memberships load_error (if b then p else record p { left = true })
  sent_away true p f = f
  sent_away false p f = record {
    shown = f.shown;
    next = f.next;
    waiting = f.waiting;
    ended = λ l. inr (inr refl);
  }

  stale_settled-IsOwn :
      (a : Answer Chore) (p : EditPage)
      → IsOwn memberships load_error p
      → IsOwn memberships load_error (stale_settled memberships load_error a p)
  unfolding stale_settled
  stale_settled-IsOwn (Answer.got c) p f = sent_away (organises memberships load_error c) p f
  stale_settled-IsOwn (Answer.failed message) p f = f

  step-IsOwn :
      (e : Event) (p : EditPage)
      → IsOwn memberships load_error p
      → IsOwn memberships load_error (step memberships load_error e p)
  unfolding step
  step-IsOwn (Event.chore_answer a) p f = chore_settled-IsOwn p.request a p f
  step-IsOwn (Event.options_answer a) p f = options_settled-IsOwn p.request a p refl f
  step-IsOwn Event.again p f = record {
    shown = f.shown;
    next = λ d q. cc;
    waiting = λ l q. cc;
    ended = f.ended;
  }
  step-IsOwn (Event.stale_answer a) p f = stale_settled-IsOwn a p f

  run-IsOwn :
      (es : List Event) (p : EditPage)
      → IsOwn memberships load_error p
      → IsOwn memberships load_error (run memberships load_error es p)
  unfolding run
  run-IsOwn [] p f = f
  run-IsOwn (e ∷ es) p f = run-IsOwn es _ (step-IsOwn e p f)

  -- However answers and changes of the language follow one another since the page that edits a
  -- chore opened: a chore on screen is one of a household that the user organises, while the page
  -- is loading a request is under way, and once it is not, a chore or an error is there to show or
  -- the user was sent to the list of chores.
  pub start-IsOwn :
      (es : List Event) → IsOwn memberships load_error (run memberships load_error es start)
  start-IsOwn es =
      run-IsOwn es start
        (record { shown = λ c q. cc; next = λ c q. cc; waiting = λ l q. cc; ended = λ l. cc })
