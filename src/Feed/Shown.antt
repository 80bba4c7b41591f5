-- ===== src/Feed/Shown.antt =====
-- Which answers reach the screen.
use isachore.Base.{
  ℕ, String, ◌≡◌, refl, ap, ◌∙◌, Bool, true, false, Option, none, some, List, [], ◌∷◌, find_sound,
  ◌==◌, ==_iff, if◌then◌else◌, Bool-cases, inl, inr,
}
use isachore.Web.Number.{Numerals}
use isachore.Web.Params.{params_eq}
use isachore.Feed.{
  Fetch, Closing, Answer, Feed, Event, has_id, closing_of, show_newest, settle_list, listed,
  close_chore, stop, refetched_by, refetched_at, refetched, query_of, start_listing, blank, opened,
  refilter, posted_by, posted_at, posted, step, run,
}
use isachore.Feed.Newest.{IsCurrent, start_listing-IsCurrent, step-IsCurrent}

-- The request that an event answers, if it is one for the list.
abbrev pub refetch_of : {R : Type 0} → Option (Closing R) → Option Fetch
refetch_of none = none
refetch_of (some k) = k.refetch

abbrev pub asked : {D R : Type 0} → Event D R → Feed D R → Option Fetch
asked (Event.list_answer a) f = f.listing
asked (Event.refetch_answer chore a) f = refetch_of (closing_of chore f.closings)
asked _ f = none

-- The list that an event brings, if it is an answer with one.
abbrev pub got_of : {D : Type 0} → Answer D → Option D
got_of (Answer.got d) = some d
got_of (Answer.failed m) = none

abbrev pub brought : {D R : Type 0} → Event D R → Option D
brought (Event.list_answer a) = got_of a
brought (Event.refetch_answer chore a) = got_of a
brought _ = none

-- The list stays, or the newest request's answer takes its place and answers the chosen filters.
pub data Shows (num : Numerals) {D R : Type 0} (e : Event D R) (f g : Feed D R) : Type 0 where
  same : g.shown ≡ f.shown → Shows num e f g
  newest :
      (r : Fetch) (d : D)
      → asked e f ≡ some r
      → r.number ≡ f.req
      → r.query ≡ query_of num f
      → brought e ≡ some d
      → g.shown ≡ some d
      → Shows num e f g

module _ (num : Numerals) {D R : Type 0} where
  shows_newest :
      (e : Event D R) (r : Fetch) (d : D) (f g : Feed D R)
      → asked e f ≡ some r
      → brought e ≡ some d
      → (r.number ≡ f.req → r.query ≡ query_of num f)
      → g.shown ≡ (show_newest r d f).shown
      → Shows num e f g
  unfolding show_newest
  shows_newest e r d f g a b q s = elim (Bool-cases (r.number == f.req)) [
    | inl h ↦
        let n = (==_iff r.number f.req).0 h in
        Shows.newest r d a n (q n) b (s ∙ chosen (r.number == f.req) h)
    | inr h ↦ Shows.same (s ∙ kept (r.number == f.req) h)
  ]
    where
      chosen : (b : Bool) → b ≡ true → (if b then record f { shown = some d } else f).shown ≡ some d
      chosen true h = refl
      chosen false h = cc

      kept : (b : Bool) → b ≡ false → (if b then record f { shown = some d } else f).shown ≡ f.shown
      kept true h = cc
      kept false h = refl

  settle_list-Shows :
      (load_error : String) (o : Option Fetch) (a : Answer D) (f : Feed D R)
      → f.listing ≡ o
      → IsCurrent num f
      → Shows num (Event.list_answer a) f (settle_list load_error o a f)
  unfolding settle_list
  settle_list-Shows load_error none a f e p = Shows.same refl
  settle_list-Shows load_error (some r) (Answer.got d) f e p =
      shows_newest (Event.list_answer (Answer.got d)) r d f _ e refl (λ _. p.listing r e) refl
  settle_list-Shows load_error (some r) (Answer.failed m) f e p = Shows.same refl

  refetched_by-Shows :
      (fallback : R → String) (chore : ℕ) (k : Closing R) (o : Option Fetch) (a : Answer D)
      (f : Feed D R)
      → closing_of chore f.closings ≡ some k
      → k.refetch ≡ o
      → IsCurrent num f
      → Shows num (Event.refetch_answer chore a) f (refetched_by fallback k.request chore o a f)
  unfolding refetched_by stop
  refetched_by-Shows fallback chore k none a f c e p = Shows.same refl
  refetched_by-Shows fallback chore k (some r) (Answer.got d) f c e p =
      let m = (find_sound (λ (j : Closing R). j.chore == chore) f.closings c).0 in
      shows_newest (Event.refetch_answer chore (Answer.got d)) r d f _ (ap refetch_of c ∙ e) refl
        (p.refetch k r m e).1 refl
  refetched_by-Shows fallback chore k (some r) (Answer.failed m) f c e p = Shows.same refl

  refetched_at-Shows :
      (fallback : R → String) (chore : ℕ) (o : Option (Closing R)) (a : Answer D) (f : Feed D R)
      → closing_of chore f.closings ≡ o
      → IsCurrent num f
      → Shows num (Event.refetch_answer chore a) f (refetched_at fallback chore o a f)
  unfolding refetched_at
  refetched_at-Shows fallback chore none a f c p = Shows.same refl
  refetched_at-Shows fallback chore (some k) a f c p =
      refetched_by-Shows fallback chore k k.refetch a f c refl p

  posted_at-shown :
      (fallback : R → String) (chore : ℕ) (o : Option (Closing R)) (a : Answer D) (f : Feed D R)
      → (posted_at num fallback chore o a f).shown ≡ f.shown
  unfolding posted_at posted_by stop
  posted_at-shown fallback chore none a f = refl
  posted_at-shown fallback chore (some k) a f = stages k.refetch a
    where
      stages :
          (o : Option Fetch) (a : Answer D)
          → (posted_by num fallback k.request chore o a f).shown ≡ f.shown
      stages (some r) a = refl
      stages none (Answer.got d) = refl
      stages none (Answer.failed m) = refl

  either_same :
      (b : Bool) (x y f : Feed D R)
      → x.shown ≡ f.shown
      → y.shown ≡ f.shown
      → (if b then x else y).shown ≡ f.shown
  either_same true x y f p q = p
  either_same false x y f p q = q

  step-Shows :
      (load_error : String) (fallback : R → String) (e : Event D R) (f : Feed D R)
      → IsCurrent num f
      → Shows num e f (step num load_error fallback e f)
  unfolding step listed refetched posted refilter start_listing close_chore
  step-Shows load_error fallback (Event.filter household_id ids) f p =
      Shows.same (either_same (params_eq (query_of num f) _) _ _ f refl refl)
  step-Shows load_error fallback Event.again f p = Shows.same refl
  step-Shows load_error fallback (Event.list_answer a) f p =
      settle_list-Shows load_error f.listing a f refl p
  step-Shows load_error fallback (Event.close chore request) f p =
      Shows.same (either_same (has_id chore f.busy) _ _ f refl refl)
  step-Shows load_error fallback (Event.close_answer chore a) f p =
      Shows.same (posted_at-shown fallback chore (closing_of chore f.closings) a f)
  step-Shows load_error fallback (Event.refetch_answer chore a) f p =
      refetched_at-Shows fallback chore (closing_of chore f.closings) a f refl p

  pub run-IsCurrent :
      (load_error : String) (fallback : R → String) (es : List (Event D R)) (f : Feed D R)
      → IsCurrent num f
      → IsCurrent num (run num load_error fallback es f)
  unfolding run
  run-IsCurrent load_error fallback [] f p = p
  run-IsCurrent load_error fallback (e ∷ es) f p =
      run-IsCurrent load_error fallback es (step num load_error fallback e f)
        (step-IsCurrent num load_error fallback e f p)

  pub opened-IsCurrent : (mine : List ℕ) → IsCurrent num {D = D} {R = R} (opened num mine)
  unfolding opened
  opened-IsCurrent mine = start_listing-IsCurrent num (blank mine) (λ k r m e. elim m [ ])

  -- From the first render on, however filters, answers and completions follow one another: the next
  -- event leaves the list on screen as it is, or it answers the newest request, which asked for the
  -- filters that are chosen now, and the list that it brings is on screen.
  pub shown_is_current :
      (load_error : String) (fallback : R → String) (mine : List ℕ) (es : List (Event D R))
      (e : Event D R)
      → let f = run num load_error fallback es (opened num mine) in
        Shows num e f (step num load_error fallback e f)
  shown_is_current load_error fallback mine es e =
      step-Shows load_error fallback e _
        (run-IsCurrent load_error fallback es (opened num mine) (opened-IsCurrent mine))
