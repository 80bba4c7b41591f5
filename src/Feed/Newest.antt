-- ===== src/Feed/Newest.antt =====
-- No answer overwrites a newer one: what a feed shows answers the filters that are chosen.
use isachore.Base.{
  ℕ, suc, ◌≤◌, String, ◌≡◌, ◌≢◌, refl, sym, ap, ◌∙◌, ◌⊎◌, Bool, true, false, not, Option, none,
  some, List, [], ◌∷◌, map, Memᴰ, mem_of_map, mem_of_append, mem_of_select, ◌==◌, if◌then◌else◌,
  arith, Bool-cases, inl, inr,
}
use isachore.Web.Number.{Numerals}
use isachore.Web.Params.{Params, params_eq}
use isachore.Web.Params.Laws.{params_eq_sound}
use isachore.Feed.{
  Fetch, Closing, Answer, Feed, Event, has_id, refetch_with, closing_of, show_newest, settle_list,
  listed, close_chore, stop, refetched_by, refetched_at, refetched, query_of, start_listing,
  refilter, posted_by, posted_at, posted, step,
}

-- The list's own request asks for the chosen filters; so does a refetch that has the newest number,
-- and none has a number to come; and the page is loading only while the list's request is open.
pub record IsCurrent (num : Numerals) {D R : Type 0} (f : Feed D R) : Type 0 where
  pub listing : (r : Fetch) → f.listing ≡ some r → r.query ≡ query_of num f
  pub refetch :
      (k : Closing R) (r : Fetch)
      → Memᴰ k f.closings
      → k.refetch ≡ some r
      → (r.number ≤ f.req) × (r.number ≡ f.req → r.query ≡ query_of num f)
  pub waits : f.loading ≡ true → f.listing ≢ none

abbrev query_in : Option Fetch → Params
query_in none = []
query_in (some r) = r.query

abbrev number_in : Option Fetch → ℕ
number_in none = 0
number_in (some r) = r.number

refetch_with_cases :
    {R : Type 0} (chore : ℕ) (f r : Fetch) (k : Closing R)
    → (refetch_with chore f k).refetch ≡ some r
    → (some f ≡ some r) ⊎ (k.refetch ≡ some r)
refetch_with_cases chore f r k e = elim (Bool-cases (k.chore == chore)) [
  | inl h ↦ inl (rw h at e)
  | inr h ↦ inr (rw h at e)
]

module _ (num : Numerals) {D R : Type 0} where
  -- Fewer completions, the same request numbers and filters.
  fewer-IsCurrent :
      (f g : Feed D R)
      → g.req ≡ f.req
      → query_of num g ≡ query_of num f
      → ((r : Fetch) → g.listing ≡ some r → f.listing ≡ some r)
      → ((k : Closing R) → Memᴰ k g.closings → Memᴰ k f.closings)
      → (g.loading ≡ true → g.listing ≢ none)
      → IsCurrent num f
      → IsCurrent num g
  fewer-IsCurrent f g n q l c w p = record {
    listing = λ r e. p.listing r (l r e) ∙ sym q;
    refetch = λ k r m e.
        let (le, newest) = p.refetch k r (c k m) e in (rw n le, λ h. newest (h ∙ n) ∙ sym q);
    waits = w;
  }

  -- The list is asked for anew: all that was needed of the state is that no number is to come.
  pub start_listing-IsCurrent :
      (f : Feed D R)
      → ((k : Closing R) (r : Fetch) → Memᴰ k f.closings → k.refetch ≡ some r → r.number ≤ f.req)
      → IsCurrent num (start_listing num f)
  unfolding start_listing query_of
  start_listing-IsCurrent f p = record {
    listing = λ r e. sym (ap query_in e);
    refetch =
        λ k r m e. let le = p k r m e in (omega (arith, le), λ h. absurd (omega (arith, le, h)));
    waits = λ _ e. cc;
  }

  refilter-IsCurrent :
      (household_id : String) (ids : List ℕ) (f : Feed D R)
      → IsCurrent num f
      → IsCurrent num (refilter num household_id ids f)
  unfolding refilter
  refilter-IsCurrent household_id ids f p =
      let g : Feed D R = record f { household_id = household_id; assignee_ids = ids } in
      elim (Bool-cases (params_eq (query_of num f) (query_of num g))) [
        | inl e ↦
            simp e (
              fewer-IsCurrent f g refl (sym (params_eq_sound _ _ e)) (λ r h. h) (λ k m. m) p.waits
                p)
        | inr e ↦ simp e (start_listing-IsCurrent g (λ k r m h. (p.refetch k r m h).0))
      ]

  either_shown :
      (b : Bool) (x y : Feed D R) (P : Feed D R → Type 0) → P x → P y → P (if b then x else y)
  either_shown true x y P p q = p
  either_shown false x y P p q = q

  show_newest-IsCurrent :
      (r : Fetch) (d : D) (f : Feed D R) → IsCurrent num f → IsCurrent num (show_newest r d f)
  unfolding show_newest query_of
  show_newest-IsCurrent r d f p =
      either_shown (r.number == f.req) (record f { shown = some d }) f (λ g. IsCurrent num g)
        (fewer-IsCurrent f (record f { shown = some d }) refl refl (λ r h. h) (λ k m. m) p.waits p)
        p

  stop-IsCurrent : (chore : ℕ) (f : Feed D R) → IsCurrent num f → IsCurrent num (stop chore f)
  unfolding stop query_of
  stop-IsCurrent chore f p =
      fewer-IsCurrent f (stop chore f) refl refl (λ r h. h)
        (λ k m. (mem_of_select (λ k. not (k.chore == chore)) f.closings m).0) p.waits p

  failed-IsCurrent :
      (text : String) (f : Feed D R)
      → IsCurrent num f
      → IsCurrent num (record f { error = some text })
  unfolding query_of
  failed-IsCurrent text f p =
      fewer-IsCurrent f (record f { error = some text }) refl refl (λ r h. h) (λ k m. m) p.waits p

  listing_done :
      (f : Feed D R)
      → IsCurrent num f
      → IsCurrent num (record f { loading = false; listing = none })
  unfolding query_of
  listing_done f p =
      fewer-IsCurrent f (record f { loading = false; listing = none }) refl refl (λ r h. cc)
        (λ k m. m) (λ h. cc) p

  settle_list-IsCurrent :
      (load_error : String) (o : Option Fetch) (a : Answer D) (f : Feed D R)
      → IsCurrent num f
      → IsCurrent num (settle_list load_error o a f)
  unfolding settle_list
  settle_list-IsCurrent load_error none a f p = p
  settle_list-IsCurrent load_error (some r) (Answer.got d) f p =
      listing_done (show_newest r d f) (show_newest-IsCurrent r d f p)
  settle_list-IsCurrent load_error (some r) (Answer.failed m) f p =
      listing_done (record f { error = some load_error }) (failed-IsCurrent load_error f p)

  refetched_by-IsCurrent :
      (fallback : R → String) (request : R) (chore : ℕ) (o : Option Fetch) (a : Answer D)
      (f : Feed D R)
      → IsCurrent num f
      → IsCurrent num (refetched_by fallback request chore o a f)
  unfolding refetched_by
  refetched_by-IsCurrent fallback request chore none a f p = p
  refetched_by-IsCurrent fallback request chore (some r) (Answer.got d) f p =
      stop-IsCurrent chore _ (show_newest-IsCurrent r d f p)
  refetched_by-IsCurrent fallback request chore (some r) (Answer.failed m) f p =
      stop-IsCurrent chore _ (failed-IsCurrent _ f p)

  refetched_at-IsCurrent :
      (fallback : R → String) (chore : ℕ) (o : Option (Closing R)) (a : Answer D) (f : Feed D R)
      → IsCurrent num f
      → IsCurrent num (refetched_at fallback chore o a f)
  unfolding refetched_at
  refetched_at-IsCurrent fallback chore none a f p = p
  refetched_at-IsCurrent fallback chore (some k) a f p =
      refetched_by-IsCurrent fallback k.request chore k.refetch a f p

  close_chore-IsCurrent :
      (chore : ℕ) (request : R) (f : Feed D R)
      → IsCurrent num f
      → IsCurrent num (close_chore chore request f)
  unfolding close_chore query_of
  close_chore-IsCurrent chore request f p = elim (Bool-cases (has_id chore f.busy)) [
    | inl e ↦ simp e p
    | inr e ↦ simp e (record {
      listing = p.listing;
      refetch = λ k r m h. posted_or_new k r h (mem_of_append f.closings _ m);
      waits = p.waits;
    })
  ]
    where
      posted_or_new :
          (k : Closing R) (r : Fetch)
          → k.refetch ≡ some r
          → Memᴰ k f.closings
            ⊎ Memᴰ k (record { chore = chore; request = request; refetch = none } ∷ [])
          → (r.number ≤ f.req) × (r.number ≡ f.req → r.query ≡ query_of num f)
      posted_or_new k r h (inl m) = p.refetch k r m h
      posted_or_new k r h (inr (Memᴰ.head e)) =
          let clash : none ≡ some r = sym (ap (λ (j : Closing R). j.refetch) e) ∙ h in cc
      posted_or_new k r h (inr (Memᴰ.tail m)) = elim m [ ]

  refetch_begun :
      (chore : ℕ) (f : Feed D R)
      → IsCurrent num f
      → IsCurrent num (record f {
        req = suc f.req;
        closings =
            map
              (refetch_with chore (record { number = suc f.req; query = query_of num f }))
              f.closings;
      })
  unfolding query_of
  refetch_begun chore f p = record {
    listing = p.listing;
    refetch = λ k r m e.
        let (j, n, same) = mem_of_map (refetch_with chore _) f.closings m in
        let h = ap (λ (j : Closing R). j.refetch) same ∙ e in
        elim (refetch_with_cases chore _ r j h) [
          | inl new ↦ (omega (arith, ap (λ o. number_in o) new), λ _. sym (ap query_in new))
          | inr old ↦
              let le = (p.refetch j r n old).0 in
              (omega (arith, le), λ h. absurd (omega (arith, le, h)))
        ];
    waits = p.waits;
  }

  posted_by-IsCurrent :
      (fallback : R → String) (request : R) (chore : ℕ) (o : Option Fetch) (a : Answer D)
      (f : Feed D R)
      → IsCurrent num f
      → IsCurrent num (posted_by num fallback request chore o a f)
  unfolding posted_by
  posted_by-IsCurrent fallback request chore (some r) a f p = p
  posted_by-IsCurrent fallback request chore none (Answer.got d) f p = refetch_begun chore f p
  posted_by-IsCurrent fallback request chore none (Answer.failed m) f p =
      stop-IsCurrent chore _ (failed-IsCurrent _ f p)

  posted_at-IsCurrent :
      (fallback : R → String) (chore : ℕ) (o : Option (Closing R)) (a : Answer D) (f : Feed D R)
      → IsCurrent num f
      → IsCurrent num (posted_at num fallback chore o a f)
  unfolding posted_at
  posted_at-IsCurrent fallback chore none a f p = p
  posted_at-IsCurrent fallback chore (some k) a f p =
      posted_by-IsCurrent fallback k.request chore k.refetch a f p

  pub step-IsCurrent :
      (load_error : String) (fallback : R → String) (e : Event D R) (f : Feed D R)
      → IsCurrent num f
      → IsCurrent num (step num load_error fallback e f)
  unfolding step listed refetched posted
  step-IsCurrent load_error fallback (Event.filter household_id ids) f p =
      refilter-IsCurrent household_id ids f p
  step-IsCurrent load_error fallback Event.again f p =
      start_listing-IsCurrent f (λ k r m h. (p.refetch k r m h).0)
  step-IsCurrent load_error fallback (Event.list_answer a) f p =
      settle_list-IsCurrent load_error f.listing a f p
  step-IsCurrent load_error fallback (Event.close chore request) f p =
      close_chore-IsCurrent chore request f p
  step-IsCurrent load_error fallback (Event.close_answer chore a) f p =
      posted_at-IsCurrent fallback chore (closing_of chore f.closings) a f p
  step-IsCurrent load_error fallback (Event.refetch_answer chore a) f p =
      refetched_at-IsCurrent fallback chore (closing_of chore f.closings) a f p
