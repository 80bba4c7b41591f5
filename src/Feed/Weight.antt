-- ===== src/Feed/Weight.antt =====
-- Every answer brings a feed closer to rest.
use isachore.Base.{
  ℕ, zero, suc, ◌+◌, ◌-◌, ◌≤◌, String, ◌≡◌, refl, ap, ◌∙◌, true, Option, none, some, List, [], ◌∷◌,
  map, ◌==◌, arith, Bool-cases, inl, inr,
}
use isachore.Web.Number.{Numerals}
use isachore.Feed.{
  Fetch, Closing, Answer, Feed, Event, drop_closing, refetch_with, closing_of, settle_list, listed,
  stop, refetched_by, refetched_at, refetched, query_of, posted_by, posted_at, posted, step,
}
use isachore.Feed.Lock.{show_newest-same}

-- How many answers are still to come: a completion is answered and then its refetch is.
abbrev stage_weight : Option Fetch → ℕ
stage_weight none = 2
stage_weight (some r) = 1

abbrev pub closings_weight : {R : Type 0} → List (Closing R) → ℕ
closings_weight [] = 0
closings_weight (k ∷ ks) = stage_weight k.refetch + closings_weight ks

abbrev pub listing_weight : Option Fetch → ℕ
listing_weight none = 0
listing_weight (some r) = 1

abbrev pub weight : {D R : Type 0} → Feed D R → ℕ
weight f = listing_weight f.listing + closings_weight f.closings

-- The server answers the list's request first, then those of the first completion.
abbrev answer_of : {D R : Type 0} → Option Fetch → ℕ → Answer D → Event D R
answer_of none chore a = Event.close_answer chore a
answer_of (some r) chore a = Event.refetch_answer chore a

abbrev next_event : {D R : Type 0} → Option Fetch → List (Closing R) → Answer D → Option (Event D R)
next_event (some r) ks a = some (Event.list_answer a)
next_event none [] a = none
next_event none (k ∷ ks) a = some (answer_of k.refetch k.chore a)

same_number : (n : ℕ) → (n == n) ≡ true
same_number n = ground arith

pub stage_positive : (o : Option Fetch) → 1 ≤ stage_weight o
stage_positive none = omega arith
stage_positive (some r) = omega arith

module _ {R : Type 0} where
  drop_weight :
      (chore : ℕ) (ks : List (Closing R))
      → closings_weight (drop_closing chore ks) ≤ closings_weight ks
  drop_weight chore [] = omega arith
  drop_weight chore (k ∷ ks) = elim (Bool-cases (k.chore == chore)) [
    | inl e ↦ rw e (omega (arith, drop_weight chore ks))
    | inr e ↦ rw e (omega (arith, drop_weight chore ks))
  ]

  refetch_stage :
      (chore : ℕ) (r : Fetch) (k : Closing R)
      → stage_weight (refetch_with chore r k).refetch ≤ stage_weight k.refetch
  refetch_stage chore r k = elim (Bool-cases (k.chore == chore)) [
    | inl e ↦ rw e (stage_positive k.refetch)
    | inr e ↦ rw e (omega arith)
  ]

  refetch_weight :
      (chore : ℕ) (r : Fetch) (ks : List (Closing R))
      → closings_weight (map (refetch_with chore r) ks) ≤ closings_weight ks
  refetch_weight chore r [] = omega arith
  refetch_weight chore r (k ∷ ks) =
      omega (arith, refetch_stage chore r k, refetch_weight chore r ks)

  head_drop :
      (k : Closing R) (ks : List (Closing R))
      → closings_weight (drop_closing k.chore (k ∷ ks)) ≤ closings_weight ks
  head_drop k ks = rw (same_number k.chore) (drop_weight k.chore ks)

  head_refetch :
      (r : Fetch) (k : Closing R) (ks : List (Closing R))
      → closings_weight (map (refetch_with k.chore r) (k ∷ ks)) ≤ 1 + closings_weight ks
  head_refetch r k ks = rw (same_number k.chore) (omega (arith, refetch_weight k.chore r ks))

  head_closing : (k : Closing R) (ks : List (Closing R)) → closing_of k.chore (k ∷ ks) ≡ some k
  head_closing k ks = rw (same_number k.chore) refl

module _ (num : Numerals) {D R : Type 0} (load_error : String) (fallback : R → String) where
  unfoldable pub after : Option (Event D R) → Feed D R → Feed D R
  after none f = f
  after (some e) f = step num load_error fallback e f

  -- n answers, whatever each of them is.
  unfoldable pub drain : ℕ → (ℕ → Answer D) → Feed D R → Feed D R
  unfolding after
  drain zero answers f = f
  drain (suc n) answers f = drain n answers (after (next_event f.listing f.closings (answers n)) f)

  settled_weight :
      (r : Fetch) (a : Answer D) (f : Feed D R)
      → weight (settle_list load_error (some r) a f) ≤ closings_weight f.closings
  unfolding settle_list
  settled_weight r (Answer.got d) f = omega (arith, ap closings_weight (show_newest-same r d f).1)
  settled_weight r (Answer.failed m) f = omega arith

  posted_weight :
      (k : Closing R) (ks : List (Closing R)) (a : Answer D) (f : Feed D R)
      → f.closings ≡ k ∷ ks
      → weight (posted_by num fallback k.request k.chore none a f)
        ≤ listing_weight f.listing + (1 + closings_weight ks)
  unfolding posted_by stop
  posted_weight k ks (Answer.got d) f c =
      rw c
        (omega (arith, head_refetch (record { number = suc f.req; query = query_of num f }) k ks))
  posted_weight k ks (Answer.failed m) f c = rw c (omega (arith, head_drop k ks))

  refetched_weight :
      (r : Fetch) (k : Closing R) (ks : List (Closing R)) (a : Answer D) (f : Feed D R)
      → f.closings ≡ k ∷ ks
      → weight (refetched_by fallback k.request k.chore (some r) a f)
        ≤ listing_weight f.listing + closings_weight ks
  unfolding refetched_by stop
  refetched_weight r k ks (Answer.got d) f c =
      let (_, same, listing) = show_newest-same r d f in
      rw (same, listing, c) (omega (arith, head_drop k ks))
  refetched_weight r k ks (Answer.failed m) f c = rw c (omega (arith, head_drop k ks))

  answered_weight :
      (k : Closing R) (ks : List (Closing R)) (o : Option Fetch) (a : Answer D) (f : Feed D R)
      → f.closings ≡ k ∷ ks
      → k.refetch ≡ o
      → weight (step num load_error fallback (answer_of o k.chore a) f)
        ≤ listing_weight f.listing + (closings_weight (k ∷ ks) - 1)
  unfolding step posted refetched posted_at refetched_at
  answered_weight k ks none a f c e =
      let first : closing_of k.chore f.closings ≡ some k =
        ap (closing_of k.chore) c ∙ head_closing k ks in
      rw (first, e) (omega (arith, posted_weight k ks a f c))
  answered_weight k ks (some r) a f c e =
      let first : closing_of k.chore f.closings ≡ some k =
        ap (closing_of k.chore) c ∙ head_closing k ks in
      rw (first, e) (omega (arith, refetched_weight r k ks a f c))

  weight-after :
      (f : Feed D R) (a : Answer D) (o : Option Fetch) (ks : List (Closing R))
      → f.listing ≡ o
      → f.closings ≡ ks
      → weight (after (next_event o ks a) f) ≤ weight f - 1
  unfolding after step listed
  weight-after f a (some r) ks l c = omega (
    arith,
    ap (λ o. weight (settle_list load_error o a f)) l,
    settled_weight r a f,
    ap listing_weight l,
  )
  weight-after f a none [] l c = omega (arith, ap listing_weight l, ap closings_weight c)
  weight-after f a none (k ∷ ks) l c = omega (
    arith,
    answered_weight k ks k.refetch a f c refl,
    ap closings_weight c,
    stage_positive k.refetch,
  )

  pub drained :
      (n : ℕ) (answers : ℕ → Answer D) (f : Feed D R)
      → weight f ≤ n
      → weight (drain n answers f) ≡ 0
  unfolding drain
  drained zero answers f h = omega (arith, h)
  drained (suc n) answers f h =
      drained n answers (after (next_event f.listing f.closings (answers n)) f)
        (omega (arith, h, weight-after f (answers n) f.listing f.closings refl refl))
