-- ===== src/Feed/Requests.antt =====
-- What is known of every closing request under way.
use isachore.Base.{
  ℕ, String, ◌≡◌, refl, sym, ap, ◌∙◌, Bool, true, false, not, Option, none, some, List, [], ◌∷◌,
  ◌++◌, map, Memᴰ, mem_of_map, mem_of_append, mem_of_select, ◌==◌, if◌then◌else◌, Bool-cases, inl,
  inr,
}
use isachore.Web.Number.{Numerals}
use isachore.Web.Params.{params_eq}
use isachore.Feed.{
  Fetch, Closing, Answer, Feed, Event, has_id, drop_closing, refetch_with, closing_of, show_newest,
  settle_list, listed, close_chore, stop, refetched_by, refetched_at, refetched, query_of,
  start_listing, refilter, posted_by, posted_at, posted, step,
}
use isachore.Feed.Lock.{show_newest-same}

same_request :
    {R : Type 0} (chore : ℕ) (r : Fetch) (k : Closing R)
    → (refetch_with chore r k).request ≡ k.request
same_request chore r k = elim (Bool-cases (k.chore == chore)) [
  | inl e ↦ rw e refl
  | inr e ↦ rw e refl
]

module _ {R : Type 0} (P : R → Type 0) where
  abbrev pub AreRequests : List (Closing R) → Type 0
  AreRequests ks = (k : Closing R) → Memᴰ k ks → P k.request

  stopped :
      (chore : ℕ) (ks : List (Closing R)) → AreRequests ks → AreRequests (drop_closing chore ks)
  stopped chore ks p k m = p k (mem_of_select (λ k. not (k.chore == chore)) ks m).0

  begun :
      (chore : ℕ) (r : Fetch) (ks : List (Closing R))
      → AreRequests ks
      → AreRequests (map (refetch_with chore r) ks)
  begun chore r ks p k m =
      let (j, n, e) = mem_of_map (refetch_with chore r) ks m in
      let q : j.request ≡ k.request =
        sym (same_request chore r j) ∙ ap (λ (x : Closing R). x.request) e in
      rw (← q) (p j n)

  added :
      (ks : List (Closing R)) (k : Closing R)
      → AreRequests ks
      → P k.request
      → AreRequests (ks ++ (k ∷ []))
  added ks k p h j m = elim (mem_of_append ks (k ∷ []) m) [ inl n ↦ p j n | inr n ↦ new n ]
    where
      new : Memᴰ j (k ∷ []) → P j.request
      new (Memᴰ.head e) = rw e h
      new (Memᴰ.tail m) = elim m [ ]

abbrev pub Fits : {D R : Type 0} → (R → Type 0) → Event D R → Type 0
Fits P (Event.close chore request) = P request
Fits P _ = Unit

module _ (num : Numerals) {D R : Type 0} (P : R → Type 0) where
  same_closings :
      (f g : Feed D R)
      → g.closings ≡ f.closings
      → AreRequests P f.closings
      → AreRequests P g.closings
  same_closings f g e p = rw e p

  posted_by-AreRequests :
      (fallback : R → String) (request : R) (chore : ℕ) (o : Option Fetch) (a : Answer D)
      (f : Feed D R)
      → AreRequests P f.closings
      → AreRequests P (posted_by num fallback request chore o a f).closings
  unfolding posted_by stop
  posted_by-AreRequests fallback request chore (some r) a f p = p
  posted_by-AreRequests fallback request chore none (Answer.got d) f p =
      begun P chore _ f.closings p
  posted_by-AreRequests fallback request chore none (Answer.failed m) f p =
      stopped P chore f.closings p

  posted_at-AreRequests :
      (fallback : R → String) (chore : ℕ) (o : Option (Closing R)) (a : Answer D) (f : Feed D R)
      → AreRequests P f.closings
      → AreRequests P (posted_at num fallback chore o a f).closings
  unfolding posted_at
  posted_at-AreRequests fallback chore none a f p = p
  posted_at-AreRequests fallback chore (some k) a f p =
      posted_by-AreRequests fallback k.request chore k.refetch a f p

  refetched_by-AreRequests :
      (fallback : R → String) (request : R) (chore : ℕ) (o : Option Fetch) (a : Answer D)
      (f : Feed D R)
      → AreRequests P f.closings
      → AreRequests P (refetched_by fallback request chore o a f).closings
  unfolding refetched_by stop
  refetched_by-AreRequests fallback request chore none a f p = p
  refetched_by-AreRequests fallback request chore (some r) (Answer.got d) f p =
      stopped P chore _ (same_closings f (show_newest r d f) (show_newest-same r d f).1 p)
  refetched_by-AreRequests fallback request chore (some r) (Answer.failed m) f p =
      stopped P chore f.closings p

  refetched_at-AreRequests :
      (fallback : R → String) (chore : ℕ) (o : Option (Closing R)) (a : Answer D) (f : Feed D R)
      → AreRequests P f.closings
      → AreRequests P (refetched_at fallback chore o a f).closings
  unfolding refetched_at
  refetched_at-AreRequests fallback chore none a f p = p
  refetched_at-AreRequests fallback chore (some k) a f p =
      refetched_by-AreRequests fallback k.request chore k.refetch a f p

  settle_list-AreRequests :
      (load_error : String) (o : Option Fetch) (a : Answer D) (f : Feed D R)
      → AreRequests P f.closings
      → AreRequests P (settle_list load_error o a f).closings
  unfolding settle_list
  settle_list-AreRequests load_error none a f p = p
  settle_list-AreRequests load_error (some r) (Answer.got d) f p =
      same_closings f (show_newest r d f) (show_newest-same r d f).1 p
  settle_list-AreRequests load_error (some r) (Answer.failed m) f p = p

  either_closings :
      (b : Bool) (f g : Feed D R)
      → AreRequests P f.closings
      → AreRequests P g.closings
      → AreRequests P (if b then f else g).closings
  either_closings true f g p q = p
  either_closings false f g p q = q

  pub step-AreRequests :
      (load_error : String) (fallback : R → String) (e : Event D R) (f : Feed D R)
      → Fits P e
      → AreRequests P f.closings
      → AreRequests P (step num load_error fallback e f).closings
  unfolding step listed refetched posted refilter start_listing close_chore
  step-AreRequests load_error fallback (Event.filter household_id ids) f h p =
      either_closings (params_eq (query_of num f) _) _ _ p p
  step-AreRequests load_error fallback Event.again f h p = p
  step-AreRequests load_error fallback (Event.list_answer a) f h p =
      settle_list-AreRequests load_error f.listing a f p
  step-AreRequests load_error fallback (Event.close chore request) f h p =
      either_closings (has_id chore f.busy) f _ p
        (added P f.closings (record { chore = chore; request = request; refetch = none }) p h)
  step-AreRequests load_error fallback (Event.close_answer chore a) f h p =
      posted_at-AreRequests fallback chore (closing_of chore f.closings) a f p
  step-AreRequests load_error fallback (Event.refetch_answer chore a) f h p =
      refetched_at-AreRequests fallback chore (closing_of chore f.closings) a f p
