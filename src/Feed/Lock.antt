-- ===== src/Feed/Lock.antt =====
-- The lock on a chore's button: `busy` is exactly the chores being closed, each once.
use isachore.Base.{
  ℕ, suc, String, ◌≡◌, refl, sym, ap, ◌∙◌, Bool, true, false, ◌||◌, Option, none, some, List, [],
  ◌∷◌, ◌++◌, map, ◌==◌, if◌then◌else◌, arith, Bool-cases, inl, inr,
}
use isachore.Web.Number.{Numerals}
use isachore.Web.Params.{params_eq}
use isachore.Feed.{
  Fetch, Closing, Answer, Feed, Event, has_id, delete_id, drop_closing, refetch_with, closing_of,
  show_newest, settle_list, listed, close_chore, stop, refetched_by, refetched_at, refetched,
  query_of, start_listing, refilter, posted_by, posted_at, posted, step,
}

abbrev pub chores_of : {R : Type 0} → List (Closing R) → List ℕ
chores_of ks = map (λ k. k.chore) ks

abbrev pub AreDistinct : List ℕ → Type 0
AreDistinct [] = Unit
AreDistinct (id ∷ ids) = (has_id id ids ≡ false) × AreDistinct ids

-- Each chore being closed has its button locked and no request but one under way, and no other
-- button is locked.
pub record IsLocked {D R : Type 0} (f : Feed D R) : Type 0 where
  pub same : f.busy ≡ chores_of f.closings
  pub once : AreDistinct f.busy

has_id-append : (id x : ℕ) (ids : List ℕ) → has_id id (ids ++ (x ∷ [])) ≡ (has_id id ids || x == id)
has_id-append id x [] = ground arith
has_id-append id x (y ∷ ids) = ground (arith, has_id-append id x ids)

AreDistinct-append :
    (x : ℕ) (ids : List ℕ) → has_id x ids ≡ false → AreDistinct ids → AreDistinct (ids ++ (x ∷ []))
AreDistinct-append x [] h d = (refl, tt)
AreDistinct-append x (y ∷ ids) h (a, d) =
    (ground (arith, has_id-append y x ids), AreDistinct-append x ids (ground arith) d)

has_id-delete_id :
    (id x : ℕ) (ids : List ℕ) → has_id id ids ≡ false → has_id id (delete_id x ids) ≡ false
has_id-delete_id id x [] h = refl
has_id-delete_id id x (y ∷ ids) h = ground (arith, has_id-delete_id id x ids)

AreDistinct-delete_id : (x : ℕ) (ids : List ℕ) → AreDistinct ids → AreDistinct (delete_id x ids)
AreDistinct-delete_id x [] d = d
AreDistinct-delete_id x (y ∷ ids) (a, d) = elim (Bool-cases (y == x)) [
  | inl e ↦ rw e (AreDistinct-delete_id x ids d)
  | inr e ↦ rw e (has_id-delete_id y x ids a, AreDistinct-delete_id x ids d)
]

module _ {R : Type 0} where
  chores_of-append :
      (ks : List (Closing R)) (k : Closing R)
      → chores_of (ks ++ (k ∷ [])) ≡ chores_of ks ++ (k.chore ∷ [])
  chores_of-append [] k = refl
  chores_of-append (j ∷ ks) k = ap (λ ids. j.chore ∷ ids) (chores_of-append ks k)

  pub chores_of-drop :
      (chore : ℕ) (ks : List (Closing R))
      → chores_of (drop_closing chore ks) ≡ delete_id chore (chores_of ks)
  chores_of-drop chore [] = refl
  chores_of-drop chore (k ∷ ks) = elim (Bool-cases (k.chore == chore)) [
    | inl e ↦ rw e (chores_of-drop chore ks)
    | inr e ↦ rw e (ap (λ ids. k.chore ∷ ids) (chores_of-drop chore ks))
  ]

  refetch_with-chore :
      (chore : ℕ) (r : Fetch) (k : Closing R) → (refetch_with chore r k).chore ≡ k.chore
  refetch_with-chore chore r k = ground arith

  pub chores_of-refetch :
      (chore : ℕ) (r : Fetch) (ks : List (Closing R))
      → chores_of (map (refetch_with chore r) ks) ≡ chores_of ks
  chores_of-refetch chore r [] = refl
  chores_of-refetch chore r (k ∷ ks) =
      λ i. refetch_with-chore chore r k i ∷ chores_of-refetch chore r ks i

module _ {D R : Type 0} where
  -- A change of neither the busy chores nor the completions.
  same-IsLocked :
      (f g : Feed D R) → g.busy ≡ f.busy → g.closings ≡ f.closings → IsLocked f → IsLocked g
  same-IsLocked f g b c p = record {
    same = b ∙ (p.same ∙ ap chores_of (sym c));
    once = rw b p.once;
  }

  either-IsLocked :
      (b : Bool) (f g : Feed D R) → IsLocked f → IsLocked g → IsLocked (if b then f else g)
  either-IsLocked true f g p q = p
  either-IsLocked false f g p q = q

  either_busy :
      (b : Bool) (f g : Feed D R)
      → g.busy ≡ f.busy
      → g.closings ≡ f.closings
      → g.listing ≡ f.listing
      → ((if b then g else f).busy ≡ f.busy)
        × ((if b then g else f).closings ≡ f.closings)
        × ((if b then g else f).listing ≡ f.listing)
  either_busy true f g p q r = (p, q, r)
  either_busy false f g p q r = (refl, refl, refl)

  pub show_newest-same :
      (r : Fetch) (d : D) (f : Feed D R)
      → ((show_newest r d f).busy ≡ f.busy)
        × ((show_newest r d f).closings ≡ f.closings)
        × ((show_newest r d f).listing ≡ f.listing)
  unfolding show_newest
  show_newest-same r d f =
      either_busy (r.number == f.req) f (record f { shown = some d }) refl refl refl

  stop-IsLocked : (chore : ℕ) (f : Feed D R) → IsLocked f → IsLocked (stop chore f)
  unfolding stop
  stop-IsLocked chore f p = record {
    same = ap (delete_id chore) p.same ∙ sym (chores_of-drop chore f.closings);
    once = AreDistinct-delete_id chore f.busy p.once;
  }

  close_chore-IsLocked :
      (chore : ℕ) (request : R) (f : Feed D R) → IsLocked f → IsLocked (close_chore chore request f)
  unfolding close_chore
  close_chore-IsLocked chore request f p = elim (Bool-cases (has_id chore f.busy)) [
    | inl e ↦ simp e p
    | inr e ↦ simp e (record {
      same =
          ap (λ ids. ids ++ (chore ∷ [])) p.same
          ∙ sym (
              chores_of-append f.closings
                (record { chore = chore; request = request; refetch = none }));
      once = AreDistinct-append chore f.busy e p.once;
    })
  ]

  settle_list-IsLocked :
      (load_error : String) (o : Option Fetch) (a : Answer D) (f : Feed D R)
      → IsLocked f
      → IsLocked (settle_list load_error o a f)
  unfolding settle_list
  settle_list-IsLocked load_error none a f p = p
  settle_list-IsLocked load_error (some r) (Answer.got d) f p =
      same-IsLocked f _ (show_newest-same r d f).0 (show_newest-same r d f).1 p
  settle_list-IsLocked load_error (some r) (Answer.failed m) f p = same-IsLocked f _ refl refl p

  refetched_by-IsLocked :
      (fallback : R → String) (request : R) (chore : ℕ) (o : Option Fetch) (a : Answer D)
      (f : Feed D R)
      → IsLocked f
      → IsLocked (refetched_by fallback request chore o a f)
  unfolding refetched_by
  refetched_by-IsLocked fallback request chore none a f p = p
  refetched_by-IsLocked fallback request chore (some r) (Answer.got d) f p =
      stop-IsLocked chore _
        (same-IsLocked f _ (show_newest-same r d f).0 (show_newest-same r d f).1 p)
  refetched_by-IsLocked fallback request chore (some r) (Answer.failed m) f p =
      stop-IsLocked chore _ (same-IsLocked f _ refl refl p)

  refetched_at-IsLocked :
      (fallback : R → String) (chore : ℕ) (o : Option (Closing R)) (a : Answer D) (f : Feed D R)
      → IsLocked f
      → IsLocked (refetched_at fallback chore o a f)
  unfolding refetched_at
  refetched_at-IsLocked fallback chore none a f p = p
  refetched_at-IsLocked fallback chore (some k) a f p =
      refetched_by-IsLocked fallback k.request chore k.refetch a f p

module _ (num : Numerals) {D R : Type 0} where
  refilter-IsLocked :
      (household_id : String) (ids : List ℕ) (f : Feed D R)
      → IsLocked f
      → IsLocked (refilter num household_id ids f)
  unfolding refilter start_listing
  refilter-IsLocked household_id ids f p =
      let g : Feed D R = record f { household_id = household_id; assignee_ids = ids } in
      either-IsLocked (params_eq (query_of num f) (query_of num g)) g (start_listing num g)
        (same-IsLocked f g refl refl p) (same-IsLocked f (start_listing num g) refl refl p)

  posted_by-IsLocked :
      (fallback : R → String) (request : R) (chore : ℕ) (o : Option Fetch) (a : Answer D)
      (f : Feed D R)
      → IsLocked f
      → IsLocked (posted_by num fallback request chore o a f)
  unfolding posted_by
  posted_by-IsLocked fallback request chore (some r) a f p = p
  posted_by-IsLocked fallback request chore none (Answer.got d) f p = record {
    same =
        p.same
        ∙ sym (
            chores_of-refetch chore (record { number = suc f.req; query = query_of num f })
              f.closings);
    once = p.once;
  }
  posted_by-IsLocked fallback request chore none (Answer.failed m) f p =
      stop-IsLocked chore _ (same-IsLocked f _ refl refl p)

  posted_at-IsLocked :
      (fallback : R → String) (chore : ℕ) (o : Option (Closing R)) (a : Answer D) (f : Feed D R)
      → IsLocked f
      → IsLocked (posted_at num fallback chore o a f)
  unfolding posted_at
  posted_at-IsLocked fallback chore none a f p = p
  posted_at-IsLocked fallback chore (some k) a f p =
      posted_by-IsLocked fallback k.request chore k.refetch a f p

  -- Whatever happens, a chore whose button is locked has one closing request under way and no
  -- other chore has any: a repeated click sends nothing.
  pub step-IsLocked :
      (load_error : String) (fallback : R → String) (e : Event D R) (f : Feed D R)
      → IsLocked f
      → IsLocked (step num load_error fallback e f)
  unfolding step listed refetched posted start_listing
  step-IsLocked load_error fallback (Event.filter household_id ids) f p =
      refilter-IsLocked household_id ids f p
  step-IsLocked load_error fallback Event.again f p = same-IsLocked f _ refl refl p
  step-IsLocked load_error fallback (Event.list_answer a) f p =
      settle_list-IsLocked load_error f.listing a f p
  step-IsLocked load_error fallback (Event.close chore request) f p =
      close_chore-IsLocked chore request f p
  step-IsLocked load_error fallback (Event.close_answer chore a) f p =
      posted_at-IsLocked fallback chore (closing_of chore f.closings) a f p
  step-IsLocked load_error fallback (Event.refetch_answer chore a) f p =
      refetched_at-IsLocked fallback chore (closing_of chore f.closings) a f p
