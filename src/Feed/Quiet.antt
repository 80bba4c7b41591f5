-- ===== src/Feed/Quiet.antt =====
-- At rest no button is locked and nothing spins.
use isachore.Base.{
  ℕ, zero, suc, String, ◌≡◌, refl, ap, ◌∙◌, Bool, true, false, Option, none, some, List, [], ◌∷◌,
  arith,
}
use isachore.Web.Number.{Numerals}
use isachore.Feed.{Fetch, Closing, Answer, Feed, Event, run, opened}
use isachore.Feed.Lock.{chores_of, IsLocked, step-IsLocked}
use isachore.Feed.Newest.{IsCurrent, step-IsCurrent}
use isachore.Feed.Shown.{run-IsCurrent, opened-IsCurrent}
use isachore.Feed.Weight.{
  closings_weight, listing_weight, weight, stage_positive, after, drain, drained,
}

module _ (num : Numerals) {D R : Type 0} (load_error : String) (fallback : R → String) where
  after-IsLocked :
      (o : Option (Event D R)) (f : Feed D R)
      → IsLocked f
      → IsLocked (after num load_error fallback o f)
  unfolding after
  after-IsLocked none f p = p
  after-IsLocked (some e) f p = step-IsLocked num load_error fallback e f p

  drain-IsLocked :
      (n : ℕ) (answers : ℕ → Answer D) (f : Feed D R)
      → IsLocked f
      → IsLocked (drain num load_error fallback n answers f)
  unfolding drain
  drain-IsLocked zero answers f p = p
  drain-IsLocked (suc n) answers f p = drain-IsLocked n answers _ (after-IsLocked _ f p)

  after-IsCurrent :
      (o : Option (Event D R)) (f : Feed D R)
      → IsCurrent num f
      → IsCurrent num (after num load_error fallback o f)
  unfolding after
  after-IsCurrent none f p = p
  after-IsCurrent (some e) f p = step-IsCurrent num load_error fallback e f p

  drain-IsCurrent :
      (n : ℕ) (answers : ℕ → Answer D) (f : Feed D R)
      → IsCurrent num f
      → IsCurrent num (drain num load_error fallback n answers f)
  unfolding drain
  drain-IsCurrent zero answers f p = p
  drain-IsCurrent (suc n) answers f p = drain-IsCurrent n answers _ (after-IsCurrent _ f p)

  run-IsLocked :
      (es : List (Event D R)) (f : Feed D R)
      → IsLocked f
      → IsLocked (run num load_error fallback es f)
  unfolding run
  run-IsLocked [] f p = p
  run-IsLocked (e ∷ es) f p = run-IsLocked es _ (step-IsLocked num load_error fallback e f p)

  no_weight :
      (ks : List (Closing R)) (f : Feed D R)
      → f.closings ≡ ks
      → weight f ≡ 0
      → (f.listing ≡ none) × (chores_of f.closings ≡ [])
  no_weight [] f c h = (unlisted f.listing (omega (arith, h)), ap chores_of c)
    where
      unlisted : (o : Option Fetch) → listing_weight o ≡ 0 → o ≡ none
      unlisted none e = refl
      unlisted (some r) e = absurd (omega (arith, e))
  no_weight (k ∷ ks) f c h =
      absurd (omega (arith, h, ap closings_weight c, stage_positive k.refetch))

  opened-IsLocked : (mine : List ℕ) → IsLocked {D = D} {R = R} (opened num mine)
  unfolding opened
  opened-IsLocked mine = record { same = refl; once = tt }

  -- However a feed was used: once the server has answered as many requests as are to come, whatever
  -- it answers, no button is locked, the page is not loading, and no request is open.
  pub all_quiet :
      (mine : List ℕ) (es : List (Event D R)) (answers : ℕ → Answer D)
      → let f = run num load_error fallback es (opened num mine) in
        let g = drain num load_error fallback (weight f) answers f in
        (g.busy ≡ []) × (g.loading ≡ false) × (weight g ≡ 0)
  all_quiet mine es answers =
      let f = run num load_error fallback es (opened num mine) in
      let g = drain num load_error fallback (weight f) answers f in
      let rest : weight g ≡ 0 =
        drained num load_error fallback (weight f) answers f (omega arith) in
      let (unlisted, nothing) = no_weight g.closings g refl rest in
      let locked =
        drain-IsLocked (weight f) answers f
          (run-IsLocked es (opened num mine) (opened-IsLocked mine)) in
      let current =
        drain-IsCurrent (weight f) answers f (
          run-IsCurrent num load_error fallback es (opened num mine) (opened-IsCurrent num mine)) in
      (locked.same ∙ nothing, ended g.loading (λ l. current.waits l unlisted), rest)
    where
      ended : (b : Bool) → (b ≡ true → ⊥) → b ≡ false
      ended true h = absurd (h refl)
      ended false h = refl

  -- A chore whose button is locked has one closing request under way and no other chore has any,
  -- so a click on a locked button, which changes nothing, never repeats a request.
  pub one_request :
      (mine : List ℕ) (es : List (Event D R))
      → IsLocked (run num load_error fallback es (opened num mine))
  one_request mine es = run-IsLocked es (opened num mine) (opened-IsLocked mine)
