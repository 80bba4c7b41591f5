-- ===== src/Unscheduled/Recency.antt =====
-- The dot and the label of a row, frontend/src/lib/unscheduled.ts.
use isachore.Base.{
  ℕ, zero, suc, String, arith, ◌≡◌, ◌≤◌, ◌<◌, true, false, Option, none, some, Bool-cases, inl, inr,
}
use isachore.Base.Int.{ℤ, pos, negsuc, leb_ℤ}
use isachore.Types.{UnscheduledChore}
use isachore.Unscheduled.{
  done_week_days, dot_of, done_dot_class, label_of, LastDoneWords, last_done_label,
}

-- What a row shows for the days since a chore was last done: its dot and its label.
pub data Shows (t : LastDoneWords) : Option ℤ → String → String → Type 0 where
  never : Shows t none "bg-done-stale" t.never
  ahead : (n : ℕ) → Shows t (some (negsuc n)) "bg-done-recent" t.today
  today : Shows t (some (pos 0)) "bg-done-recent" t.today
  week : (n : ℕ) → 0 < n → n ≤ done_week_days → Shows t (some (pos n)) "bg-done-week" (t.days n)
  stale : (n : ℕ) → done_week_days < n → Shows t (some (pos n)) "bg-done-stale" (t.days n)

days-Shows : (t : LastDoneWords) (o : Option ℤ) → Shows t o (dot_of o) (label_of t o)
days-Shows t none = Shows.never
days-Shows t (some (negsuc n)) =
    let early : leb_ℤ (negsuc n) (pos 0) ≡ true = ground arith in rw early (Shows.ahead n)
days-Shows t (some (pos zero)) = Shows.today
days-Shows t (some (pos (suc n))) = elim (Bool-cases (leb_ℤ (pos (suc n)) (pos done_week_days))) [
  | inl e ↦ rw (past, e) (Shows.week (suc n) (omega arith) (ground (arith, e)))
  | inr e ↦ rw (past, e) (Shows.stale (suc n) (ground (arith, e)))
]
  where
    past : leb_ℤ (pos (suc n)) (pos 0) ≡ false
    past = ground arith

-- Dot and label of a row agree: a chore that was done today, or by a clock that is ahead, has the
-- fresh dot and says so; one done at most seven days ago has the week's dot and one done earlier
-- the stale dot, and both say how many days ago; one never done has the stale dot and says so.
pub dot-label :
    (t : LastDoneWords) (item : UnscheduledChore)
    → Shows t item.days_since_last_completion (done_dot_class item) (last_done_label t item)
unfolding done_dot_class last_done_label
dot-label t item = days-Shows t item.days_since_last_completion
