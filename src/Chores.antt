-- ===== src/Chores.antt =====
-- A chore's schedule as text: `repeatLabel` of frontend/src/lib/chores.ts. The translations are
-- i18next's.
pub mod Days
mod Tests
use Prim.Native.String
use isachore.Base.{
  ℕ, zero, suc, max, String, ◌=s=◌, Bool, true, false, Option, none, some, List, [], ◌∷◌, map,
  select, leb, ltb, ◌==◌, if◌then◌else◌,
}
use isachore.Base.Sorting.{sort_by}
use isachore.Types.{RepeatPeriod, manual, daily, weekly, monthly, yearly}

-- The translations that the label takes: its own words, a period with a count, a weekday, and the
-- schedule with its days.
pub record Words : Type 0 where
  pub manual_word : String
  pub every : RepeatPeriod → ℕ → String
  pub weekday_short : String → String
  pub on_days : (schedule days : String) → String

abbrev pub weekday_keys : List String
weekday_keys = "mon" ∷ "tue" ∷ "wed" ∷ "thu" ∷ "fri" ∷ "sat" ∷ "sun" ∷ []

-- `weekdayKeys[day]`, for a day in range.
abbrev pub key_at : ℕ → List String → String
key_at day [] = ""
key_at zero (k ∷ ks) = k
key_at (suc day) (k ∷ ks) = key_at day ks

-- `.sort((a, b) => a - b)`
unfoldable pub sort : List ℕ → List ℕ
sort days = sort_by leb days

-- The days that the label names, in order.
unfoldable pub shown_days : Option (List ℕ) → List ℕ
unfolding sort
shown_days none = []
shown_days (some days) = sort (select (λ d. ltb d 7) days)

-- `.join(', ')`
unfoldable pub join : String → List String → String
join separator [] = ""
join separator (t ∷ []) = t
join separator (t ∷ u ∷ ts) = String.◌++◌ t (String.◌++◌ separator (join separator (u ∷ ts)))

-- `Math.max(1, Math.trunc(interval) || 1)` of a whole number.
abbrev pub shown_interval : ℕ → ℕ
shown_interval interval = max 1 (if interval == 0 then 1 else interval)

unfoldable pub with_days : Words → String → List ℕ → String
unfolding join
with_days t schedule [] = schedule
with_days t schedule (d ∷ ds) =
    t.on_days schedule (join ", " (map (λ day. t.weekday_short (key_at day weekday_keys)) (d ∷ ds)))

unfoldable pub repeat_label : Words → RepeatPeriod → ℕ → Option (List ℕ) → String
unfolding with_days shown_days
repeat_label t manual interval weekdays = t.manual_word
repeat_label t weekly interval weekdays =
    with_days t (t.every weekly (shown_interval interval)) (shown_days weekdays)
repeat_label t repeats interval weekdays = t.every repeats (shown_interval interval)
