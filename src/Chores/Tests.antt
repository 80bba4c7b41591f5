-- ===== src/Chores/Tests.antt =====
-- A chore of Tuesdays and Fridays.
use isachore.Base.{◌≡◌, refl, some, [], ◌∷◌}
use isachore.Base.Sorting.{sort_by, put_in}
use isachore.Types.{weekly}
use isachore.Chores.{Words, sort, shown_days, join, with_days, repeat_label}

abbrev english : Words
english = record {
  manual_word = "Unscheduled";
  every = λ period count. "Weekly";
  weekday_short = λ key. key;
  on_days = λ schedule days. days;
}

label_tests :
    (repeat_label english weekly 0 (some (4 ∷ 9 ∷ 1 ∷ [])) ≡ "tue, fri")
    × (repeat_label english weekly 1 (some (7 ∷ [])) ≡ "Weekly")
unfolding repeat_label with_days shown_days sort sort_by put_in join
label_tests = (refl, refl)
