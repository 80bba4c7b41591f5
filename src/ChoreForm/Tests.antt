-- ===== src/ChoreForm/Tests.antt =====
-- A weekly chore of two people.
use isachore.Base.{
  ℕ, String, ◌≡◌, refl, ap, arith, true, false, Option, none, some, List, [], ◌∷◌, Memᴰ,
}
use isachore.Types.{Chore, HouseholdMember, RepeatPeriod, AssignmentType}
use isachore.Web.Number.{JsNumber, whole}
use isachore.Web.Tally.{tally, tally_number}
use isachore.Web.Whole.{Whole, finite, nan, Truncation}
use isachore.ChoreForm.{includes, Props, Event, initial_state, payload, run}
use isachore.ChoreForm.Seeds.{edit_initial, clone_state, create_initial}
use isachore.ChoreForm.Bounds.{IsSendable, payload-IsSendable}
use isachore.ChoreForm.Assignee.{IsExclusive, never_both}
use isachore.ChoreForm.Stored.{IsStored, saved, turn_sent, current_in_pool}
use isachore.ChoreForm.RoundTrip.{edit-payload, clone-payload}

abbrev trunc_of : JsNumber → Whole
trunc_of (whole z) = finite z
trunc_of JsNumber.other = nan

abbrev strokes : Truncation tally
strokes = record {
  trunc = λ s. trunc_of (tally.read s);
  trunc-print = λ n h. ap trunc_of (tally_number n);
}

abbrev new_year : Option String → String
new_year timezone = "2026-01-01"

abbrev ann : HouseholdMember
ann = record { id = 1; first_name = "Ann"; last_name = "Lee" }

abbrev bob : HouseholdMember
bob = record { id = 2; first_name = "Bob"; last_name = "Lee" }

abbrev bins : Chore
bins = record {
  id = 5;
  title = "Bins";
  description = some "<p>Blue ones</p>";
  start_date = some "2025-11-03";
  repeats = RepeatPeriod.weekly;
  assignment_type = AssignmentType.alphabetical;
  turn_length = 3;
  repeat_interval = 2;
  weekdays = some (0 ∷ 3 ∷ []);
  created_at = "2025-11-01T00:00:00Z";
  household = record { id = 7; name = "Home"; timezone = "UTC" };
  assignees = ann ∷ bob ∷ [];
  current_assignee = some bob;
  tags = [];
}

abbrev edit_page : Props
edit_page = record {
  members = ann ∷ bob ∷ [];
  tags = [];
  timezone = some "UTC";
  allow_assignee_override = true;
}

not_never : RepeatPeriod.weekly ≡ RepeatPeriod.manual → ⊥
not_never e = cc

member : (id : ℕ) → Memᴰ id (1 ∷ 2 ∷ []) → includes (1 ∷ 2 ∷ []) id ≡ true
member id (Memᴰ.head e) = rw e refl
member id (Memᴰ.tail (Memᴰ.head e)) = rw e refl
member id (Memᴰ.tail (Memᴰ.tail m)) = elim m [ ]

bins-IsStored : IsStored bins edit_page
bins-IsStored = record {
  every = (omega arith, omega arith);
  never = λ e. absurd (not_never e);
  dated = λ h. ("2025-11-03", (refl, refl));
  pinned = λ h. absurd (h refl);
  days = λ e. cc;
  turns = (omega arith, omega arith);
  described = λ e. cc;
  pool = λ id m. member id m;
  labels = λ id m. elim m [ ];
}

abbrev changes : List Event
changes =
    Event.set_repeat_interval ""
    ∷ Event.set_current_assignee none
    ∷ Event.set_repeats RepeatPeriod.manual
    ∷ Event.submit
    ∷ []

edit-payload_example :
    payload tally strokes new_year edit_page (initial_state tally (edit_initial bins))
    ≡ record (saved bins) {
      turn_length = turn_sent bins;
      current_assignee_id = current_in_pool bins;
    }
edit-payload_example = edit-payload tally strokes new_year bins edit_page refl bins-IsStored

clone-payload_example :
    payload tally strokes new_year edit_page
      (initial_state tally (create_initial (some (clone_state bins))))
    ≡ record (saved bins) {
      turn_length = turn_sent bins;
      current_assignee_id = none;
      clear_current_assignee = false;
    }
clone-payload_example = clone-payload tally strokes new_year bins edit_page bins-IsStored

payload-IsSendable_example : IsSendable (1 ∷ 2 ∷ []) [] (
    payload tally strokes new_year edit_page
      (run "failed" changes (initial_state tally (edit_initial bins))))
payload-IsSendable_example =
    payload-IsSendable tally strokes new_year edit_page
      (run "failed" changes (initial_state tally (edit_initial bins)))

never_both_example :
    let edited =
      payload tally strokes new_year edit_page
        (run "failed" changes (initial_state tally (edit_initial bins))) in
    let new =
      payload tally strokes new_year edit_page
        (run "failed" changes (initial_state tally (create_initial (some (clone_state bins))))) in
    IsExclusive edited.clear_current_assignee edited.current_assignee_id
    × IsExclusive new.clear_current_assignee new.current_assignee_id
never_both_example =
    never_both tally strokes new_year edit_page "failed" bins (some (clone_state bins)) changes
