-- ===== src/ChoreForm/Assignee.antt =====
-- The two fields of the form that decide who is on the hook.
use isachore.Base.{
  ℕ, String, ◌≡◌, refl, Bool, true, false, ◌&&◌, Option, none, some, List, [], ◌∷◌, if◌then◌else◌,
}
use isachore.Types.{Chore, ChoreCloneState, HouseholdMember}
use isachore.Web.Number.{Numerals}
use isachore.Web.Whole.{Truncation}
use isachore.ChoreForm.{
  ChoreFormValues, Props, FormState, Event, initial_state, includes, kept_if, can_pick_assignee,
  selected_assignees, current_assignee_id, payload, step, run,
}
use isachore.ChoreForm.Seeds.{edit_initial, create_initial, member_id, is_unassigned}

-- Nobody is named where the chore is handed back to the household.
abbrev pub IsExclusive : Bool → Option ℕ → Type 0
IsExclusive clear current = clear ≡ true → current ≡ none

step-IsExclusive :
    (error_message : String) (e : Event) (s : FormState)
    → IsExclusive s.values.clear_current_assignee s.values.current_assignee_id
    → let v = (step error_message e s).values in
      IsExclusive v.clear_current_assignee v.current_assignee_id
unfolding step
step-IsExclusive error_message (Event.set_title x) s p = p
step-IsExclusive error_message (Event.set_description x) s p = p
step-IsExclusive error_message (Event.set_assignees ids) s p = p
step-IsExclusive error_message (Event.set_tags ids) s p = p
step-IsExclusive error_message (Event.set_weekdays days) s p = p
step-IsExclusive error_message (Event.set_assignment x) s p = p
step-IsExclusive error_message (Event.set_repeats x) s p = p
step-IsExclusive error_message (Event.set_repeat_interval x) s p = p
step-IsExclusive error_message (Event.set_turn_length x) s p = p
step-IsExclusive error_message (Event.set_take_turns b) s p = p
step-IsExclusive error_message (Event.set_current_assignee none) s p = λ e. refl
step-IsExclusive error_message (Event.set_current_assignee (some id)) s p = λ e. cc
step-IsExclusive error_message (Event.set_start_date x) s p = p
step-IsExclusive error_message Event.submit s p = p
step-IsExclusive error_message (Event.failed none) s p = p
step-IsExclusive error_message (Event.failed (some message)) s p = p

run-IsExclusive :
    (error_message : String) (es : List Event) (s : FormState)
    → IsExclusive s.values.clear_current_assignee s.values.current_assignee_id
    → let v = (run error_message es s).values in
      IsExclusive v.clear_current_assignee v.current_assignee_id
unfolding run
run-IsExclusive error_message [] s p = p
run-IsExclusive error_message (e ∷ es) s p =
    run-IsExclusive error_message es _ (step-IsExclusive error_message e s p)

sent-IsExclusive :
    (b clear : Bool) (p : ℕ → Bool) (o : Option ℕ)
    → IsExclusive clear o
    → IsExclusive (b && clear) (if b then kept_if p o else none)
sent-IsExclusive false clear p o h = λ e. refl
sent-IsExclusive true clear p none h = λ e. refl
sent-IsExclusive true clear p (some id) h = λ e. absurd (named (h e))
  where
    named : some id ≡ none → ⊥
    named h = cc

seeded :
    (current : Option HouseholdMember) (assignees : List HouseholdMember)
    → IsExclusive (is_unassigned current assignees) (member_id current)
seeded none assignees = λ e. refl
seeded (some m) assignees = λ e. cc

created :
    (clone : Option ChoreCloneState)
    → IsExclusive
        (create_initial clone).clear_current_assignee
        (create_initial clone).current_assignee_id
unfolding create_initial
created none = λ e. refl
created (some clone) = λ e. refl

module _ (num : Numerals) (js : Truncation num) (today_iso : Option String → String) (props : Props)
    (error_message : String) where
  payload-IsExclusive :
      (initial : ChoreFormValues) (es : List Event)
      → IsExclusive initial.clear_current_assignee initial.current_assignee_id
      → let b = payload num js today_iso props (run error_message es (initial_state num initial)) in
        IsExclusive b.clear_current_assignee b.current_assignee_id
  unfolding payload current_assignee_id initial_state
  payload-IsExclusive initial es h =
      let s = run error_message es (initial_state num initial) in
      sent-IsExclusive (can_pick_assignee props s) s.values.clear_current_assignee
        (includes (selected_assignees props s)) s.values.current_assignee_id
        (run-IsExclusive error_message es (initial_state num initial) h)

  -- However a chore is edited, a new chore is filled in or a clone is changed: what is sent never
  -- both hands the chore back to the household and names who is on the hook.
  pub never_both :
      (chore : Chore) (clone : Option ChoreCloneState) (es : List Event)
      → let edited =
          payload num js today_iso props
            (run error_message es (initial_state num (edit_initial chore))) in
        let new =
          payload num js today_iso props
            (run error_message es (initial_state num (create_initial clone))) in
        IsExclusive edited.clear_current_assignee edited.current_assignee_id
        × IsExclusive new.clear_current_assignee new.current_assignee_id
  unfolding edit_initial
  never_both chore clone es = (
    payload-IsExclusive (edit_initial chore) es (seeded chore.current_assignee chore.assignees),
    payload-IsExclusive (create_initial clone) es (created clone),
  )
