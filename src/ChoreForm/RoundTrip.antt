-- ===== src/ChoreForm/RoundTrip.antt =====
-- Saving a chore that was opened and not changed, and cloning one.
use isachore.Base.{
  ℕ, String, arith, ◌≡◌, refl, sym, ap, Bool, true, false, ◌&&◌, ◌||◌, Option, none, some, map,
  if◌then◌else◌, ltb, Bool-cases, inl, inr,
}
use isachore.Base.Int.{pos}
use isachore.Types.{Chore}
use isachore.Web.Number.{Numerals}
use isachore.Web.Whole.{finite, Truncation}
use isachore.ChoreForm.{
  Props, includes, is_manual, is_manual_repeat, kept_if, initial_state, interval, turn_length,
  selected_assignees, selected_tags, current_assignee_id, payload,
}
use isachore.ChoreForm.Seeds.{edit_initial, clone_state, create_initial, is_unassigned}
use isachore.ChoreForm.Stored.{
  IsStored, saved, select_all, text_back, days_back, date_back, between, turns_back, manual_repeat,
  not_manual, turn_sent, current_in_pool,
}

module _ (num : Numerals) (js : Truncation num) (today_iso : Option String → String) where
  interval_back :
      (chore : Chore) (props : Props)
      → IsStored chore props
      → interval num js (initial_state num (edit_initial chore))
        ≡ finite (pos chore.repeat_interval)
  unfolding interval initial_state edit_initial
  interval_back chore props h = elim (Bool-cases (is_manual_repeat chore.repeats)) [
    | inl e ↦ rw (e, (h.never (manual_repeat chore.repeats e)).0) refl
    | inr e ↦
        rw (e, js.trunc-print chore.repeat_interval (omega (arith, h.every.1)))
          (between chore.repeat_interval h.every.0 h.every.1)
  ]

  turn_length_back :
      (chore : Chore) (props : Props)
      → IsStored chore props
      → turn_length num js (initial_state num (edit_initial chore)) ≡ turn_sent chore
  unfolding turn_length initial_state edit_initial
  turn_length_back chore props h = elim (Bool-cases (is_manual chore.assignment_type)) [
    | inl e ↦ rw e refl
    | inr e ↦ elim (Bool-cases (ltb 1 chore.turn_length)) [
      | inl f ↦
          rw (e, f, js.trunc-print chore.turn_length h.turns.1)
            (turns_back chore.turn_length (ground (arith, f)))
      | inr f ↦
          let one : chore.turn_length ≡ 1 = ground (arith, f, h.turns.0) in
          rw (e, f) (ap (λ n. finite (pos n)) (sym one))
    ]
  ]

  assignees_back :
      (chore : Chore) (props : Props)
      → IsStored chore props
      → selected_assignees props (initial_state num (edit_initial chore))
        ≡ map (λ a. a.id) chore.assignees
  unfolding selected_assignees initial_state edit_initial
  assignees_back chore props h =
      select_all (includes (map (λ m. m.id) props.members)) (map (λ a. a.id) chore.assignees) h.pool

  current_back :
      (chore : Chore) (props : Props)
      → IsStored chore props
      → current_assignee_id props (initial_state num (edit_initial chore)) ≡ current_in_pool chore
  unfolding current_assignee_id initial_state edit_initial
  current_back chore props h = rw (assignees_back chore props h) refl

  -- A chore that is opened in the edit page and submitted as it is, is sent with its own values,
  -- save that a turn is sent as one completion where the assignment is by hand, and that a current
  -- assignee who is none of the assignees is left out. This is for a chore whose schedule and
  -- description are as the API's schema makes them, whose turn a number counts exactly, and whose
  -- assignees and tags are among those of its household that the page loaded.
  pub edit-payload :
      (chore : Chore) (props : Props)
      → props.allow_assignee_override ≡ true
      → IsStored chore props
      → payload num js today_iso props (initial_state num (edit_initial chore))
        ≡ record (saved chore) {
          turn_length = turn_sent chore;
          current_assignee_id = current_in_pool chore;
        }
  unfolding payload initial_state edit_initial selected_tags
  edit-payload chore props o h =
      let picks : (is_manual chore.assignment_type || props.allow_assignee_override) ≡ true =
        ground (arith, o) in
      let description = text_back chore.description h.described in
      let start_date =
        date_back (is_manual_repeat chore.repeats) chore.start_date (today_iso props.timezone)
          (λ e. (h.never (manual_repeat chore.repeats e)).1)
          (λ e. h.dated (not_manual chore.repeats e)) in
      let turn = turn_length_back chore props h in
      let every = interval_back chore props h in
      let weekdays = days_back chore.repeats chore.weekdays h.days h.pinned in
      let assignees = assignees_back chore props h in
      let current : (if is_manual chore.assignment_type || props.allow_assignee_override
            then current_assignee_id props (initial_state num (edit_initial chore))
            else none)
          ≡ current_in_pool chore =
        rw picks (current_back chore props h) in
      let clear : ((is_manual chore.assignment_type || props.allow_assignee_override)
            && is_unassigned chore.current_assignee chore.assignees)
          ≡ is_unassigned chore.current_assignee chore.assignees =
        rw picks refl in
      let labels =
        select_all (includes (map (λ tag. tag.id) props.tags)) (map (λ tag. tag.id) chore.tags)
          h.labels in
      λ i. record {
        title = chore.title;
        description = description i;
        start_date = start_date i;
        repeats = chore.repeats;
        assignment_type = chore.assignment_type;
        turn_length = turn i;
        repeat_interval = every i;
        weekdays = weekdays i;
        assignee_ids = assignees i;
        current_assignee_id = current i;
        clear_current_assignee = clear i;
        tag_ids = labels i;
      }

  no_current : (b : Bool) (p : ℕ → Bool) → (if b then kept_if p none else none) ≡ none
  no_current true p = refl
  no_current false p = refl

  no_clear : (b : Bool) → (b && false) ≡ false
  no_clear true = refl
  no_clear false = refl

  -- A clone of a chore that is submitted as it is, in the household of the chore, is sent with the
  -- chore's own values, save that a turn is sent as one completion where the assignment is by hand,
  -- and that it leaves open who is on the hook. This is for a chore whose schedule and description
  -- are as the API's schema makes them, whose turn a number counts exactly, and whose assignees and
  -- tags are among those of its household that the page loaded.
  pub clone-payload :
      (chore : Chore) (props : Props)
      → IsStored chore props
      → payload num js today_iso props
          (initial_state num (create_initial (some (clone_state chore))))
        ≡ record (saved chore) {
          turn_length = turn_sent chore;
          current_assignee_id = none;
          clear_current_assignee = false;
        }
  unfolding payload initial_state edit_initial create_initial clone_state selected_tags interval
      turn_length selected_assignees current_assignee_id
  clone-payload chore props h =
      let s = initial_state num (create_initial (some (clone_state chore))) in
      let picks = is_manual chore.assignment_type || props.allow_assignee_override in
      let description = text_back chore.description h.described in
      let start_date =
        date_back (is_manual_repeat chore.repeats) chore.start_date (today_iso props.timezone)
          (λ e. (h.never (manual_repeat chore.repeats e)).1)
          (λ e. h.dated (not_manual chore.repeats e)) in
      let turn = turn_length_back chore props h in
      let every = interval_back chore props h in
      let weekdays = days_back chore.repeats chore.weekdays h.days h.pinned in
      let assignees = assignees_back chore props h in
      let current = no_current picks (includes (selected_assignees props s)) in
      let clear = no_clear picks in
      let labels =
        select_all (includes (map (λ tag. tag.id) props.tags)) (map (λ tag. tag.id) chore.tags)
          h.labels in
      λ i. record {
        title = chore.title;
        description = description i;
        start_date = start_date i;
        repeats = chore.repeats;
        assignment_type = chore.assignment_type;
        turn_length = turn i;
        repeat_interval = every i;
        weekdays = weekdays i;
        assignee_ids = assignees i;
        current_assignee_id = current i;
        clear_current_assignee = clear i;
        tag_ids = labels i;
      }
