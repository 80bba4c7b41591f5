-- ===== src/Table/Hook/Tests.antt =====
-- A visit to the administrators' user list.
use isachore.Base.{ℕ, ◌+◌, ◌≤◌, ◌≡◌, refl, true, false, none, some, List, [], ◌∷◌, arith, eq_iff}
use isachore.Web.Tally.{tally, tally_number}
use isachore.Table.{asc, SameState}
use isachore.Table.Settings.Laws.{AreUsable}
use isachore.Table.Tests.{fk, initial, shared, one_object, linked}
use isachore.Table.Hook.{
  Hook, Event, Answer, defined, page_count, mount, step, state_of, query_of, first_render,
  save_effect,
}
use isachore.Table.Hook.Loading.{run, mount-Inv, loading_ends}
use isachore.Web.Number.{max_safe}
use isachore.Table.Hook.Commit.{Inv}
use isachore.Table.View.{next_disabled, next_event, previous_disabled, previous_event, buttons_stay}
use isachore.Table.Hook.Setters.{intend, step-intend}

usable : AreUsable initial
usable = (omega arith, omega arith, ground (arith, eq_iff "created_at" ""))

abbrev visit : List (Event ℕ)
visit =
    Event.set_page 2
    ∷ Event.answer (Answer.api_error 400 "No such column")
    ∷ Event.set_filters (("email", some "ann") ∷ ("role", none) ∷ [])
    ∷ Event.reload
    ∷ []

abbrev opened : Hook ℕ
opened = mount tally one_object fk (some "admin-users") initial linked shared

page_tests : (page_count 0 10 ≡ 1) × (page_count 20 10 ≡ 2) × (page_count 21 10 ≡ 3)
unfolding page_count
page_tests = (refl, refl, refl)

loading_ends_example :
    let h = run tally one_object fk (some "admin-users") initial visit opened in
    (h.fetched ≡ query_of tally one_object fk (some "admin-users") initial h)
    × (h.loading ≡ true → h.pending ≡ true)
    × (h.pending ≡ true
        → (step tally one_object fk
            (some "admin-users")
            initial
            (Event.answer Answer.failure)
            h).loading
          ≡ false)
unfolding defined
loading_ends_example =
    loading_ends tally one_object fk (some "admin-users") initial linked shared visit Answer.failure
      (refl, refl, refl, refl) usable
      ((omega arith, tally_number 2), (tt, (((refl, tt), (refl, tt)), (tt, tt))))

step-intend_example :
    SameState fk
      (state_of tally one_object fk
        (some "admin-users")
        initial
        (step tally one_object fk (some "admin-users") initial (Event.set_sort "email" asc) opened))
      (intend {Row = ℕ}
        (Event.set_sort "email" asc)
        (state_of tally one_object fk (some "admin-users") initial opened))
step-intend_example =
    step-intend tally one_object fk (some "admin-users") initial (Event.set_sort "email" asc) opened
      (refl, refl, refl, refl) tt tt
      (mount-Inv tally one_object fk (some "admin-users") initial linked shared usable)

-- The same visit, with fifty users counted.
abbrev crowded : Hook ℕ
crowded = record opened { total = 50 }

crowded-Inv : Inv tally one_object fk (some "admin-users") initial crowded
unfolding query_of state_of
crowded-Inv =
    let i = mount-Inv tally one_object fk (some "admin-users") initial linked shared usable in
    record { fetched = i.fetched; fetched_token = i.fetched_token; busy = i.busy; size = i.size }

few_pages :
    page_count crowded.total
      (state_of tally one_object fk (some "admin-users") initial crowded).page_size
    ≤ max_safe
unfolding state_of mount page_count first_render save_effect isachore.Table.derive_state
    isachore.Web.Params.get isachore.Table.Settings.read_settings isachore.Web.Store.lookup
    isachore.Table.Settings.settings_value
few_pages = omega arith

buttons_stay_example :
    let s = state_of tally one_object fk (some "admin-users") initial crowded in
    (next_disabled s crowded.total ≡ false
      → let t =
          state_of tally one_object fk
            (some "admin-users")
            initial
            (step tally one_object fk (some "admin-users") initial (next_event s) crowded) in
        (t.page ≡ s.page + 1) × (1 ≤ t.page) × (t.page ≤ page_count crowded.total s.page_size))
    × (previous_disabled s ≡ false
        → s.page ≤ max_safe
        → let t =
            state_of tally one_object fk
              (some "admin-users")
              initial
              (step tally one_object fk (some "admin-users") initial (previous_event s) crowded) in
          (t.page + 1 ≡ s.page) × (1 ≤ t.page))
buttons_stay_example =
    buttons_stay tally one_object fk (some "admin-users") initial crowded (refl, refl, refl, refl)
      crowded-Inv few_pages
