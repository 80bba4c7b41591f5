-- ===== src/Listing/Tests.antt =====
-- Visits with a remembered household that the user has left.
use isachore.Base.{
  String, ◌≡◌, refl, ◌⊎◌, true, false, Option, none, some, List, [], ◌∷◌, Memᴰ, arith, eq_iff,
}
use isachore.Types.{
  Page, Household, ChoreHousehold, HouseholdMember, HistoryFilterOptions, Membership, Tag,
  log_actions, organiser,
}
use isachore.Permissions.{has_role_in, owned_household_ids}
use isachore.Web.Params.{Params}
use isachore.Web.Store.{Store}
use isachore.Web.Tally.{tally}
use isachore.Web.Value.{text, Json}
use isachore.Table.{has_key}
use isachore.Table.Settings.Laws.{AreUsable}
use isachore.Table.Hook.{Event, state_of}
use isachore.Listing.{Act, act, acts, opened, pick}
use isachore.Listing.Names.{IsNamed}
use isachore.Listing.History.{
  history_keys, history_after, history_settled, history_filters, history_filters_offered,
}
use isachore.Listing.Logs.{
  logs_keys, logs_defaults, logs_page, logs_after, logs_filters, logs_settled, logs_filters_offered,
}
use isachore.Listing.Emptied.{IsOwnedChoice, IsPerson, StaysOr, logs_filters_settle}
use isachore.Listing.Households.{tags_keys, tags_defaults, household_page, household_organised}

-- A parser that reads every text as the same text.
abbrev plain_json : Json
plain_json = record { stringify = λ v. "{}"; parse = λ s. some (text "") }

abbrev empty : Store
empty = record { entries = []; blocked = false; refuses = λ key value. false }

abbrev flat : ChoreHousehold
flat = record { id = 2; name = "Flat"; timezone = "UTC" }

abbrev ann : HouseholdMember
ann = record { id = 1; first_name = "Ann"; last_name = "Lee" }

abbrev choices : HistoryFilterOptions
choices = record { households = flat ∷ []; members = ann ∷ [] }

-- Household 5 was left.
abbrev linked : Params
linked = ("household_id", "11111") ∷ ("user_id", "1") ∷ []

usable_tags : AreUsable tags_defaults
usable_tags = (omega arith, omega arith, ground (arith, eq_iff "name" ""))

abbrev owner : List Membership
owner = record { household_id = 2; role = organiser; owned = true } ∷ []

-- Afterwards the log is filtered by the one household that is left.
logs_filters_offered_example :
    let start = logs_after tally plain_json linked empty owner [] in
    let f = logs_filters tally plain_json linked empty owner (
      logs_settled tally plain_json linked empty owner choices
        (Act.on_table (pick "household_id" "11") ∷ [])
        start) in
    ((f "household_id" ≡ "")
      ⊎ ((x : ChoreHousehold) × Memᴰ x choices.households
          × ((m : Membership) × Memᴰ m start.dep × (m.owned ≡ true) × (m.household_id ≡ x.id))
          × (tally.print x.id ≡ f "household_id")))
    × IsNamed tally (λ (x : HouseholdMember). x.id) choices.members (f "user_id")
    × ((f "action" ≡ "") ⊎ Memᴰ (f "action") log_actions)
unfolding acts opened logs_page owned_household_ids
logs_filters_offered_example =
    logs_filters_offered tally plain_json linked empty owner []
      (Act.on_table (pick "household_id" "11") ∷ []) choices tt refl ((refl, refl), tt)

-- The household that was left is emptied, the person stays.
logs_filters_settle_example :
    let h = logs_after tally plain_json linked empty owner [] in
    let next = λ (o : Option HistoryFilterOptions).
      logs_filters tally plain_json linked empty owner (
        act tally plain_json logs_keys
          (some "logs")
          logs_defaults
          (logs_page tally)
          (Act.options_settled o)
          h) in
    let f = logs_filters tally plain_json linked empty owner h in
    let g = next (some choices) in
    StaysOr
      (IsOwnedChoice tally h.dep choices (f "household_id"))
      (f "household_id")
      (g "household_id")
    × StaysOr (IsPerson tally choices (f "user_id")) (f "user_id") (g "user_id")
    × StaysOr (Memᴰ (f "action") log_actions) (f "action") (g "action")
    × ((key : String) → has_key key logs_keys ≡ true → next none key ≡ f key)
unfolding acts opened
logs_filters_settle_example =
    logs_filters_settle tally plain_json linked empty owner [] choices tt refl

-- A helper everywhere, with a filter from better days and a request that fails.
history_filters_offered_example :
    let start = history_after tally plain_json linked empty false [] in
    let f = history_filters tally plain_json linked empty false (
      history_settled tally plain_json linked empty false none
        (Act.on_table Event.reload ∷ [])
        start) in
    (start.dep ≡ false → (key : String) → has_key key history_keys ≡ true → f key ≡ "")
    × ((o : HistoryFilterOptions)
        → none ≡ some o
        → start.dep ≡ true
        → IsNamed tally (λ (x : ChoreHousehold). x.id) o.households (f "household_id")
          × IsNamed tally (λ (x : HouseholdMember). x.id) o.members (f "user_id"))
unfolding acts opened
history_filters_offered_example =
    history_filters_offered tally plain_json linked empty false [] (Act.on_table Event.reload ∷ [])
      none tt refl ((tt, tt), tt)

abbrev kept : Household
kept = record {
  id = 2;
  name = "Flat";
  admin_id = 1;
  timezone = "UTC";
  created_at = "2025-01-01T00:00:00Z";
  deleted_at = none;
  member_count = 1;
  chore_count = 0;
}

abbrev households : Page Household
households = record { items = kept ∷ []; total = 1; page = 1; page_size = 100 }

household_organised_example :
    let h =
      opened tally plain_json tags_keys
        (some "tags")
        tags_defaults
        (household_page tally tags_keys Tag refl)
        linked
        empty
        owner in
    let value =
      (state_of tally plain_json tags_keys
          (some "tags")
          tags_defaults
          (act tally plain_json tags_keys
            (some "tags")
            tags_defaults
            (household_page tally tags_keys Tag refl)
            (Act.options_settled (some households))
            h).table).filters
        "household_id" in
    (value ≡ "")
    ⊎ ((x : Household) × Memᴰ x households.items
        × (has_role_in h.dep x.id organiser ≡ true)
        × (tally.print x.id ≡ value))
unfolding acts opened
household_organised_example =
    household_organised tally tags_keys Tag refl plain_json (some "tags") tags_defaults linked empty
      owner [] [] households (refl, refl, refl, refl) usable_tags (λ k _. refl) tt refl (refl, tt)
      tt
