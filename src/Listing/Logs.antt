-- ===== src/Listing/Logs.antt =====
-- frontend/src/pages/Logs.tsx: the filters of the activity log; frontend/src/lib/logs.ts: what an
-- action and a field are called.
use isachore.Base.{
  String, ◌≡◌, refl, sym, ◌⊎◌, inl, inr, Bool, true, false, ◌||◌, Option, none, some, List, [], ◌∷◌,
  map, any, any_sound, Memᴰ, ◌=s=◌, if◌then◌else◌, arith, eq_iff,
}
use isachore.Types.{
  LogEntry, log_actions, HistoryFilterOptions, ChoreHousehold, HouseholdMember, Membership,
}
use isachore.Permissions.{owned_household_ids}
use isachore.Permissions.Households.{mem-owned_household_ids}
use isachore.Web.Number.{Numerals}
use isachore.Web.Params.{Params}
use isachore.Web.Store.{Store}
use isachore.Web.Value.{Json}
use isachore.Table.{Filters, TableSettings, TableState, desc, has_key}
use isachore.Table.Settings.Laws.{AreUsable}
use isachore.Table.Hook.{Event, state_of}
use isachore.Table.Hook.Calls.{IsCall}
use isachore.Table.Hook.Setters.{IsSetter}
use isachore.Listing.{Listing, Act, Pruner, applied, act, acts, opened}
use isachore.Listing.Dead.{dead, set_if_any, live_filter, set_dead-IsCall, set_dead-exact}
use isachore.Listing.Names.{names_id, among, all_live, either_text, IsNamed, named, named_among}
use isachore.Listing.Kept.{AreCalls}
use isachore.Listing.Pruned.{AreOwn, filters_stay_live}

unfoldable pub is_log_action : String → Bool
is_log_action value = any (λ a. a =s= value) log_actions

abbrev pub logs_keys : List String
logs_keys = "household_id" ∷ "user_id" ∷ "action" ∷ []

abbrev pub logs_defaults : TableSettings
logs_defaults = record {
  page_size = 10;
  sort_by = "created_at";
  sort_dir = desc;
  filters = λ key. "";
}

-- `owned.has(h.id)`
unfoldable pub logs_scope : List Membership → HistoryFilterOptions → HistoryFilterOptions
logs_scope memberships o = record o {
  households = among (λ (h : ChoreHousehold). h.id) (owned_household_ids memberships) o.households;
}

unfoldable pub logs_alive : Numerals → Option HistoryFilterOptions → String → String → Bool
unfolding is_log_action
logs_alive num none key value = true
logs_alive num (some o) key value =
    if key =s= "household_id"
    then names_id num (map (λ h. h.id) o.households) value
    else if key =s= "user_id"
    then names_id num (map (λ m. m.id) o.members) value
    else if key =s= "action"
    then is_log_action value
    else true

unfoldable pub logs_prune :
    Numerals → Option HistoryFilterOptions → Filters → Option (Event LogEntry)
unfolding dead
logs_prune num none f = none
logs_prune num (some o) f = set_if_any (dead (logs_alive num (some o)) logs_keys f)

pub logs_prune-IsCall :
    (num : Numerals) (o : Option HistoryFilterOptions) (f : Filters) (e : Event LogEntry)
    → logs_prune num o f ≡ some e
    → IsCall num logs_keys e × IsSetter e
unfolding logs_prune
logs_prune-IsCall num none f e q = cc
logs_prune-IsCall num (some o) f e q =
    set_dead-IsCall (logs_alive num (some o)) f num logs_keys e (refl, (refl, (refl, tt))) q

pub logs_prune-exact :
    (num : Numerals) (o : Option HistoryFilterOptions) (s : TableState) (key : String)
    → has_key key logs_keys ≡ true
    → (applied (logs_prune num o s.filters) s).filters key
      ≡ (if live_filter (logs_alive num o) key (s.filters key) then s.filters key else "")
unfolding logs_prune logs_alive
logs_prune-exact num none s key k = sym (all_live (s.filters key =s= "") (s.filters key))
logs_prune-exact num (some o) s key k =
    set_dead-exact LogEntry (logs_alive num (some o)) logs_keys s key k

-- The dependency is the set of owned households, a new object with every change of the memberships.
unfoldable pub logs_page :
    (num : Numerals)
    → Pruner num logs_keys LogEntry (List Membership) HistoryFilterOptions HistoryFilterOptions
unfolding logs_prune logs_alive logs_scope
logs_page num = record {
  same_dep = λ a b. false;
  nothing = record { households = []; members = [] };
  scope = logs_scope;
  prune = λ d. logs_prune num;
  live = λ d o. live_filter (logs_alive num o);
  live_empty = λ d o key. refl;
  call = λ d o f e q. logs_prune-IsCall num o f e q;
  exact = λ d o s key k. logs_prune-exact num o s key k;
}

pub logs_usable : AreUsable logs_defaults
logs_usable = (omega arith, omega arith, ground (arith, eq_iff "created_at" ""))

action_named :
    (value : String)
    → (value =s= "" || is_log_action value) ≡ true
    → (value ≡ "") ⊎ Memᴰ value log_actions
unfolding is_log_action
action_named value h = elim (either_text (value =s= "") (is_log_action value) h) [
  | inl e ↦ inl ((eq_iff value "").0 e)
  | inr e ↦
      let (a, m, same) = any_sound (λ a. a =s= value) log_actions e in
      inr (rw (← (eq_iff a value).0 same) m)
]

module _ (num : Numerals) where
  household_owned :
      (ms : List Membership) (o : HistoryFilterOptions) (value : String)
      → live_filter (logs_alive num (some (logs_scope ms o))) "household_id" value ≡ true
      → (value ≡ "")
        ⊎ ((x : ChoreHousehold) × Memᴰ x o.households
            × ((m : Membership) × Memᴰ m ms × (m.owned ≡ true) × (m.household_id ≡ x.id))
            × (num.print x.id ≡ value))
  unfolding logs_alive logs_scope
  household_owned ms o value h =
      elim (named_among num (λ (x : ChoreHousehold). x.id) (owned_household_ids ms) o.households
        value h) [
          | inl e ↦ inl e
          | inr (x, m, i, q) ↦ inr (x, m, (mem-owned_household_ids ms).0 i, q)
        ]

  user-IsNamed :
      (ms : List Membership) (o : HistoryFilterOptions) (value : String)
      → live_filter (logs_alive num (some (logs_scope ms o))) "user_id" value ≡ true
      → IsNamed num (λ (x : HouseholdMember). x.id) o.members value
  unfolding logs_alive logs_scope
  user-IsNamed ms o value h = named num (λ (x : HouseholdMember). x.id) o.members value h

  action_known :
      (ms : List Membership) (o : HistoryFilterOptions) (value : String)
      → live_filter (logs_alive num (some (logs_scope ms o))) "action" value ≡ true
      → (value ≡ "") ⊎ Memᴰ value log_actions
  unfolding logs_alive
  action_known ms o value h = action_named value h

  module _ (json : Json) (params : Params) (store : Store) (ms : List Membership) where
    abbrev pub logs_after :
        List (Act LogEntry (List Membership) HistoryFilterOptions)
        → Listing LogEntry (List Membership) HistoryFilterOptions
    logs_after as_done =
        acts num json logs_keys (some "logs") logs_defaults (logs_page num) as_done
          (opened num json logs_keys (some "logs") logs_defaults (logs_page num) params store ms)

    abbrev pub logs_filters : Listing LogEntry (List Membership) HistoryFilterOptions → Filters
    logs_filters h = (state_of num json logs_keys (some "logs") logs_defaults h.table).filters

    abbrev pub logs_settled :
        HistoryFilterOptions
        → List (Act LogEntry (List Membership) HistoryFilterOptions)
        → Listing LogEntry (List Membership) HistoryFilterOptions
        → Listing LogEntry (List Membership) HistoryFilterOptions
    logs_settled answer after h =
        acts num json logs_keys (some "logs") logs_defaults (logs_page num) after (
          act num json logs_keys (some "logs") logs_defaults (logs_page num)
            (Act.options_settled (some answer)) h)

    -- However the activity log was used since it opened, from any query string and any storage,
    -- once the choices have come, and for as long as the user stays on the page, uses its own
    -- controls and has the same memberships: a household that the log is filtered by is one of the
    -- answer's that the user owns, a person is one of the answer's, and an action is one of the five
    -- that the application knows.
    pub logs_filters_offered :
        (before after : List (Act LogEntry (List Membership) HistoryFilterOptions))
        (answer : HistoryFilterOptions)
        → AreCalls num json logs_keys (some "logs") logs_defaults (logs_page num) before
        → (logs_after before).asked ≡ true
        → AreOwn num json logs_keys
            (some "logs")
            logs_defaults
            (logs_page num)
            (logs_after before).dep
            (some (logs_scope (logs_after before).dep answer))
            after
        → let owner = (logs_after before).dep in
          let f = logs_filters (logs_settled answer after (logs_after before)) in
          ((f "household_id" ≡ "")
            ⊎ ((x : ChoreHousehold) × Memᴰ x answer.households
                × ((m : Membership) × Memᴰ m owner × (m.owned ≡ true) × (m.household_id ≡ x.id))
                × (num.print x.id ≡ f "household_id")))
          × IsNamed num (λ (x : HouseholdMember). x.id) answer.members (f "user_id")
          × ((f "action" ≡ "") ⊎ Memᴰ (f "action") log_actions)
    unfolding logs_page
    logs_filters_offered before after answer c asked own =
        let h = logs_after before in
        let live : (key : String)
            → has_key key logs_keys ≡ true
            → live_filter (logs_alive num (some (logs_scope h.dep answer))) key
                (logs_filters (logs_settled answer after h) key)
              ≡ true =
          λ key k.
            filters_stay_live num json logs_keys (some "logs") logs_defaults (logs_page num) params
              store ms before (some answer) after key (refl, refl, refl, refl) logs_usable
              (λ _ _. refl) c k asked own in
        (
          household_owned h.dep answer _ (live "household_id" refl),
          user-IsNamed h.dep answer _ (live "user_id" refl),
          action_known h.dep answer _ (live "action" refl),
        )
