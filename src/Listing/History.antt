-- ===== src/Listing/History.antt =====
-- frontend/src/pages/History.tsx: the filters, and whom an entry's undo is offered to.
use isachore.Base.{
  String, ◌≡◌, refl, inl, inr, Bool, true, false, not, ◌||◌, Option, none, some, List, [], ◌∷◌, map,
  ◌==◌, ◌=s=◌, if◌then◌else◌, arith, eq_iff,
}
use isachore.Types.{
  HistoryEntry, HistoryFilterOptions, ChoreHousehold, HouseholdMember, Membership, deputy,
  organiser, User,
}
use isachore.Permissions.{has_role_somewhere, has_role_in}
use isachore.Web.Number.{Numerals}
use isachore.Web.Params.{Params}
use isachore.Web.Store.{Store}
use isachore.Web.Value.{Json}
use isachore.Table.{Filters, TableSettings, desc, has_key}
use isachore.Table.Settings.Laws.{AreUsable}
use isachore.Table.Hook.{Event, state_of}
use isachore.Listing.{Listing, Act, Pruner, scoped, act, acts, opened}
use isachore.Listing.Names.{names_id, either_text, IsNamed, named}
use isachore.Listing.Dead.{dead, set_if_any, live_filter, set_dead-IsCall, set_dead-exact}
use isachore.Listing.Kept.{AreCalls}
use isachore.Listing.Pruned.{AreOwn, filters_stay_live}

abbrev pub history_keys : List String
history_keys = "user_id" ∷ "household_id" ∷ "outcome" ∷ []

abbrev pub history_defaults : TableSettings
history_defaults = record {
  page_size = 10;
  sort_by = "created_at";
  sort_dir = desc;
  filters = λ key. "";
}

-- Not to be dropped, `shown` being whether the filter bar is on screen.
unfoldable pub history_alive :
    Numerals → Bool → Option HistoryFilterOptions → String → String → Bool
history_alive num false offered key value = false
history_alive num true none key value = true
history_alive num true (some o) key value =
    if key =s= "household_id"
    then names_id num (map (λ h. h.id) o.households) value
    else if key =s= "user_id"
    then names_id num (map (λ m. m.id) o.members) value
    else true

unfoldable pub history_prune :
    Numerals → Bool → Option HistoryFilterOptions → Filters → Option (Event HistoryEntry)
unfolding dead
history_prune num shown offered f =
    set_if_any (dead (history_alive num shown offered) history_keys f)

-- The dependency is whether the bar is shown, a Boolean.
abbrev pub same_bool : Bool → Bool → Bool
same_bool true b = b
same_bool false b = not b

unfoldable pub history_page :
    (num : Numerals)
    → Pruner num history_keys HistoryEntry Bool HistoryFilterOptions HistoryFilterOptions
unfolding history_prune history_alive
history_page num = record {
  same_dep = same_bool;
  nothing = record { households = []; members = [] };
  scope = λ shown o. o;
  prune = history_prune num;
  live = λ shown o. live_filter (history_alive num shown o);
  live_empty = λ d o key. refl;
  call = λ d o f e q.
      set_dead-IsCall (history_alive num d o) f num history_keys e (refl, (refl, (refl, tt))) q;
  exact = λ d o s key k. set_dead-exact HistoryEntry (history_alive num d o) history_keys s key k;
}

-- `showFilters`
unfoldable pub show_filters : List Membership → Bool
show_filters memberships = has_role_somewhere memberships deputy

abbrev pub completed_by_user : Option User → Option HouseholdMember → Bool
completed_by_user (some user) (some m) = m.id == user.id
completed_by_user _ _ = false

-- `mine` and `canUndo`
unfoldable pub is_mine : Option User → HistoryEntry → Bool
is_mine user entry = completed_by_user user entry.completed_by

unfoldable pub can_undo : Option User → List Membership → HistoryEntry → Bool
unfolding is_mine
can_undo user memberships entry =
    is_mine user entry || has_role_in memberships entry.household.id organiser

history_usable : AreUsable history_defaults
history_usable = (omega arith, omega arith, ground (arith, eq_iff "created_at" ""))

module _ (num : Numerals) where
  hidden_empty :
      (o : Option HistoryFilterOptions) (key value : String)
      → live_filter (history_alive num false o) key value ≡ true
      → value ≡ ""
  unfolding history_alive
  hidden_empty o key value h =
      elim (either_text (value =s= "") (history_alive num false o key value) h) [
        | inl e ↦ (eq_iff value "").0 e
        | inr e ↦ absurd (never e)
      ]
    where
      never : false ≡ true → ⊥
      never e = cc

  without_bar :
      (d : Bool) (o : Option HistoryFilterOptions) (key value : String)
      → d ≡ false
      → live_filter (history_alive num d o) key value ≡ true
      → live_filter (history_alive num false o) key value ≡ true
  without_bar d o key value e h = rw e at h

  with_bar :
      (d : Bool) (answer : Option HistoryFilterOptions) (o : HistoryFilterOptions)
      (key value : String)
      → d ≡ true
      → answer ≡ some o
      → live_filter (history_alive num d (scoped (λ x y. y) d answer)) key value ≡ true
      → live_filter (history_alive num true (some o)) key value ≡ true
  with_bar d answer o key value e q h = rw (e, q) at h

  module _ (json : Json) (params : Params) (store : Store) (shown : Bool) where
    abbrev pub history_after :
        List (Act HistoryEntry Bool HistoryFilterOptions)
        → Listing HistoryEntry Bool HistoryFilterOptions
    history_after as_done =
        acts num json history_keys (some "history") history_defaults (history_page num) as_done (
          opened num json history_keys (some "history") history_defaults (history_page num) params
            store shown)

    abbrev pub history_filters : Listing HistoryEntry Bool HistoryFilterOptions → Filters
    history_filters h =
        (state_of num json history_keys (some "history") history_defaults h.table).filters

    abbrev pub history_settled :
        Option HistoryFilterOptions
        → List (Act HistoryEntry Bool HistoryFilterOptions)
        → Listing HistoryEntry Bool HistoryFilterOptions
        → Listing HistoryEntry Bool HistoryFilterOptions
    history_settled answer after h =
        acts num json history_keys (some "history") history_defaults (history_page num) after (
          act num json history_keys (some "history") history_defaults (history_page num)
            (Act.options_settled answer) h)

    -- However the history was used since it opened, once the request for the choices is over, and
    -- for as long as the user stays on the page with the same memberships: without the bar of
    -- filters no filter is applied, though the request failed; with the bar, and the choices there,
    -- the household and the person that are filtered by are among them.
    pub history_filters_offered :
        (before after : List (Act HistoryEntry Bool HistoryFilterOptions))
        (answer : Option HistoryFilterOptions)
        → AreCalls num json history_keys (some "history") history_defaults (history_page num) before
        → (history_after before).asked ≡ true
        → AreOwn num json history_keys
            (some "history")
            history_defaults
            (history_page num)
            (history_after before).dep
            (scoped (λ d o. o) (history_after before).dep answer)
            after
        → let f = history_filters (history_settled answer after (history_after before)) in
          ((history_after before).dep ≡ false
            → (key : String) → has_key key history_keys ≡ true
            → f key ≡ "")
          × ((o : HistoryFilterOptions)
              → answer ≡ some o
              → (history_after before).dep ≡ true
              → IsNamed num (λ (x : ChoreHousehold). x.id) o.households (f "household_id")
                × IsNamed num (λ (x : HouseholdMember). x.id) o.members (f "user_id"))
    unfolding history_page history_alive
    history_filters_offered before after answer c asked own =
        let h = history_after before in
        let offered = scoped (λ d o. o) h.dep answer in
        let f = history_filters (history_settled answer after h) in
        let live : (key : String)
            → has_key key history_keys ≡ true
            → live_filter (history_alive num h.dep offered) key (f key) ≡ true =
          λ key k.
            filters_stay_live num json history_keys (some "history") history_defaults
              (history_page num) params store shown before answer after key (refl, refl, refl, refl)
              history_usable (λ _ _. refl) c k asked own in
        (
          λ hidden key k.
              hidden_empty offered key (f key)
                (without_bar h.dep offered key (f key) hidden (live key k)),
          λ o q bar. (
            named num (λ (x : ChoreHousehold). x.id) o.households (f "household_id")
                (with_bar h.dep answer o "household_id" (f "household_id") bar q
                  (live "household_id" refl)),
            named num (λ (x : HouseholdMember). x.id) o.members (f "user_id")
                (with_bar h.dep answer o "user_id" (f "user_id") bar q (live "user_id" refl)),
          ),
        )
