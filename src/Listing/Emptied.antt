-- ===== src/Listing/Emptied.antt =====
-- Which filters of frontend/src/pages/Logs.tsx the answer to the request for the choices empties.
use isachore.Base.{
  ℕ, String, ◌≡◌, ◌∙◌, ◌⊎◌, inl, inr, Bool, true, false, Option, none, some, List, map,
  any_complete, mem-map, mem-select, Memᴰ, ◌=s=◌, ◌==◌, ◌||◌, if◌then◌else◌, eq_iff, ==_iff, refl,
}
use isachore.Types.{
  LogEntry, log_actions, HistoryFilterOptions, ChoreHousehold, HouseholdMember, Membership,
}
use isachore.Permissions.{owned_household_ids}
use isachore.Permissions.Households.{mem-owned_household_ids}
use isachore.Web.Number.{Numerals}
use isachore.Web.Params.{Params}
use isachore.Web.Store.{Store}
use isachore.Web.Value.{Json}
use isachore.Table.{has_key}
use isachore.Listing.{Act, act}
use isachore.Listing.Dead.{live_filter}
use isachore.Listing.Names.{names_id, among}
use isachore.Listing.Kept.{AreCalls}
use isachore.Listing.Logs.{
  logs_alive, is_log_action, logs_keys, logs_defaults, logs_scope, logs_page, logs_after,
  logs_filters, logs_usable,
}
use isachore.Listing.Pruned.{filters_settle}

-- A household of the answer that the user owns, by its id.
abbrev pub IsOwnedChoice : Numerals → List Membership → HistoryFilterOptions → String → Type 0
IsOwnedChoice num ms o value =
    (x : ChoreHousehold) × Memᴰ x o.households
    × ((m : Membership) × Memᴰ m ms × (m.owned ≡ true) × (m.household_id ≡ x.id))
    × (num.print x.id ≡ value)

abbrev pub IsPerson : Numerals → HistoryFilterOptions → String → Type 0
IsPerson num o value = (x : HouseholdMember) × Memᴰ x o.members × (num.print x.id ≡ value)

-- A filter that stays, or one that stood for nothing on offer and is empty now.
abbrev pub StaysOr : Type 0 → String → String → Type 0
StaysOr OnOffer before after = (after ≡ before) ⊎ ((OnOffer → ⊥) × (after ≡ ""))

module _ (num : Numerals) where
  names :
      {A : Type 0} (id : A → ℕ) (xs : List A) (value : String) {x : A}
      → Memᴰ x xs
      → num.print (id x) ≡ value
      → names_id num (map id xs) value ≡ true
  names id xs value {x} m e =
      any_complete (λ k. num.print k =s= value) (map id xs) (mem-map id xs m)
        ((eq_iff (num.print (id x)) value).1 e)

  either_way :
      (OnOffer : Type 0) (b : Bool) (now next : String)
      → (OnOffer → b ≡ true)
      → next ≡ (if b then now else "")
      → StaysOr OnOffer now next
  either_way OnOffer true now next f e = inl e
  either_way OnOffer false now next f e = inr (λ o. absurd (never (f o)), e)
    where
      never : false ≡ true → ⊥
      never q = cc

  with_text : (b c : Bool) → c ≡ true → (b || c) ≡ true
  with_text true c e = refl
  with_text false c e = e

  household_stays :
      (ms : List Membership) (o : HistoryFilterOptions) (value : String)
      → IsOwnedChoice num ms o value
      → live_filter (logs_alive num (some (logs_scope ms o))) "household_id" value ≡ true
  unfolding logs_alive logs_scope
  household_stays ms o value (x, m, owned, e) =
      let ids = owned_household_ids ms in
      let own : Memᴰ x.id ids = (mem-owned_household_ids ms).1 owned in
      with_text (value =s= "") _ (
        names (λ (h : ChoreHousehold). h.id) (among (λ (h : ChoreHousehold). h.id) ids o.households)
          value
          (mem-select _ o.households m
            (any_complete (λ k. k == x.id) ids own ((==_iff x.id x.id).1 refl)))
          e)

  person_stays :
      (ms : List Membership) (o : HistoryFilterOptions) (value : String)
      → IsPerson num o value
      → live_filter (logs_alive num (some (logs_scope ms o))) "user_id" value ≡ true
  unfolding logs_alive logs_scope
  person_stays ms o value (x, m, e) =
      with_text (value =s= "") _ (names (λ (h : HouseholdMember). h.id) o.members value m e)

  action_stays :
      (ms : List Membership) (o : HistoryFilterOptions) (value : String)
      → Memᴰ value log_actions
      → live_filter (logs_alive num (some (logs_scope ms o))) "action" value ≡ true
  unfolding logs_alive is_log_action
  action_stays ms o value m =
      with_text (value =s= "") _
        (any_complete (λ a. a =s= value) log_actions m ((eq_iff value value).1 refl))

  unasked_stays :
      (key value next : String)
      → next ≡ (if live_filter (logs_alive num none) key value then value else "")
      → next ≡ value
  unfolding logs_alive
  unasked_stays key value next e = e ∙ all_stay (value =s= "") value
    where
      all_stay : (b : Bool) (v : String) → (if b || true then v else "") ≡ v
      all_stay true v = refl
      all_stay false v = refl

  module _ (json : Json) (params : Params) (store : Store) (ms : List Membership) where
    -- However the activity log was used since it opened, from any query string and any storage:
    -- when the choices come, the filter by a household stays, or is emptied and was no household of
    -- the answer that the user owns; that by a person stays, or is emptied and was nobody of the
    -- answer; that by an action stays, or is emptied and was none of the five actions. When the
    -- request fails, all stay.
    pub logs_filters_settle :
        (before : List (Act LogEntry (List Membership) HistoryFilterOptions))
        (answer : HistoryFilterOptions)
        → AreCalls num json logs_keys (some "logs") logs_defaults (logs_page num) before
        → (logs_after num json params store ms before).asked ≡ true
        → let h = logs_after num json params store ms before in
          let next = λ (o : Option HistoryFilterOptions). logs_filters num json params store ms (
            act num json logs_keys
              (some "logs")
              logs_defaults
              (logs_page num)
              (Act.options_settled o)
              h) in
          let f = logs_filters num json params store ms h in
          let g = next (some answer) in
          StaysOr
            (IsOwnedChoice num h.dep answer (f "household_id"))
            (f "household_id")
            (g "household_id")
          × StaysOr (IsPerson num answer (f "user_id")) (f "user_id") (g "user_id")
          × StaysOr (Memᴰ (f "action") log_actions) (f "action") (g "action")
          × ((key : String) → has_key key logs_keys ≡ true → next none key ≡ f key)
    unfolding logs_page
    logs_filters_settle before answer c asked =
        let h = logs_after num json params store ms before in
        let f = logs_filters num json params store ms h in
        let settle =
          λ (o : Option HistoryFilterOptions) (key : String) (k : has_key key logs_keys ≡ true).
            filters_settle num json logs_keys (some "logs") logs_defaults (logs_page num) params
              store ms before o key (refl, refl, refl, refl) logs_usable c k asked in
        (
          either_way _ _ _ _ (household_stays h.dep answer (f "household_id"))
              (settle (some answer) "household_id" refl),
          either_way _ _ _ _ (person_stays h.dep answer (f "user_id"))
              (settle (some answer) "user_id" refl),
          either_way _ _ _ _ (action_stays h.dep answer (f "action"))
              (settle (some answer) "action" refl),
          λ key k. unasked_stays key (f key) _ (settle none key k),
        )
