-- ===== src/ChoreCreate.antt =====
-- The page that creates a chore, frontend/src/pages/ChoreCreate.tsx: the choice of the household
-- and what the form's pickers offer. The form itself is ChoreForm.
--
-- The answer to a request of an effect that was cancelled changes nothing, so only the last
-- effect's request is kept: `asking` for the households, `request` for the pickers.
pub mod Pickers
mod Tests
use isachore.Base.{
  ℕ, String, Bool, true, false, not, ◌&&◌, Option, none, some, List, [], ◌∷◌, map, select, any,
  find, length, ◌==◌, if◌then◌else◌,
}
use isachore.Types.{ChoreCloneState, Household, HouseholdMember, Tag, Membership, organiser}
use isachore.Permissions.{household_ids_with_role}
use isachore.Feed.{error_text}
use isachore.Web.Number.{Numerals}
use isachore.Web.Whole.{Truncation}
use isachore.ChoreForm.{ChoreSubmit, Props, FormState, includes, payload}

-- What a request ends with; a failure has a message if it is an `ApiError`.
pub data Answer (D : Type 0) : Type 0 where
  got : D → Answer D
  failed : Option String → Answer D

pub record CreatePage : Type 0 where
  pub households : List Household
  pub household_id : Option ℕ
  pub members : List HouseholdMember
  pub tags : List Tag
  pub options_household_id : Option ℕ
  pub loading : Bool
  pub error : Option String
  pub asking : Bool
  pub request : Option ℕ

-- `organised.has(id)`
unfoldable pub is_organised : List Membership → ℕ → Bool
is_organised memberships id = includes (household_ids_with_role memberships organiser) id

abbrev pub seed_household : List Membership → Option ChoreCloneState → Option ℕ
seed_household memberships none = none
seed_household memberships (some clone) =
    if is_organised memberships clone.household_id then some clone.household_id else none

-- The page as it opens, with the effects of the first render.
unfoldable pub start : List Membership → Option ChoreCloneState → CreatePage
start memberships clone = record {
  households = [];
  household_id = seed_household memberships clone;
  members = [];
  tags = [];
  options_household_id = none;
  loading = true;
  error = none;
  asking = true;
  request = seed_household memberships clone;
}

-- `cur ?? mine[0]?.id ?? null`
abbrev pub first_id : List Household → Option ℕ
first_id [] = none
first_id (h ∷ hs) = some h.id

-- `setHouseholds`, `setHouseholdId` and the effect that follows a new choice.
abbrev pub with_households : List Household → Option ℕ → CreatePage → CreatePage
with_households mine none p = record p {
  households = mine;
  household_id = first_id mine;
  request = first_id mine;
}
with_households mine (some id) p = record p { households = mine }

unfoldable pub households_settled :
    List Membership → String → Bool → Answer (List Household) → CreatePage → CreatePage
households_settled memberships load_error false a p = p
households_settled memberships load_error true (got items) p =
    with_households (select (λ h. is_organised memberships h.id) items) p.household_id
      (record p { loading = false; asking = false })
households_settled memberships load_error true (failed message) p = record p {
  error = some (error_text message load_error);
  loading = false;
  asking = false;
}

-- What the pickers of a household offer.
pub record Options : Type 0 where
  pub members : List HouseholdMember
  pub tags : List Tag

unfoldable pub options_settled : String → Option ℕ → Answer Options → CreatePage → CreatePage
options_settled load_error none a p = p
options_settled load_error (some id) (got o) p = record p {
  members = o.members;
  tags = o.tags;
  options_household_id = some id;
  request = none;
}
options_settled load_error (some id) (failed message) p = record p {
  error = some (error_text message load_error);
  request = none;
}

abbrev pub is_same : Option ℕ → ℕ → Bool
is_same none id = false
is_same (some x) id = x == id

-- Another choice in the select, which offers the households of the page, and its effect.
unfoldable pub choose : ℕ → CreatePage → CreatePage
choose id p =
    if any (λ h. h.id == id) p.households && not (is_same p.household_id id)
    then record p { household_id = some id; request = some id }
    else p

-- `again` is a change of the language, on which both effects depend.
pub data Event : Type 0 where
  households_answer : Answer (List Household) → Event
  options_answer : Answer Options → Event
  select_household : ℕ → Event
  again : Event

module _ (memberships : List Membership) (load_error : String) where
  unfoldable pub step : Event → CreatePage → CreatePage
  unfolding households_settled options_settled choose
  step (households_answer a) p = households_settled memberships load_error p.asking a p
  step (options_answer a) p = options_settled load_error p.request a p
  step (select_household id) p = choose id p
  step again p = record p { asking = true; request = p.household_id }

  unfoldable pub run : List Event → CreatePage → CreatePage
  run [] p = p
  run (e ∷ es) p = run es (step e p)

-- `households.find((h) => h.id === householdId)?.timezone`
abbrev pub zone_of : Option Household → Option String
zone_of none = none
zone_of (some h) = some h.timezone

unfoldable pub timezone : CreatePage → Option String
timezone p = zone_of (find (λ h. is_same p.household_id h.id) p.households)

-- What the page hands to the form.
unfoldable pub form_props : CreatePage → Props
unfolding timezone
form_props p = record {
  members = p.members;
  tags = p.tags;
  timezone = timezone p;
  allow_assignee_override = false;
}

-- How many of the clone's ids are none of these.
abbrev pub dropped : List ℕ → List ℕ → ℕ
dropped ids cloned = length (select (λ id. not (includes ids id)) cloned)

unfoldable pub dropped_assignees : CreatePage → Option ChoreCloneState → ℕ
dropped_assignees p none = 0
dropped_assignees p (some clone) = dropped (map (λ m. m.id) p.members) clone.assignee_ids

unfoldable pub dropped_tags : CreatePage → Option ChoreCloneState → ℕ
dropped_tags p none = 0
dropped_tags p (some clone) = dropped (map (λ tag. tag.id) p.tags) clone.tag_ids

-- `{ household_id: householdId, ...values }`
pub record ChoreBody : Type 0 where
  pub household_id : Option ℕ
  pub values : ChoreSubmit

unfoldable pub submitted :
    (num : Numerals)
    → Truncation num
    → (Option String → String)
    → CreatePage
    → FormState
    → ChoreBody
unfolding form_props
submitted num js today_iso p s = record {
  household_id = p.household_id;
  values = payload num js today_iso (form_props p) s;
}
