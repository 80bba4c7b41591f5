-- ===== src/Permissions.antt =====
-- frontend/src/lib/permissions.ts: the role ladder, and what a member may see or set.
-- A `Set` of ids is the list of its elements, in insertion order and without repetition.
pub mod Ladder
pub mod Households
pub mod Assignable
mod Tests
use isachore.Base.{
  ℕ, ◌+◌, ◌-◌, ◌++◌, Bool, true, false, not, ◌&&◌, Option, none, some, List, [], ◌∷◌, map, length,
  any, select, find, leb, ◌==◌, if◌then◌else◌,
}
use isachore.Types.{HouseholdRole, organiser, deputy, helper, household_roles, Membership}

abbrev pub role_eq : HouseholdRole → HouseholdRole → Bool
role_eq organiser organiser = true
role_eq deputy deputy = true
role_eq helper helper = true
role_eq _ _ = false

-- `RANK`: the entry of a role is `HOUSEHOLD_ROLES.length - 1 - i` at its index `i` of the tuple.
index_of : HouseholdRole → List HouseholdRole → ℕ → ℕ
index_of role [] i = i
index_of role (r ∷ rs) i = let rest = index_of role rs (i + 1) in if role_eq r role then i else rest

unfoldable pub rank : HouseholdRole → ℕ
unfolding index_of
rank role = length household_roles - 1 - index_of role household_roles 0

-- Whether `role` grants at least everything `min` grants.
unfoldable pub role_at_least : HouseholdRole → HouseholdRole → Bool
unfolding rank
role_at_least role min = leb (rank min) (rank role)

unfoldable pub has_role_somewhere : List Membership → HouseholdRole → Bool
has_role_somewhere memberships min = any (λ m. role_at_least m.role min) memberships

found_at_least : Option Membership → HouseholdRole → Bool
found_at_least none min = false
found_at_least (some m) min = role_at_least m.role min

unfoldable pub has_role_in : List Membership → ℕ → HouseholdRole → Bool
unfolding found_at_least
has_role_in memberships household_id min =
    found_at_least (find (λ m. m.household_id == household_id) memberships) min

-- `new Set(ids)`
add_new : List ℕ → ℕ → List ℕ
add_new seen id = if any (λ k. k == id) seen then seen else seen ++ id ∷ []

set_of : List ℕ → List ℕ → List ℕ
unfolding add_new
set_of seen [] = seen
set_of seen (id ∷ ids) = set_of (add_new seen id) ids

unfoldable pub household_ids_with_role : List Membership → HouseholdRole → List ℕ
unfolding set_of
household_ids_with_role memberships min =
    set_of [] (map (λ m. m.household_id) (select (λ m. role_at_least m.role min) memberships))

unfoldable pub owns_any_household : List Membership → Bool
owns_any_household memberships = any (λ m. m.owned) memberships

unfoldable pub owned_household_ids : List Membership → List ℕ
unfolding set_of
owned_household_ids memberships =
    set_of [] (map (λ m. m.household_id) (select (λ m. m.owned) memberships))

is_organiser : Option HouseholdRole → Bool
is_organiser none = false
is_organiser (some role) = role_eq role organiser

-- The roles that the viewer may set on the target; empty means no control.
unfoldable pub assignable_roles :
    (viewer_unrestricted : Bool) (viewer_role : Option HouseholdRole) (target_is_owner : Bool)
    (target_role : HouseholdRole)
    → List HouseholdRole
unfolding is_organiser
assignable_roles viewer_unrestricted viewer_role target_is_owner target_role =
    if target_is_owner
    then []
    else if viewer_unrestricted
    then household_roles
    else if is_organiser viewer_role && not (role_eq target_role organiser)
    then select (λ role. not (role_eq role organiser)) household_roles
    else []
