-- ===== src/Permissions/Tests.antt =====
-- Permissions at concrete memberships.
use isachore.Base.{◌≡◌, refl, true, false, none, some, List, [], ◌∷◌}
use isachore.Types.{organiser, deputy, helper, Membership}
use isachore.Permissions.{
  role_at_least, has_role_in, household_ids_with_role, owned_household_ids, assignable_roles,
}

-- An organiser in household 7, a helper in household 9, which is their own.
abbrev ann : List Membership
ann =
    record { household_id = 7; role = organiser; owned = false }
    ∷ record { household_id = 9; role = helper; owned = true }
    ∷ []

picker_tests :
    (household_ids_with_role ann deputy ≡ 7 ∷ [])
    × (household_ids_with_role ann helper ≡ 7 ∷ 9 ∷ [])
    × (has_role_in ann 9 deputy ≡ false)
    × (owned_household_ids ann ≡ 9 ∷ [])
unfolding household_ids_with_role has_role_in owned_household_ids role_at_least
picker_tests = (refl, refl, refl, refl)

role_tests :
    (assignable_roles false (some organiser) false helper ≡ deputy ∷ helper ∷ [])
    × (assignable_roles true none true deputy ≡ [])
unfolding assignable_roles
role_tests = (refl, refl)
