-- ===== src/Permissions/Ladder.antt =====
-- The order of the roles.
use isachore.Base.{◌≡◌, ◌⊎◌, true, arith}
use isachore.Types.{HouseholdRole, organiser, helper}
use isachore.Permissions.{role_at_least}

-- `role_at_least` is a total order of the roles with the organiser at the top and the helper at
-- the bottom: any two roles compare, it is transitive, and roles that grant each other are equal.
pub role_at_least-total_order :
    (a b c : HouseholdRole)
    → ((role_at_least a b ≡ true) ⊎ (role_at_least b a ≡ true))
      × (role_at_least a b ≡ true → role_at_least b c ≡ true → role_at_least a c ≡ true)
      × (role_at_least a b ≡ true → role_at_least b a ≡ true → a ≡ b)
      × (role_at_least organiser a ≡ true)
      × (role_at_least a helper ≡ true)
unfolding role_at_least
role_at_least-total_order a b c =
    (ground arith, ground arith, ground arith, ground arith, ground arith)
