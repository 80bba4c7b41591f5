-- ===== src/Permissions/Assignable.antt =====
-- Which roles the members table offers.
use isachore.Base.{
  ◌≡◌, ◌≢◌, ◌↔◌, ◌⊎◌, inl, inr, Bool, true, false, Option, none, some, [], ◌∷◌, Memᴰ, arith,
}
use isachore.Base.{refl}
use isachore.Types.{HouseholdRole, organiser, deputy, helper, household_roles}
use isachore.Permissions.{assignable_roles}

-- The rule of the API: never the owner's own row; otherwise anything for the unrestricted viewer,
-- and for an organiser any change that neither takes nor gives the role of organiser.
abbrev pub MaySet : Bool → Option HouseholdRole → Bool → HouseholdRole → HouseholdRole → Type 0
MaySet unrestricted viewer target_is_owner target role =
    (target_is_owner ≡ false)
    × ((unrestricted ≡ true)
        ⊎ ((viewer ≡ some organiser) × (target ≢ organiser) × (role ≢ organiser)))

every_role : (role : HouseholdRole) → Memᴰ role household_roles
every_role organiser = Memᴰ.head refl
every_role deputy = Memᴰ.tail (Memᴰ.head refl)
every_role helper = Memᴰ.tail (Memᴰ.tail (Memᴰ.head refl))

lower_iff : (role : HouseholdRole) → Memᴰ role (deputy ∷ helper ∷ []) ↔ (role ≢ organiser)
lower_iff organiser = (λ m _. organiser_not_lower m, λ n. absurd (n refl))
  where
    organiser_not_lower : Memᴰ organiser (deputy ∷ helper ∷ []) → ⊥
    organiser_not_lower (Memᴰ.head e) = cc
    organiser_not_lower (Memᴰ.tail (Memᴰ.head e)) = cc
    organiser_not_lower (Memᴰ.tail (Memᴰ.tail m)) = elim m [ ]
lower_iff deputy = (λ _. λ e. cc, λ _. Memᴰ.head refl)
lower_iff helper = (λ _. λ e. cc, λ _. Memᴰ.tail (Memᴰ.head refl))

-- The control offers a role exactly when the rule allows to set it.
pub mem-assignable_roles :
    (unrestricted : Bool) (viewer : Option HouseholdRole) (target_is_owner : Bool)
    (target role : HouseholdRole)
    → Memᴰ role (assignable_roles unrestricted viewer target_is_owner target)
      ↔ MaySet unrestricted viewer target_is_owner target role
unfolding assignable_roles
mem-assignable_roles u v true t role = (λ m. elim m [ ], λ h. absurd (ground arith))
mem-assignable_roles true v false t role = (λ _. (refl, inl refl), λ _. every_role role)
mem-assignable_roles false none false t role = (λ m. elim m [ ], λ h. absurd (ground arith))
mem-assignable_roles false (some organiser) false organiser role =
    (λ m. elim m [ ], λ h. absurd (ground arith))
mem-assignable_roles false (some organiser) false t role = (
  λ m. (refl, inr (refl, ground arith, (lower_iff role).0 m)),
  λ h. (lower_iff role).1 (ground arith),
)
mem-assignable_roles false (some _) false t role = (λ m. elim m [ ], λ h. absurd (ground arith))
