-- ===== src/Guards/Open.antt =====
-- Which pages outside, and to whom.
use isachore.Base.{
  ℕ, ◌≡◌, refl, ◌↔◌, Bool, true, false, Option, none, some, List, [], ◌∷◌, Memᴰ, if◌then◌else◌,
}
use isachore.Types.{User, HouseholdRole, deputy, organiser}
use isachore.Permissions.{has_role_in, owned_household_ids}
use isachore.Permissions.Households.{
  HasDistinctHouseholds, has_role_somewhere_iff, owns_any_household_iff,
}
use isachore.Auth.{Auth}
use isachore.Guards.{
  Guard, require_auth, require_role, require_owner, require_admin, Rendered, outlet, to_home,
  is_admin, auth_outlet, decide, within, nested, Screen, Area, outside, account, area, guards, app,
}

-- What a guard asks of the session.
abbrev Needs : Auth → Guard → Type 0
Needs h require_auth = (h.loading ≡ false) × ((u : User) × (h.user ≡ some u))
Needs h (require_role min) = (id : ℕ) × (has_role_in h.memberships id min ≡ true)
Needs h require_owner = (id : ℕ) × Memᴰ id (owned_household_ids h.memberships)
Needs h require_admin = (u : User) × ((h.user ≡ some u) × (u.is_admin ≡ true))

abbrev NeedsAll : Auth → List Guard → Type 0
NeedsAll h [] = Unit
NeedsAll h (g ∷ gs) = Needs h g × NeedsAll h gs

-- Who may open which page, page by page.
abbrev pub IsSignedIn : Auth → Type 0
IsSignedIn h = (h.loading ≡ false) × ((u : User) × (h.user ≡ some u))

abbrev pub IsGranted : Auth → HouseholdRole → Type 0
IsGranted h role = (id : ℕ) × (has_role_in h.memberships id role ≡ true)

abbrev pub IsOwner : Auth → Type 0
IsOwner h = (id : ℕ) × Memᴰ id (owned_household_ids h.memberships)

abbrev pub IsAdmin : Auth → Type 0
IsAdmin h = (u : User) × ((h.user ≡ some u) × (u.is_admin ≡ true))

abbrev pub MayOpen : Auth → Screen → Type 0
MayOpen h Screen.login = Unit
MayOpen h Screen.confirm_account = Unit
MayOpen h Screen.accept_invite = Unit
MayOpen h Screen.home = IsSignedIn h
MayOpen h Screen.unscheduled = IsSignedIn h
MayOpen h Screen.profile = IsSignedIn h
MayOpen h Screen.history = IsSignedIn h
MayOpen h Screen.households = IsSignedIn h
MayOpen h Screen.household_create = IsSignedIn h
MayOpen h Screen.household_edit = IsSignedIn h
MayOpen h Screen.statistics = IsSignedIn h × IsGranted h deputy
MayOpen h Screen.logs = IsSignedIn h × IsOwner h
MayOpen h Screen.chores = IsSignedIn h × IsGranted h organiser
MayOpen h Screen.chore_create = IsSignedIn h × IsGranted h organiser
MayOpen h Screen.chore_edit = IsSignedIn h × IsGranted h organiser
MayOpen h Screen.tags = IsSignedIn h × IsGranted h organiser
MayOpen h Screen.tag_create = IsSignedIn h × IsGranted h organiser
MayOpen h Screen.tag_edit = IsSignedIn h × IsGranted h organiser
MayOpen h Screen.users = IsSignedIn h × IsAdmin h
MayOpen h Screen.user_create = IsSignedIn h × IsAdmin h
MayOpen h Screen.user_edit = IsSignedIn h × IsAdmin h
MayOpen h Screen.admin_households = IsSignedIn h × IsAdmin h
MayOpen h Screen.admin_household_create = IsSignedIn h × IsAdmin h
MayOpen h Screen.admin_household_edit = IsSignedIn h × IsAdmin h
MayOpen h Screen.server_settings = IsSignedIn h × IsAdmin h

outlet_if : (b : Bool) → ((if b then outlet else to_home) ≡ outlet) ↔ (b ≡ true)
outlet_if true = (λ e. refl, λ e. refl)
outlet_if false = (λ e. cc, λ e. cc)

auth_iff :
    (loading : Bool) (user : Option User)
    → ((if loading then Rendered.nothing else auth_outlet user) ≡ outlet)
      ↔ ((loading ≡ false) × ((u : User) × (user ≡ some u)))
auth_iff true user = (λ e. absurd (never e), λ (e, f). cc)
  where
    never : Rendered.nothing ≡ outlet → ⊥
    never e = cc
auth_iff false none = (λ e. absurd (never e), λ (e, (u, f)). cc)
  where
    never : Rendered.to_login ≡ outlet → ⊥
    never e = cc
auth_iff false (some u) = (λ e. (refl, (u, refl)), λ e. refl)

admin_iff :
    (user : Option User)
    → (is_admin user ≡ true) ↔ ((u : User) × ((user ≡ some u) × (u.is_admin ≡ true)))
admin_iff none = (λ e. absurd (never e), λ (u, (e, f)). cc)
  where
    never : false ≡ true → ⊥
    never e = cc
admin_iff (some v) = (λ e. (v, (refl, e)), λ (u, (e, f)). let r : v ≡ u = cc in rw r f)

module _ (h : Auth) (d : HasDistinctHouseholds h.memberships) where
  decide_iff : (g : Guard) → (decide h g ≡ outlet) ↔ Needs h g
  unfolding decide
  decide_iff require_auth = auth_iff h.loading h.user
  decide_iff (require_role min) = (
    λ e. (has_role_somewhere_iff h.memberships min d).0 ((outlet_if _).0 e),
    λ n. (outlet_if _).1 ((has_role_somewhere_iff h.memberships min d).1 n),
  )
  decide_iff require_owner = (
    λ e. (owns_any_household_iff h.memberships).0 ((outlet_if _).0 e),
    λ n. (outlet_if _).1 ((owns_any_household_iff h.memberships).1 n),
  )
  decide_iff require_admin =
      (λ e. (admin_iff h.user).0 ((outlet_if _).0 e), λ n. (outlet_if _).1 ((admin_iff h.user).1 n))

  within_iff : (a b : Rendered) → (within a b ≡ outlet) ↔ ((a ≡ outlet) × (b ≡ outlet))
  within_iff outlet b = (λ e. (refl, e), λ (e, f). f)
  within_iff Rendered.nothing b = (λ e. (e, stuck e), λ (e, f). e)
    where
      stuck : Rendered.nothing ≡ outlet → b ≡ outlet
      stuck e = cc
  within_iff Rendered.to_login b = (λ e. (e, stuck e), λ (e, f). e)
    where
      stuck : Rendered.to_login ≡ outlet → b ≡ outlet
      stuck e = cc
  within_iff to_home b = (λ e. (e, stuck e), λ (e, f). e)
    where
      stuck : to_home ≡ outlet → b ≡ outlet
      stuck e = cc

  nested_iff : (gs : List Guard) → (nested h gs ≡ outlet) ↔ NeedsAll h gs
  unfolding nested
  nested_iff [] = (λ e. tt, λ n. refl)
  nested_iff (g ∷ gs) =
      let both = within_iff (decide h g) (nested h gs) in
      (
        λ e. ((decide_iff g).0 (both.0 e).0, (nested_iff gs).0 (both.0 e).1),
        λ (n, ns). both.1 ((decide_iff g).1 n, (nested_iff gs).1 ns),
      )

  auth_first :
      (loading : Bool) (user : Option User) (r : Rendered)
      → within (if loading then Rendered.nothing else auth_outlet user) r ≡ to_home
      → (if loading then Rendered.nothing else auth_outlet user) ≡ outlet
  auth_first true user r e = cc
  auth_first false none r e = cc
  auth_first false (some u) r e = refl

  home_again :
      (a : Area) → nested h (guards a) ≡ to_home → nested h (guards (account none)) ≡ outlet
  unfolding nested decide
  home_again outside e = cc
  home_again (account none) e = rw (auth_first h.loading h.user outlet e) refl
  home_again (account (some g)) e =
      rw (auth_first h.loading h.user (within (decide h g) outlet) e) refl

  account_iff : (nested h (guards (account none)) ≡ outlet) ↔ IsSignedIn h
  account_iff = let all = nested_iff (require_auth ∷ []) in (λ e. (all.0 e).0, λ n. all.1 (n, tt))

  guarded_iff :
      (g : Guard) → (nested h (guards (account (some g))) ≡ outlet) ↔ (IsSignedIn h × Needs h g)
  guarded_iff g =
      let all = nested_iff (require_auth ∷ g ∷ []) in
      (λ e. let (n, (m, u)) = all.0 e in (n, m), λ (n, m). all.1 (n, (m, tt)))

  opens_iff : (screen : Screen) → (nested h (guards (area screen)) ≡ outlet) ↔ MayOpen h screen
  opens_iff Screen.login = nested_iff []
  opens_iff Screen.confirm_account = nested_iff []
  opens_iff Screen.accept_invite = nested_iff []
  opens_iff Screen.home = account_iff
  opens_iff Screen.unscheduled = account_iff
  opens_iff Screen.profile = account_iff
  opens_iff Screen.history = account_iff
  opens_iff Screen.households = account_iff
  opens_iff Screen.household_create = account_iff
  opens_iff Screen.household_edit = account_iff
  opens_iff Screen.statistics = guarded_iff (require_role deputy)
  opens_iff Screen.logs = guarded_iff require_owner
  opens_iff Screen.chores = guarded_iff (require_role organiser)
  opens_iff Screen.chore_create = guarded_iff (require_role organiser)
  opens_iff Screen.chore_edit = guarded_iff (require_role organiser)
  opens_iff Screen.tags = guarded_iff (require_role organiser)
  opens_iff Screen.tag_create = guarded_iff (require_role organiser)
  opens_iff Screen.tag_edit = guarded_iff (require_role organiser)
  opens_iff Screen.users = guarded_iff require_admin
  opens_iff Screen.user_create = guarded_iff require_admin
  opens_iff Screen.user_edit = guarded_iff require_admin
  opens_iff Screen.admin_households = guarded_iff require_admin
  opens_iff Screen.admin_household_create = guarded_iff require_admin
  opens_iff Screen.admin_household_edit = guarded_iff require_admin
  opens_iff Screen.server_settings = guarded_iff require_admin

  -- With one membership for each household: the pages of signing in and of links from mails open to
  -- all; home, the unscheduled chores, the profile, the history and the pages of households open
  -- exactly to a user that is signed in; the statistics, if some household also grants the deputy's
  -- role; the pages of chores and tags, if one grants the organiser's; the activity log, if the
  -- user owns one; and the pages of users, of all households and of the server, if the user is an
  -- administrator. Where the router sends the user home instead, home opens.
  pub app_opens_iff :
      (screen : Screen)
      → ((app h screen ≡ outlet) ↔ MayOpen h screen)
        × (app h screen ≡ to_home → app h Screen.home ≡ outlet)
  unfolding app
  app_opens_iff screen = (opens_iff screen, home_again (area screen))
