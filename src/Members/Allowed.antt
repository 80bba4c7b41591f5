-- ===== src/Members/Allowed.antt =====
-- What the component asks of the server, and that it shows what has become of it.
use isachore.Base.{
  suc, String, ◌≡◌, ◌≢◌, refl, true, false, Option, none, some, List, [], ◌∷◌, Memᴰ, ◌==◌, arith,
  eq_iff, Bool-cases, inl, inr,
}
use isachore.Types.{HouseholdMemberWithRole, HouseholdRole, organiser, deputy, helper}
use isachore.Permissions.{role_eq}
use isachore.Permissions.Assignable.{MaySet, mem-assignable_roles}
use isachore.Web.Number.{Numerals}
use isachore.Web.Params.{Params}
use isachore.Web.Store.{Store}
use isachore.Web.Value.{Json}
use isachore.Table.Settings.Laws.{AreUsable}
use isachore.Table.Hook.{Hook, Event, step}
use isachore.Table.Hook.Calls.{IsPositive, IsCall}
use isachore.Table.Hook.Commit.{Inv, commits}
use isachore.Table.Hook.Loading.{step-Inv, mount-Inv}
use isachore.Members.{
  Viewer, Request, patch, delete, Members, Act, on_table, pick, cancel, confirm, remove,
  role_settled, removal_settled, members_defaults, role_options, has_removal, table_step, set_role,
  act, acts, opened,
}

-- A change that the rule of the API grants for the row as it was shown, and is one.
abbrev pub IsGranted : Viewer → HouseholdMemberWithRole → HouseholdRole → Type 0
IsGranted v member role =
    MaySet v.unrestricted v.role (member.id == v.admin_id) member.role role × (role ≢ member.role)

-- A change of role is that of a row in which the role was picked, as the row was shown then.
abbrev pub IsAllowed : Viewer → List Act → Request → Type 0
IsAllowed v as_done (patch id role) =
    (member : HouseholdMemberWithRole) × (member.id ≡ id)
    × Memᴰ (pick member role) as_done
    × IsGranted v member role
IsAllowed v as_done (delete id) = (v.can_manage ≡ true) × (id ≢ v.admin_id)

abbrev pub AreAllowed : Viewer → List Act → List Request → Type 0
AreAllowed v as_done [] = Unit
AreAllowed v as_done (r ∷ sent) = IsAllowed v as_done r × AreAllowed v as_done sent

-- The controls on screen: an item of a row's Select, a row's removal.
abbrev pub IsControl : Numerals → Viewer → Act → Type 0
IsControl num v (on_table e) = IsCall num [] e
IsControl num v (pick member role) = Memᴰ role (role_options v member)
IsControl num v (remove member) = has_removal v member ≡ true
IsControl num v _ = Unit

abbrev pub AreControls : Numerals → Viewer → List Act → Type 0
AreControls num v [] = Unit
AreControls num v (a ∷ rest) = IsControl num v a × AreControls num v rest

abbrev pub IsStaged : Viewer → List Act → Option (HouseholdMemberWithRole × HouseholdRole) → Type 0
IsStaged v as_done none = Unit
IsStaged v as_done (some (member, role)) = Memᴰ (pick member role) as_done × IsGranted v member role

role_ne : (a b : HouseholdRole) → role_eq a b ≡ false → a ≢ b
role_ne a b e q = ground (arith, e, role_same a)
  where
    role_same : (a : HouseholdRole) → role_eq a a ≡ true
    role_same organiser = refl
    role_same deputy = refl
    role_same helper = refl

mem-role_options :
    (v : Viewer) (member : HouseholdMemberWithRole) (role : HouseholdRole)
    → Memᴰ role (role_options v member)
    → MaySet v.unrestricted v.role (member.id == v.admin_id) member.role role
mem-role_options v member role m = elim (Bool-cases (member.id == v.admin_id)) [
  | inl e ↦ absurd (nothing (rw e at m))
  | inr e ↦ rw e ((mem-assignable_roles v.unrestricted v.role false member.role role).0 (rw e at m))
]
  where
    nothing : Memᴰ role [] → ⊥
    nothing n = elim n [ ]

module _ (num : Numerals) (json : Json) (v : Viewer) (done_all : List Act) where
  record IsSound (h : Members) : Type 0 where
    table : Inv num json [] (some "household-members") members_defaults h.table
    staged : IsStaged v done_all h.pending
    allowed : AreAllowed v done_all h.sent

  confirmed :
      (o : Option (HouseholdMemberWithRole × HouseholdRole)) (h : Members)
      → IsStaged v done_all o
      → IsSound h
      → IsSound (set_role num json o h)
  confirmed none h p s = s
  confirmed (some (member, role)) h (m, p) s = record {
    table = s.table;
    staged = tt;
    allowed = ((member, refl, m, p), s.allowed);
  }

  sized : IsPositive num members_defaults.page_size
  sized = (omega arith, num.read-print 10 (omega arith))

  table-Inv :
      (e : Event HouseholdMemberWithRole) (h : Members)
      → IsCall num [] e
      → IsSound h
      → Inv num json [] (some "household-members") members_defaults (table_step num json e h.table)
  table-Inv e h c s =
      step-Inv num json [] (some "household-members") members_defaults e h.table
        (refl, refl, refl, refl) sized c s.table

  reload_asks :
      (t : Hook HouseholdMemberWithRole)
      → Inv num json [] (some "household-members") members_defaults t
      → (table_step num json Event.reload t).pending ≡ true
  unfolding step
  reload_asks t i =
      (commits num json [] (some "household-members") members_defaults
          (record t { loading = true; error = none; reload_token = suc t.reload_token })).asks
        (inr (λ e. omega (arith, i.fetched_token, e)))

  act-IsSound :
      (a : Act) (h : Members)
      → Memᴰ a done_all
      → IsControl num v a
      → IsSound h
      → IsSound (act num json a h)
  unfolding act
  act-IsSound (on_table e) h m c s = record {
    table = table-Inv e h c s;
    staged = s.staged;
    allowed = s.allowed;
  }
  act-IsSound (pick member role) h m c s = elim (Bool-cases (role_eq role member.role)) [
    | inl e ↦ rw e s
    | inr e ↦ rw e (record {
      table = s.table;
      staged = (m, (mem-role_options v member role c, role_ne role member.role e));
      allowed = s.allowed;
    })
  ]
  act-IsSound cancel h m c s = record { table = s.table; staged = tt; allowed = s.allowed }
  act-IsSound confirm h m c s = confirmed h.pending h s.staged s
  act-IsSound (remove member) h m c s = record {
    table = s.table;
    staged = s.staged;
    allowed = ((ground (arith, c), other (ground (arith, c))), s.allowed);
  }
    where
      other : (member.id == v.admin_id) ≡ false → member.id ≢ v.admin_id
      other e q = ground (arith, e, q)
  act-IsSound (role_settled none) h m c s = record {
    table = table-Inv Event.reload h tt s;
    staged = s.staged;
    allowed = s.allowed;
  }
  act-IsSound (role_settled (some message)) h m c s = record {
    table = table-Inv Event.reload h tt s;
    staged = s.staged;
    allowed = s.allowed;
  }
  act-IsSound (removal_settled none) h m c s = record {
    table = table-Inv Event.reload h tt s;
    staged = s.staged;
    allowed = s.allowed;
  }
  act-IsSound (removal_settled (some message)) h m c s = record {
    table = s.table;
    staged = s.staged;
    allowed = s.allowed;
  }

  acts-IsSound :
      (as_done : List Act) (h : Members)
      → ((a : Act) → Memᴰ a as_done → Memᴰ a done_all)
      → AreControls num v as_done
      → IsSound h
      → IsSound (acts num json as_done h)
  unfolding acts
  acts-IsSound [] h i c s = s
  acts-IsSound (a ∷ rest) h i (c, cs) s =
      acts-IsSound rest (act num json a h) (λ b m. i b (Memᴰ.tail m)) cs
        (act-IsSound a h (i a (Memᴰ.head refl)) c s)

  usable : AreUsable members_defaults
  usable = (omega arith, omega arith, ground (arith, eq_iff "name" ""))

  opened-IsSound : (params : Params) (store : Store) → IsSound (opened num json params store)
  unfolding opened
  opened-IsSound params store = record {
    table = mount-Inv num json [] (some "household-members") members_defaults params store usable;
    staged = tt;
    allowed = tt;
  }

module _ (num : Numerals) (json : Json) (v : Viewer) where
  -- However the controls of the members' table were used since it opened, and whatever the server
  -- answered, while the viewer's own rights stay: each role that was asked for was picked in a row
  -- of that member, is another than the one that the row showed then, and is one that the rule of
  -- the API grants for that row; each removal is of a member other than the owner by somebody who
  -- may remove; and after the answer to a change of a role, granted or refused, the table is
  -- waiting for the members anew.
  pub requests_allowed :
      (params : Params) (store : Store) (as_done : List Act) (answer : Option String)
      → AreControls num v as_done
      → let h = acts num json as_done (opened num json params store) in
        AreAllowed v as_done h.sent × ((act num json (role_settled answer) h).table.pending ≡ true)
  unfolding act
  requests_allowed params store as_done answer c =
      let s =
        acts-IsSound num json v as_done as_done (opened num json params store) (λ a m. m) c
          (opened-IsSound num json v as_done params store) in
      (s.allowed, asks answer (acts num json as_done (opened num json params store)) s)
    where
      asks :
          (answer : Option String) (h : Members)
          → IsSound num json v as_done h
          → (act num json (role_settled answer) h).table.pending ≡ true
      asks none h s = reload_asks num json v as_done h.table s.table
      asks (some message) h s = reload_asks num json v as_done h.table s.table
