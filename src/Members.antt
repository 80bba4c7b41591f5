-- ===== src/Members.antt =====
-- frontend/src/components/households/HouseholdMembersTable.tsx: the members of a household in a
-- server-driven table, the change of a role that is staged in a dialog, and the removals. The
-- action of a dialog closes it.
pub mod Allowed
mod Tests
use isachore.Base.{
  ℕ, String, Bool, true, false, not, ◌&&◌, Option, none, some, List, [], ◌∷◌, ◌==◌, if◌then◌else◌,
}
use isachore.Types.{HouseholdMemberWithRole, HouseholdRole}
use isachore.Permissions.{assignable_roles, role_eq}
use isachore.Web.Number.{Numerals}
use isachore.Web.Params.{Params}
use isachore.Web.Store.{Store}
use isachore.Web.Value.{Json}
use isachore.Table.{TableSettings, asc}
use isachore.Table.Hook.{Hook, Event, mount, step}

-- The props: the owner, whether members may be removed, and who is looking.
pub record Viewer : Type 0 where
  pub admin_id : ℕ
  pub can_manage : Bool
  pub unrestricted : Bool
  pub role : Option HouseholdRole

-- The requests that the component sends: a role for a member, the end of a membership.
pub data Request : Type 0 where
  patch : ℕ → HouseholdRole → Request
  delete : ℕ → Request

-- `sent` are the requests so far, the latest first.
pub record Members : Type 0 where
  pub table : Hook HouseholdMemberWithRole
  pub error : Option String
  pub pending : Option (HouseholdMemberWithRole × HouseholdRole)
  pub sent : List Request

pub data Act : Type 0 where
  on_table : Event HouseholdMemberWithRole → Act
  pick : HouseholdMemberWithRole → HouseholdRole → Act
  cancel confirm : Act
  remove : HouseholdMemberWithRole → Act
  role_settled removal_settled : Option String → Act

abbrev pub members_defaults : TableSettings
members_defaults = record { page_size = 10; sort_by = "name"; sort_dir = asc; filters = λ key. "" }

-- The items of a row's Select; with none there is a badge in its place.
abbrev pub role_options : Viewer → HouseholdMemberWithRole → List HouseholdRole
role_options v member =
    if member.id == v.admin_id
    then []
    else assignable_roles v.unrestricted v.role (member.id == v.admin_id) member.role

abbrev pub has_removal : Viewer → HouseholdMemberWithRole → Bool
has_removal v member = v.can_manage && not (member.id == v.admin_id)

module _ (num : Numerals) (json : Json) where
  abbrev pub table_step :
      Event HouseholdMemberWithRole → Hook HouseholdMemberWithRole → Hook HouseholdMemberWithRole
  table_step = step num json [] (some "household-members") members_defaults

  abbrev pub set_role : Option (HouseholdMemberWithRole × HouseholdRole) → Members → Members
  set_role none h = h
  set_role (some (member, role)) h = record h {
    error = none;
    pending = none;
    sent = patch member.id role ∷ h.sent;
  }

  unfoldable pub act : Act → Members → Members
  act (on_table e) h = record h { table = table_step e h.table }
  act (pick member role) h =
      if not (role_eq role member.role) then record h { pending = some (member, role) } else h
  act cancel h = record h { pending = none }
  act confirm h = set_role h.pending h
  act (remove member) h = record h { error = none; sent = delete member.id ∷ h.sent }
  act (role_settled none) h = record h { table = table_step Event.reload h.table }
  act (role_settled (some message)) h = record h {
    table = table_step Event.reload h.table;
    error = some message;
  }
  act (removal_settled none) h = record h { table = table_step Event.reload h.table }
  act (removal_settled (some message)) h = record h { error = some message }

  unfoldable pub acts : List Act → Members → Members
  acts [] h = h
  acts (a ∷ rest) h = acts rest (act a h)

  unfoldable pub opened : Params → Store → Members
  opened params store = record {
    table = mount num json [] (some "household-members") members_defaults params store;
    error = none;
    pending = none;
    sent = [];
  }
