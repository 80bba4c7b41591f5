-- ===== src/Types.antt =====
-- The data that the client exchanges with the API: frontend/src/lib/types.ts, and the appearance
-- and language identifiers of frontend/src/theme/context.ts and frontend/src/i18n/languages.ts.
-- Dates and timestamps are texts, as on the wire; ids and counts are natural numbers.
use isachore.Base.{ℕ, String, Bool, Option, List, [], ◌∷◌}
use isachore.Base.Int.{ℤ}

pub data UserStatus : Type 0 where
  waiting_confirmation active disabled : UserStatus

pub data Flavour : Type 0 where
  latte frappe macchiato mocha : Flavour

pub data Accent : Type 0 where
  rosewater flamingo pink mauve red maroon peach : Accent
  yellow green teal sky sapphire blue lavender : Accent

pub data Language : Type 0 where
  en it : Language

pub record User : Type 0 where
  pub id : ℕ
  pub email : String
  pub first_name : String
  pub last_name : String
  pub is_admin : Bool
  pub status : UserStatus
  pub confirmed_at : Option String
  pub created_at : String
  pub avatar_url : Option String
  pub theme : Option Flavour
  pub accent_color : Option Accent
  pub language : Option Language
  pub two_factor_enabled : Bool

pub data HouseholdRole : Type 0 where
  organiser deputy helper : HouseholdRole

-- The ladder, strongest first.
abbrev pub household_roles : List HouseholdRole
household_roles = organiser ∷ deputy ∷ helper ∷ []

pub record Membership : Type 0 where
  pub household_id : ℕ
  pub role : HouseholdRole
  pub owned : Bool

-- A payload of an older server lacks the two fields that a newer one sends: `none`.
pub record Me : Type 0 where
  pub user : User
  pub impersonating : Bool
  pub memberships : Option (List Membership)
  pub email_confirmation_required : Option Bool

pub record LoginResponse : Type 0 where
  pub two_factor_required : Bool
  pub user : Option Me

pub record Page (Row : Type 0) : Type 0 where
  pub items : List Row
  pub total : ℕ
  pub page : ℕ
  pub page_size : ℕ

pub data RepeatPeriod : Type 0 where
  manual daily weekly monthly yearly : RepeatPeriod

pub data DueStatus : Type 0 where
  overdue today soon : DueStatus

pub record HouseholdMember : Type 0 where
  pub id : ℕ
  pub first_name : String
  pub last_name : String

pub record ChoreHousehold : Type 0 where
  pub id : ℕ
  pub name : String
  pub timezone : String

-- `days_until_due` is negative when the chore is overdue.
pub record DueChore : Type 0 where
  pub id : ℕ
  pub title : String
  pub repeats : RepeatPeriod
  pub repeat_interval : ℕ
  pub weekdays : Option (List ℕ)
  pub next_due : String
  pub days_until_due : ℤ
  pub status : DueStatus
  pub has_description : Bool
  pub household : ChoreHousehold
  pub assignees : List HouseholdMember

pub record HomeProgress : Type 0 where
  pub done_today : ℕ
  pub total_today : ℕ

pub record HomeData : Type 0 where
  pub progress : HomeProgress
  pub items : List DueChore

pub record UnscheduledChore : Type 0 where
  pub id : ℕ
  pub title : String
  pub days_since_last_completion : Option ℤ
  pub has_description : Bool
  pub household : ChoreHousehold
  pub assignees : List HouseholdMember

pub record UnscheduledData : Type 0 where
  pub items : List UnscheduledChore

pub data AssignmentType : Type 0 where
  manual alphabetical random least_done : AssignmentType

pub record Tag : Type 0 where
  pub id : ℕ
  pub name : String
  pub color : String

pub record Chore : Type 0 where
  pub id : ℕ
  pub title : String
  pub description : Option String
  pub start_date : Option String
  pub repeats : RepeatPeriod
  pub assignment_type : AssignmentType
  pub turn_length : ℕ
  pub repeat_interval : ℕ
  pub weekdays : Option (List ℕ)
  pub created_at : String
  pub household : ChoreHousehold
  pub assignees : List HouseholdMember
  pub current_assignee : Option HouseholdMember
  pub tags : List Tag

pub record ChoreCloneState : Type 0 where
  pub household_id : ℕ
  pub title : String
  pub description : String
  pub start_date : String
  pub repeats : RepeatPeriod
  pub assignment_type : AssignmentType
  pub turn_length : ℕ
  pub repeat_interval : ℕ
  pub weekdays : List ℕ
  pub assignee_ids : List ℕ
  pub tag_ids : List ℕ

pub record Household : Type 0 where
  pub id : ℕ
  pub name : String
  pub admin_id : ℕ
  pub timezone : String
  pub created_at : String
  pub deleted_at : Option String
  pub member_count : ℕ
  pub chore_count : ℕ

pub record AuthMethods : Type 0 where
  pub password_enabled : Bool
  pub oidc_enabled : Bool
  pub oidc_provider_name : Option String

pub record HistoryEntry : Type 0 where
  pub id : ℕ
  pub title : String
  pub scheduled_for : String
  pub completed_at : String
  pub completed_timezone : Option String
  pub skipped : Bool
  pub days_late : Option ℤ
  pub completed_by : Option HouseholdMember
  pub household : ChoreHousehold

pub record HistoryFilterOptions : Type 0 where
  pub households : List ChoreHousehold
  pub members : List HouseholdMember

abbrev pub log_actions : List String
log_actions =
    "chore_created" ∷ "chore_updated" ∷ "chore_deleted" ∷ "completion_undone" ∷ "skip_undone" ∷ []

-- The server may name an action or a field that this release does not know.
pub record LogEntry : Type 0 where
  pub id : ℕ
  pub created_at : String
  pub action : String
  pub household : ChoreHousehold
  pub actor : Option HouseholdMember
  pub target : Option HouseholdMember
  pub chore_id : Option ℕ
  pub chore_title : Option String
  pub changed_fields : List String
  pub by_admin : Bool

pub record HouseholdMemberWithRole : Type 0 where
  pub id : ℕ
  pub first_name : String
  pub last_name : String
  pub role : HouseholdRole

pub data InvitationStatus : Type 0 where
  pending accepted revoked expired : InvitationStatus

pub record HouseholdInvitation : Type 0 where
  pub id : ℕ
  pub url : String
  pub status : InvitationStatus
  pub created_at : String
  pub expires_at : String

pub record TwoFactorSetup : Type 0 where
  pub secret : String
  pub otpauth_uri : String
  pub qr : String
