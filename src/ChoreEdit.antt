-- ===== src/ChoreEdit.antt =====
-- The page that edits a chore, frontend/src/pages/ChoreEdit.tsx: how the chore, the members and the
-- tags are loaded. The form itself is ChoreForm, its initial values are in ChoreForm/Seeds.
--
-- The last effect's request is kept. Of an effect that was cancelled, an answer with a chore that the
-- user does not organise still sends the user away, and no other changes anything.
pub mod Own
mod Tests
use isachore.Base.{String, Bool, true, false, Option, none, some, List, [], ◌∷◌, if◌then◌else◌}
use isachore.Types.{Chore, HouseholdMember, Tag, Membership, organiser}
use isachore.Permissions.{has_role_in}
use isachore.Feed.{error_text}
use isachore.ChoreForm.{Props}
use isachore.ChoreCreate.{Answer, got, failed, Options}

-- The request under way: for the chore, or for the pickers of the chore that was answered.
pub data Loading : Type 0 where
  chore_asked : Loading
  options_asked : Chore → Loading

pub record EditPage : Type 0 where
  pub chore : Option Chore
  pub members : List HouseholdMember
  pub tags : List Tag
  pub loading : Bool
  pub error : Option String
  pub request : Option Loading
  -- The page has sent the user to the list of chores.
  pub left : Bool

abbrev pub start : EditPage
start = record {
  chore = none;
  members = [];
  tags = [];
  loading = true;
  error = none;
  request = some chore_asked;
  left = false;
}

pub data Event : Type 0 where
  chore_answer : Answer Chore → Event
  options_answer : Answer Options → Event
  again : Event
  stale_answer : Answer Chore → Event

module _ (memberships : List Membership) (load_error : String) where
  abbrev pub organises : Chore → Bool
  organises c = has_role_in memberships c.household.id organiser

  -- The `.catch` and the `.finally`.
  abbrev pub give_up : Option String → EditPage → EditPage
  give_up message p = record p {
    error = some (error_text message load_error);
    loading = false;
    request = none;
  }

  unfoldable pub chore_settled : Option Loading → Answer Chore → EditPage → EditPage
  chore_settled (some chore_asked) (got c) p =
      if organises c
      then record p { request = some (options_asked c) }
      else record p { left = true; loading = false; request = none }
  chore_settled (some chore_asked) (failed message) p = give_up message p
  chore_settled (some (options_asked c)) a p = p
  chore_settled none a p = p

  unfoldable pub options_settled : Option Loading → Answer Options → EditPage → EditPage
  options_settled (some (options_asked c)) (got o) p = record p {
    chore = some c;
    members = o.members;
    tags = o.tags;
    loading = false;
    request = none;
  }
  options_settled (some (options_asked c)) (failed message) p = give_up message p
  options_settled (some chore_asked) a p = p
  options_settled none a p = p

  unfoldable pub stale_settled : Answer Chore → EditPage → EditPage
  stale_settled (got c) p = if organises c then p else record p { left = true }
  stale_settled (failed message) p = p

  unfoldable pub step : Event → EditPage → EditPage
  unfolding chore_settled options_settled stale_settled
  step (chore_answer a) p = chore_settled p.request a p
  step (options_answer a) p = options_settled p.request a p
  step again p = record p { request = some chore_asked }
  step (stale_answer a) p = stale_settled a p

  unfoldable pub run : List Event → EditPage → EditPage
  run [] p = p
  run (e ∷ es) p = run es (step e p)
