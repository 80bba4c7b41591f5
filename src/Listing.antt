-- ===== src/Listing.antt =====
-- A page that is a server-driven table with filters whose choices come from another request:
-- frontend/src/pages/Chores.tsx, Tags.tsx, History.tsx and Logs.tsx. The table is the hook's; what
-- the pages have in common is here, what differs is a `Pruner`: when the choices arrive, the page
-- drops the filters that it remembers and that can no longer be picked.
--
-- The refs to the setters and the filters hold those of the last render, which every event ends
-- with. An answer to another request than the last one of the effect is ignored by it (`cancelled`).
pub mod Kept
pub mod Pruned
pub mod Dead
pub mod Names
pub mod History
pub mod Logs
pub mod Emptied
pub mod Households
mod Tests
use isachore.Base.{
  ℕ, String, ◌≡◌, Bool, true, false, not, Option, none, some, List, [], ◌∷◌, any, ◌=s=◌,
  if◌then◌else◌,
}
use isachore.Web.Number.{Numerals}
use isachore.Web.Params.{Params}
use isachore.Web.Store.{Store}
use isachore.Web.Value.{Json}
use isachore.Table.{Filters, TableSettings, TableState, has_key}
use isachore.Table.Hook.{Hook, Event, mount, step, state_of}
use isachore.Table.Hook.Calls.{IsCall}
use isachore.Table.Hook.Setters.{intend, IsSetter}

-- The last dependency of the effect that loads the choices, the choices, and whether that effect's
-- last request is unanswered.
pub record Listing (Row Dep Offered : Type 0) : Type 0 where
  pub table : Hook Row
  pub dep : Dep
  pub offered : Offered
  pub asked : Bool
  pub error : Option String

-- The setters, answers and navigations of the table; a render with other memberships; the answer to
-- the request for the choices; the start of a removal and its end, with a message if it failed.
pub data Act (Row Dep Data : Type 0) : Type 0 where
  on_table : Event Row → Act Row Dep Data
  render : Dep → Act Row Dep Data
  options_settled : Option Data → Act Row Dep Data
  remove : Act Row Dep Data
  removed : Option String → Act Row Dep Data

-- What a Select's `onValueChange` calls, where "all" stands for no filter.
abbrev pub pick : {Row : Type 0} → String → String → Event Row
pick key choice = Event.set_filter key (if choice =s= "all" then "" else choice)

abbrev pub applied : {Row : Type 0} → Option (Event Row) → TableState → TableState
applied none s = s
applied (some e) s = intend e s

-- What a page decides for itself: when the effect runs again, which choices it takes from an
-- answer, and what it then calls; and what a filter that can be picked is, with the promise that
-- exactly the others are dropped. The choices are unknown (`none`) where the request failed.
pub record Pruner (num : Numerals) (fk : List String) (Row Dep Data Offered : Type 0) : Type 0 where
  pub same_dep : Dep → Dep → Bool
  pub nothing : Offered
  pub scope : Dep → Data → Offered
  pub prune : Dep → Option Offered → Filters → Option (Event Row)
  pub live : Dep → Option Offered → String → String → Bool
  pub live_empty : (d : Dep) (o : Option Offered) (key : String) → live d o key "" ≡ true
  pub call :
      (d : Dep) (o : Option Offered) (f : Filters) (e : Event Row)
      → prune d o f ≡ some e
      → IsCall num fk e × IsSetter e
  pub exact :
      (d : Dep) (o : Option Offered) (s : TableState) (key : String)
      → has_key key fk ≡ true
      → (applied (prune d o s.filters) s).filters key
        ≡ (if live d o key (s.filters key) then s.filters key else "")

abbrev pub scoped :
    {Dep Data Offered : Type 0} → (Dep → Data → Offered) → Dep → Option Data → Option Offered
scoped scope d none = none
scoped scope d (some data_page) = some (scope d data_page)

abbrev pub or_nothing : {A : Type 0} → A → Option A → A
or_nothing nothing none = nothing
or_nothing nothing (some a) = a

module _ (num : Numerals) (json : Json) (fk : List String) (sk : Option String) (pd : TableSettings)
    {Row Dep Data Offered : Type 0} (p : Pruner num fk Row Dep Data Offered) where
  abbrev pub call_table : Option (Event Row) → Hook Row → Hook Row
  call_table none h = h
  call_table (some e) h = step num json fk sk pd e h

  unfoldable pub pruned : Option Offered → Listing Row Dep Offered → Listing Row Dep Offered
  pruned o h = record h {
    offered = or_nothing p.nothing o;
    asked = false;
    table = call_table (p.prune h.dep o (state_of num json fk sk pd h.table).filters) h.table;
  }

  unfoldable pub act : Act Row Dep Data → Listing Row Dep Offered → Listing Row Dep Offered
  act (Act.on_table e) h = record h { table = step num json fk sk pd e h.table }
  act (Act.render d) h = if p.same_dep h.dep d then h else record h { dep = d; asked = true }
  act (Act.options_settled answer) h = if h.asked then pruned (scoped p.scope h.dep answer) h else h
  act Act.remove h = record h { error = none }
  act (Act.removed none) h = record h { table = step num json fk sk pd Event.reload h.table }
  act (Act.removed (some message)) h = record h { error = some message }

  unfoldable pub acts : List (Act Row Dep Data) → Listing Row Dep Offered → Listing Row Dep Offered
  acts [] h = h
  acts (a ∷ rest) h = acts rest (act a h)

  unfoldable pub opened : Params → Store → Dep → Listing Row Dep Offered
  opened params store d = record {
    table = mount num json fk sk pd params store;
    dep = d;
    offered = p.nothing;
    asked = true;
    error = none;
  }
