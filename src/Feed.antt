-- ===== src/Feed.antt =====
-- What the two chore feeds, frontend/src/pages/Home.tsx and frontend/src/pages/Unscheduled.tsx,
-- have in common: the filters, the request that lists the chores, the completions under way, and
-- the number that keeps a slow answer from overwriting a newer one.
--
-- A change of a filter and the effect that follows it are one step. The answer to a request of an
-- effect that was cancelled changes nothing, so only the last effect's request is kept. `busy` is
-- the set of chores whose button is locked (`exiting` on Home), in the order they were added.
pub mod Lock
pub mod Newest
pub mod Shown
pub mod Requests
pub mod Weight
pub mod Quiet
use isachore.Base.{
  ℕ, suc, ◌+◌, String, Bool, true, false, not, Option, none, some, List, [], ◌∷◌, ◌++◌, any, select,
  map, find, ◌==◌, ◌=s=◌, if◌then◌else◌,
}
use isachore.Web.Number.{Numerals}
use isachore.Web.Params.{Params, append, params_eq}

-- A request for the list, and what it asked for.
pub record Fetch : Type 0 where
  pub number : ℕ
  pub query : Params

-- A chore being closed: its own request is under way, or the refetch after it.
pub record Closing (R : Type 0) : Type 0 where
  pub chore : ℕ
  pub request : R
  pub refetch : Option Fetch

-- What a request ends with; a failure has a message if it is an `ApiError`. Of an accepted
-- completion the body is not read.
pub data Answer (D : Type 0) : Type 0 where
  got : D → Answer D
  failed : Option String → Answer D

pub record Feed (D R : Type 0) : Type 0 where
  pub shown : Option D
  pub loading : Bool
  pub error : Option String
  pub busy : List ℕ
  pub household_id : String
  pub assignee_ids : List ℕ
  pub req : ℕ
  pub listing : Option Fetch
  pub closings : List (Closing R)

-- `err instanceof ApiError ? err.message : fallback`
abbrev pub error_text : Option String → String → String
error_text none fallback = fallback
error_text (some message) fallback = message

unfoldable pub add_assignees : Numerals → List ℕ → Params → Params
add_assignees num [] params = params
add_assignees num (id ∷ ids) params =
    add_assignees num ids (append "assignee_id" (num.print id) params)

unfoldable pub feed_query : Numerals → String → List ℕ → Params
unfolding add_assignees
feed_query num household_id assignee_ids =
    add_assignees num assignee_ids
      (if household_id =s= "" then [] else ("household_id", household_id) ∷ [])

-- `set.has`, `set.add`, `set.delete`
abbrev pub has_id : ℕ → List ℕ → Bool
has_id id ids = any (λ x. x == id) ids

abbrev pub add_id : ℕ → List ℕ → List ℕ
add_id id ids = if has_id id ids then ids else ids ++ (id ∷ [])

abbrev pub delete_id : ℕ → List ℕ → List ℕ
delete_id id ids = select (λ x. not (x == id)) ids

abbrev pub closing_of : {R : Type 0} → ℕ → List (Closing R) → Option (Closing R)
closing_of chore ks = find (λ k. k.chore == chore) ks

abbrev pub drop_closing : {R : Type 0} → ℕ → List (Closing R) → List (Closing R)
drop_closing chore ks = select (λ k. not (k.chore == chore)) ks

abbrev pub refetch_with : {R : Type 0} → ℕ → Fetch → Closing R → Closing R
refetch_with chore f k = if k.chore == chore then record k { refetch = some f } else k

-- What can happen to a feed; `again` is a change of the language, on which the effect depends too.
pub data Event (D R : Type 0) : Type 0 where
  filter : String → List ℕ → Event D R
  again : Event D R
  list_answer : Answer D → Event D R
  close : ℕ → R → Event D R
  close_answer : ℕ → Answer D → Event D R
  refetch_answer : ℕ → Answer D → Event D R

module _ {D R : Type 0} where
  -- What a page holds at first, with the filter set to the account that is signed in.
  abbrev pub blank : List ℕ → Feed D R
  blank mine = record {
    shown = none;
    loading = true;
    error = none;
    busy = [];
    household_id = "";
    assignee_ids = mine;
    req = 0;
    listing = none;
    closings = [];
  }

  -- The `.then`, `.catch` and `.finally` of the effect.
  unfoldable pub show_newest : Fetch → D → Feed D R → Feed D R
  show_newest r d f = if r.number == f.req then record f { shown = some d } else f

  pub settle_list : String → Option Fetch → Answer D → Feed D R → Feed D R
  unfolding show_newest
  settle_list load_error none a f = f
  settle_list load_error (some r) (got d) f = record (show_newest r d f) {
    loading = false;
    listing = none;
  }
  settle_list load_error (some r) (failed message) f = record f {
    error = some load_error;
    loading = false;
    listing = none;
  }

  unfoldable pub listed : String → Answer D → Feed D R → Feed D R
  unfolding settle_list
  listed load_error a f = settle_list load_error f.listing a f

  -- `closeChore`, up to its request.
  unfoldable pub close_chore : ℕ → R → Feed D R → Feed D R
  close_chore chore request f = if has_id chore f.busy then f else record f {
    error = none;
    busy = add_id chore f.busy;
    closings = f.closings ++ (record { chore = chore; request = request; refetch = none } ∷ []);
  }

  -- `.finally(stopExiting)`
  unfoldable pub stop : ℕ → Feed D R → Feed D R
  stop chore f = record f {
    busy = delete_id chore f.busy;
    closings = drop_closing chore f.closings;
  }

  -- The second `.then` or the `.catch`.
  pub refetched_by : (R → String) → R → ℕ → Option Fetch → Answer D → Feed D R → Feed D R
  unfolding stop show_newest
  refetched_by fallback request chore none a f = f
  refetched_by fallback request chore (some r) (got d) f = stop chore (show_newest r d f)
  refetched_by fallback request chore (some r) (failed message) f =
      stop chore (record f { error = some (error_text message (fallback request)) })

  pub refetched_at : (R → String) → ℕ → Option (Closing R) → Answer D → Feed D R → Feed D R
  unfolding refetched_by
  refetched_at fallback chore none a f = f
  refetched_at fallback chore (some k) a f = refetched_by fallback k.request chore k.refetch a f

  unfoldable pub refetched : (R → String) → ℕ → Answer D → Feed D R → Feed D R
  unfolding refetched_at
  refetched fallback chore a f = refetched_at fallback chore (closing_of chore f.closings) a f

module _ (num : Numerals) {D R : Type 0} where
  unfoldable pub query_of : Feed D R → Params
  query_of f = feed_query num f.household_id f.assignee_ids

  -- The effect that lists the chores.
  unfoldable pub start_listing : Feed D R → Feed D R
  unfolding query_of
  start_listing f = record f {
    req = suc f.req;
    listing = some (record { number = suc f.req; query = query_of f });
  }

  -- The page's first render, for the account that is signed in.
  unfoldable pub opened : List ℕ → Feed D R
  unfolding start_listing
  opened mine = start_listing (blank mine)

  -- Another value of the two filters; the effect runs when the query is another.
  unfoldable pub refilter : String → List ℕ → Feed D R → Feed D R
  unfolding query_of start_listing
  refilter household_id assignee_ids f =
      let g : Feed D R = record f { household_id = household_id; assignee_ids = assignee_ids } in
      if params_eq (query_of f) (query_of g) then g else start_listing g

  -- The first `.then` or the `.catch`, with the fallback text of the request.
  pub posted_by : (R → String) → R → ℕ → Option Fetch → Answer D → Feed D R → Feed D R
  unfolding stop query_of
  posted_by fallback request chore (some r) a f = f
  posted_by fallback request chore none (got d) f = record f {
    req = suc f.req;
    closings =
        map (refetch_with chore (record { number = suc f.req; query = query_of f })) f.closings;
  }
  posted_by fallback request chore none (failed message) f =
      stop chore (record f { error = some (error_text message (fallback request)) })

  pub posted_at : (R → String) → ℕ → Option (Closing R) → Answer D → Feed D R → Feed D R
  unfolding posted_by
  posted_at fallback chore none a f = f
  posted_at fallback chore (some k) a f = posted_by fallback k.request chore k.refetch a f

  unfoldable pub posted : (R → String) → ℕ → Answer D → Feed D R → Feed D R
  unfolding posted_at
  posted fallback chore a f = posted_at fallback chore (closing_of chore f.closings) a f

  unfoldable pub step : String → (R → String) → Event D R → Feed D R → Feed D R
  step load_error fallback (filter household_id assignee_ids) f =
      refilter household_id assignee_ids f
  step load_error fallback again f = start_listing f
  step load_error fallback (list_answer a) f = listed load_error a f
  step load_error fallback (close chore request) f = close_chore chore request f
  step load_error fallback (close_answer chore a) f = posted fallback chore a f
  step load_error fallback (refetch_answer chore a) f = refetched fallback chore a f

  unfoldable pub run : String → (R → String) → List (Event D R) → Feed D R → Feed D R
  run load_error fallback [] f = f
  run load_error fallback (e ∷ es) f = run load_error fallback es (step load_error fallback e f)
