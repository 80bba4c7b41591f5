-- ===== src/Table/Hook.antt =====
-- The hook `useServerTable` of frontend/src/components/data-table/useServerTable.ts as a state
-- machine: what it holds between two renders, and each thing that can happen to it.
--
-- A render is followed by its effects (`commit`). The effect that fetches runs when the request or
-- the reload token is another than at its last run, and what an earlier run asked for is ignored
-- from then on: `pending` is whether the last run's request is still unanswered. The handlers of
-- an answer run to the end before the next render. Requests are compared as lists of pairs,
-- which the text of a query string determines and is determined by. A storage key is not empty.
pub mod Calls
pub mod Commit
pub mod Setters
pub mod Loading
pub mod Paging
pub mod Picked
mod Tests
use isachore.Base.{
  ℕ, suc, ◌+◌, ◌-◌, ◌/◌, max, String, ◌≡◌, Bool, true, false, not, ◌&&◌, ◌||◌, Option, none, some,
  List, [], ◌∷◌, any, ◌==◌, ◌=s=◌, if◌then◌else◌,
}
use isachore.Types.{Page}
use isachore.Web.Number.{Numerals}
use isachore.Web.Params.{Params, params_eq}
use isachore.Web.Store.{Store}
use isachore.Web.Value.{Json}
use isachore.Table.{
  SortDir, Filters, TableSettings, TableState, sort_dir_eq, derive_state, apply_owned_params,
  to_api_query,
}
use isachore.Table.Settings.{read_settings, write_settings, clear_settings, settings_value}

pub record Hook (Row : Type 0) : Type 0 where
  pub params : Params
  pub defaults : TableSettings
  pub store : Store
  pub rows : List Row
  pub total : ℕ
  pub loading : Bool
  pub error : Option String
  pub reload_token : ℕ
  -- The dependencies at the last run of the two effects.
  pub fetched : Params
  pub fetched_token : ℕ
  pub pending : Bool
  pub saved : Option String

-- An answer of the API wrapper: a page, an `ApiError`, or another failure.
pub data Answer (Row : Type 0) : Type 0 where
  page_of : Page Row → Answer Row
  api_error : (status : ℕ) (message : String) → Answer Row
  failure : Answer Row

-- What can happen: the setters, an answer to the last request, an answer to an ignored one, and a
-- navigation that changes the query string.
pub data Event (Row : Type 0) : Type 0 where
  set_page : ℕ → Event Row
  set_page_size : ℕ → Event Row
  set_sort : String → SortDir → Event Row
  set_filter : String → String → Event Row
  set_filters : List (String × Option String) → Event Row
  reload : Event Row
  answer : Answer Row → Event Row
  ignored : Answer Row → Event Row
  navigate : Params → Event Row

-- `{ ...filters, [key]: value }`
abbrev pub put_filter : String → String → Filters → Filters
put_filter key value filters k = if key =s= k then value else filters k

-- The entries of the patch that are not undefined, and the filters with them put in.
unfoldable pub defined : List (String × Option String) → List (String × String)
defined [] = []
defined ((key, none) ∷ patch) = defined patch
defined ((key, some value) ∷ patch) = (key, value) ∷ defined patch

unfoldable pub put_filters : List (String × String) → Filters → Filters
put_filters [] filters = filters
put_filters ((key, value) ∷ entries) filters = put_filters entries (put_filter key value filters)

abbrev pub settings_of : TableState → TableSettings
settings_of s = record {
  page_size = s.page_size;
  sort_by = s.sort_by;
  sort_dir = s.sort_dir;
  filters = s.filters;
}

abbrev pub is_rejection : ℕ → Bool
is_rejection status = status == 400 || status == 422

-- `Math.max(1, Math.ceil(total / pageSize))`, the page size being at least 1.
unfoldable pub page_count : ℕ → ℕ → ℕ
page_count total page_size = max 1 ((total + (page_size - 1)) / page_size)

saved_store : Option String → String → Store → Store
saved_store none text store = store
saved_store (some key) text store = write_settings key text store

same_text : Option String → String → Bool
same_text none text = false
same_text (some t) text = t =s= text

unfoldable pub initial_defaults :
    Numerals → Json → List String → TableSettings → Option String → Store → TableSettings
initial_defaults num json fk page_defaults none store = page_defaults
initial_defaults num json fk page_defaults (some key) store =
    read_settings num json key fk page_defaults store

module _ (num : Numerals) (json : Json) (fk : List String) (storage_key : Option String)
    (page_defaults : TableSettings) {Row : Type 0} where
  unfoldable pub state_of : Hook Row → TableState
  state_of h = derive_state num fk h.defaults h.params

  unfoldable pub query_of : Hook Row → Params
  unfolding state_of
  query_of h = to_api_query num fk (state_of h)

  settings_json : Hook Row → String
  unfolding state_of
  settings_json h = json.stringify (settings_value fk (settings_of (state_of h)))

  pub fetch_effect : Hook Row → Hook Row
  unfolding query_of
  fetch_effect h =
      if params_eq h.fetched (query_of h) && h.fetched_token == h.reload_token
      then h
      else record h { fetched = query_of h; fetched_token = h.reload_token; pending = true }

  pub save_effect : Hook Row → Hook Row
  unfolding settings_json saved_store same_text
  save_effect h = if same_text h.saved (settings_json h) then h else record h {
    store = saved_store storage_key (settings_json h) h.store;
    saved = some (settings_json h);
  }

  unfoldable pub commit : Hook Row → Hook Row
  unfolding fetch_effect save_effect
  commit h = save_effect (fetch_effect h)

  unfoldable pub first_render : Params → Store → Hook Row
  unfolding initial_defaults
  first_render params store = record {
    params = params;
    defaults = initial_defaults num json fk page_defaults storage_key store;
    store = store;
    rows = [];
    total = 0;
    loading = true;
    error = none;
    reload_token = 0;
    fetched = [];
    fetched_token = 0;
    pending = false;
    saved = none;
  }

  -- After the first render both effects run.
  unfoldable pub mount : Params → Store → Hook Row
  unfolding first_render save_effect query_of
  mount params store =
      let first : Hook Row = first_render params store in
      save_effect (record first { fetched = query_of first; pending = true })

  -- The setters' common part, at the state that the updater computes.
  unfoldable pub mutate : TableState → Hook Row → Hook Row
  mutate next h = commit (record h {
    loading = true;
    error = none;
    params = apply_owned_params num fk h.defaults h.params next;
  })

  -- What a failed request does to the remembered settings.
  pub after_error : Option String → ℕ → Hook Row → Hook Row
  after_error none status h = h
  after_error (some key) status h =
      if is_rejection status
      then record h { store = clear_settings key h.store; defaults = page_defaults }
      else h

  unfoldable pub answered : Answer Row → Hook Row → Hook Row
  unfolding after_error
  answered (page_of data_page) h = record h {
    rows = data_page.items;
    total = data_page.total;
    error = none;
  }
  answered (api_error status message) h =
      after_error storage_key status (record h { error = some message })
  answered failure h = record h { error = some "Failed to load" }

  unfoldable pub finished : Hook Row → Hook Row
  finished h = record h { loading = false; pending = false }

  unfoldable pub step : Event Row → Hook Row → Hook Row
  step (set_page page) h =
      let s = state_of h in if page == s.page then h else mutate (record s { page = page }) h
  step (set_page_size size) h =
      let s = state_of h in
      if size == s.page_size then h else mutate (record s { page_size = size; page = 1 }) h
  step (set_sort by dir) h =
      let s = state_of h in
      if by =s= s.sort_by && sort_dir_eq dir s.sort_dir
      then h
      else mutate (record s { sort_by = by; sort_dir = dir; page = 1 }) h
  step (set_filter key value) h =
      let s = state_of h in
      if s.filters key =s= value
      then h
      else mutate (record s { filters = put_filter key value s.filters; page = 1 }) h
  step (set_filters patch) h =
      let s = state_of h in
      if any (λ e. not (s.filters e.0 =s= e.1)) (defined patch)
      then mutate (record s { filters = put_filters (defined patch) s.filters; page = 1 }) h
      else h
  step reload h =
      commit (record h { loading = true; error = none; reload_token = suc h.reload_token })
  step (answer a) h = if h.pending then commit (finished (answered a h)) else h
  step (ignored a) h = h
  step (navigate params) h = commit (record h { params = params })
