-- ===== src/Table.antt =====
-- frontend/src/components/data-table/useServerTable.ts: the state of a server-driven table, kept
-- in the query string. This module has the pure part: reading the state from the query string,
-- writing it back, and the request that it stands for.
--
-- `Record<string, string>` is a function from keys, read at the page's own filter keys only.
pub mod Url
pub mod Query
pub mod Settings
pub mod Owner
pub mod Hook
pub mod View
mod Tests
use isachore.Base.{
  ℕ, ◌≤◌, String, ◌≡◌, Bool, true, false, not, ◌&&◌, Option, none, some, List, [], ◌∷◌, ◌++◌, any,
  leb, ◌==◌, ◌=s=◌, if◌then◌else◌,
}
use isachore.Base.Int.{pos, negsuc}
use isachore.Web.Number.{JsNumber, whole, other, Numerals}
use isachore.Web.Params.{Params, get, delete, set}

pub data SortDir : Type 0 where
  asc desc : SortDir

abbrev pub Filters : Type 0
Filters = String → String

pub record TableSettings : Type 0 where
  pub page_size : ℕ
  pub sort_by : String
  pub sort_dir : SortDir
  pub filters : Filters

pub record TableState : Type 0 where
  pub page : ℕ
  pub page_size : ℕ
  pub sort_by : String
  pub sort_dir : SortDir
  pub filters : Filters

abbrev pub sort_dir_text : SortDir → String
sort_dir_text asc = "asc"
sort_dir_text desc = "desc"

abbrev pub sort_dir_eq : SortDir → SortDir → Bool
sort_dir_eq asc asc = true
sort_dir_eq desc desc = true
sort_dir_eq _ _ = false

-- `x ?? fallback`
abbrev pub or_else {ℓ} : {A : Type ℓ} → Option A → A → A
or_else none fallback = fallback
or_else (some x) fallback = x

-- `Number(null)` is 0, which is no positive number.
unfoldable pub positive_number : JsNumber → ℕ → ℕ
positive_number (whole (pos n)) fallback = if leb 1 n then n else fallback
positive_number (whole (negsuc n)) fallback = fallback
positive_number other fallback = fallback

unfoldable pub positive_int : Numerals → Option String → ℕ → ℕ
unfolding positive_number
positive_int num none fallback = fallback
positive_int num (some raw) fallback = positive_number (num.read raw) fallback

unfoldable pub parse_sort_dir : Option String → SortDir → SortDir
parse_sort_dir none fallback = fallback
parse_sort_dir (some raw) fallback =
    if raw =s= "asc" then asc else if raw =s= "desc" then desc else fallback

abbrev pub has_key : String → List String → Bool
has_key key keys = any (λ k. k =s= key) keys

-- The loops over the owned keys and over the filters.
unfoldable pub delete_all : List String → Params → Params
delete_all [] params = params
delete_all (key ∷ keys) params = delete_all keys (delete key params)

abbrev pub set_unless : Bool → String → String → Params → Params
set_unless skip name value params = if skip then params else set name value params

unfoldable pub set_filters_unless : (String → Bool) → Filters → List String → Params → Params
set_filters_unless skip filters [] params = params
set_filters_unless skip filters (key ∷ keys) params =
    set_filters_unless skip filters keys (set_unless (skip key) key (filters key) params)

abbrev pub page_keys : List String
page_keys = "page" ∷ "page_size" ∷ "sort_by" ∷ "sort_dir" ∷ []

module _ (num : Numerals) (filter_keys : List String) where
  -- The state that a query string stands for, the defaults in place of absent keys.
  unfoldable pub derive_state : TableSettings → Params → TableState
  unfolding positive_int parse_sort_dir
  derive_state defaults params = record {
    page = positive_int num (get "page" params) 1;
    page_size = positive_int num (get "page_size" params) defaults.page_size;
    sort_by = or_else (get "sort_by" params) defaults.sort_by;
    sort_dir = parse_sort_dir (get "sort_dir" params) defaults.sort_dir;
    filters = λ key. or_else (get key params) (defaults.filters key);
  }

  -- The table's own keys rewritten in a query string, a value equal to its default left out.
  unfoldable pub apply_owned_params : TableSettings → Params → TableState → Params
  unfolding delete_all set_filters_unless
  apply_owned_params defaults base state =
      let bare = delete_all (page_keys ++ filter_keys) base in
      let paged = set_unless (state.page == 1) "page" (num.print state.page) bare in
      let sized =
        set_unless (state.page_size == defaults.page_size) "page_size" (num.print state.page_size)
          paged in
      let by = set_unless (state.sort_by =s= defaults.sort_by) "sort_by" state.sort_by sized in
      let sorted =
        set_unless (sort_dir_eq state.sort_dir defaults.sort_dir) "sort_dir"
          (sort_dir_text state.sort_dir) by in
      set_filters_unless (λ key. state.filters key =s= defaults.filters key) state.filters
        filter_keys sorted

  -- The request: page, size and sort always, and the filters that are not empty.
  unfoldable pub to_api_query : TableState → Params
  unfolding set_filters_unless
  to_api_query state =
      let paged = set "page" (num.print state.page) [] in
      let sized = set "page_size" (num.print state.page_size) paged in
      let by = set "sort_by" state.sort_by sized in
      let sorted = set "sort_dir" (sort_dir_text state.sort_dir) by in
      set_filters_unless (λ key. state.filters key =s= "") state.filters filter_keys sorted

-- Two states that the table cannot tell apart: they may differ at texts that are no filter key.
pub record SameState (filter_keys : List String) (s t : TableState) : Type 0 where
  pub page : s.page ≡ t.page
  pub page_size : s.page_size ≡ t.page_size
  pub sort_by : s.sort_by ≡ t.sort_by
  pub sort_dir : s.sort_dir ≡ t.sort_dir
  pub filters : (key : String) → has_key key filter_keys ≡ true → s.filters key ≡ t.filters key

-- No filter has the name of one of the table's other parameters.
abbrev pub AreFilterKeys : List String → Type 0
AreFilterKeys keys =
    (has_key "page" keys ≡ false)
    × (has_key "page_size" keys ≡ false)
    × (has_key "sort_by" keys ≡ false)
    × (has_key "sort_dir" keys ≡ false)
