-- ===== src/Table/Settings.antt =====
-- The settings that a table remembers in the local storage, of
-- frontend/src/components/data-table/useServerTable.ts: `readSettings`, `writeSettings`,
-- `clearSettings`.
pub mod Laws
use Prim.Native.String
use isachore.Base.{
  ℕ, String, ◌≡◌, Bool, true, false, not, ◌&&◌, Option, none, some, List, [], ◌∷◌, leb, ◌=s=◌,
  if◌then◌else◌,
}
use isachore.Base.Int.{pos, negsuc}
use isachore.Web.Number.{JsNumber, whole, other, Numerals}
use isachore.Web.Store.{Store, get_item, set_item, remove_item}
use isachore.Web.Value.{
  Value, null, bool, number, text, array, object, Fields, end, field, property, is_object, Json,
}
use isachore.Table.{SortDir, asc, desc, Filters, TableSettings, sort_dir_text, has_key}

abbrev pub storage_prefix : String
storage_prefix = "isachore-table-"

abbrev pub storage_key : String → String
storage_key key = String.◌++◌ storage_prefix key

abbrev pub max_page_size : ℕ
max_page_size = 100

-- What each property of the stored object is worth; the fallback is the page's own default.
unfoldable pub stored_page_size : Option Value → ℕ → ℕ
stored_page_size (some (number (whole (pos n)))) fallback =
    if leb 1 n && leb n max_page_size then n else fallback
stored_page_size _ fallback = fallback

unfoldable pub stored_sort_by : Option Value → String → String
stored_sort_by (some (text s)) fallback = if s =s= "" then fallback else s
stored_sort_by _ fallback = fallback

unfoldable pub stored_sort_dir : Option Value → SortDir → SortDir
stored_sort_dir (some (text s)) fallback =
    if s =s= "asc" then asc else if s =s= "desc" then desc else fallback
stored_sort_dir _ fallback = fallback

unfoldable pub stored_filter : Option Value → String → String
stored_filter (some (text s)) fallback = s
stored_filter _ fallback = fallback

-- `{}` stands in for filters that are no object.
unfoldable pub stored_filters : Option Value → Value
stored_filters none = object end
stored_filters (some v) = if is_object v then v else object end

module _ (num : Numerals) where
  -- The keys are those of `initial.filters`: at another one the function is left at the default.
  unfoldable pub settings_of_value : List String → TableSettings → Value → TableSettings
  unfolding stored_page_size stored_sort_by stored_sort_dir stored_filter stored_filters property
  settings_of_value filter_keys initial v =
      if is_object v
      then record {
        page_size = stored_page_size (property num "pageSize" v) initial.page_size;
        sort_by = stored_sort_by (property num "sortBy" v) initial.sort_by;
        sort_dir = stored_sort_dir (property num "sortDir" v) initial.sort_dir;
        filters = λ key.
            if has_key key filter_keys
            then stored_filter (property num key (stored_filters (property num "filters" v)))
                (initial.filters key)
            else initial.filters key;
      }
      else initial

module _ (num : Numerals) (json : Json) where
  settings_of_text : List String → TableSettings → Option Value → TableSettings
  unfolding settings_of_value
  settings_of_text filter_keys initial none = initial
  settings_of_text filter_keys initial (some v) = settings_of_value num filter_keys initial v

  settings_of_item : List String → TableSettings → Option (Option String) → TableSettings
  unfolding settings_of_text
  settings_of_item filter_keys initial (some (some raw)) =
      settings_of_text filter_keys initial (json.parse raw)
  settings_of_item filter_keys initial _ = initial

  unfoldable pub read_settings : String → List String → TableSettings → Store → TableSettings
  unfolding settings_of_item get_item
  read_settings key filter_keys initial store =
      settings_of_item filter_keys initial (get_item (storage_key key) store)

-- The object that is written, its filters in the order of the page's keys.
filter_fields : Filters → List String → Fields
filter_fields filters [] = end
filter_fields filters (key ∷ keys) = field key (text (filters key)) (filter_fields filters keys)

unfoldable pub settings_value : List String → TableSettings → Value
unfolding filter_fields
settings_value filter_keys s = object (
    field "pageSize" (number (whole (pos s.page_size))) (
      field "sortBy" (text s.sort_by) (
        field "sortDir" (text (sort_dir_text s.sort_dir))
          (field "filters" (object (filter_fields s.filters filter_keys)) end))))

-- A call that throws is caught, and leaves the storage as it was.
unfoldable pub caught : Option Store → Store → Store
caught none store = store
caught (some store') store = store'

unfoldable pub write_settings : String → String → Store → Store
unfolding caught set_item
write_settings key json_text store = caught (set_item (storage_key key) json_text store) store

unfoldable pub clear_settings : String → Store → Store
unfolding caught remove_item
clear_settings key store = caught (remove_item (storage_key key) store) store
