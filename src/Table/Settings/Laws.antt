-- ===== src/Table/Settings/Laws.antt =====
-- What a table finds in the storage.
use isachore.Base.{
  ℕ, ◌≤◌, String, ◌≡◌, ◌≢◌, refl, true, false, Option, none, some, List, [], ◌∷◌, inl, inr, arith,
  eq_iff, eq_refl, Bool-cases,
}
use isachore.Web.Number.{Numerals}
use isachore.Web.Store.{Store, without, insert, get_item}
use isachore.Web.Store.Laws.{lookup-insert}
use isachore.Web.Value.{Value, text, field_of, property, is_object, Json}
use isachore.Table.{SortDir, asc, desc, Filters, TableSettings, sort_dir_text, has_key}
use isachore.Table.Settings.{
  storage_key, max_page_size, stored_page_size, stored_sort_by, stored_sort_dir, settings_of_value,
  settings_of_text, settings_of_item, read_settings, filter_fields, settings_value, write_settings,
  clear_settings,
}

-- A page size that the API takes, and a sort key.
abbrev pub AreUsable : TableSettings → Type 0
AreUsable s = (1 ≤ s.page_size) × (s.page_size ≤ max_page_size) × (s.sort_by ≢ "")

stored_page_size-bounds :
    (o : Option Value) (n : ℕ)
    → 1 ≤ n
    → n ≤ max_page_size
    → (1 ≤ stored_page_size o n) × (stored_page_size o n ≤ max_page_size)
unfolding stored_page_size
stored_page_size-bounds o n h k = ground arith

stored_sort_by-ne : (o : Option Value) (s : String) → s ≢ "" → stored_sort_by o s ≢ ""
unfolding stored_sort_by
stored_sort_by-ne (some (text t)) s h = ground (arith, eq_iff t "")
stored_sort_by-ne _ s h = h

settings_of_value-AreUsable :
    (num : Numerals) (fk : List String) (initial : TableSettings) (v : Value)
    → AreUsable initial
    → AreUsable (settings_of_value num fk initial v)
unfolding settings_of_value
settings_of_value-AreUsable num fk initial v (lo, hi, ne) = elim (Bool-cases (is_object v)) [
  | inl e ↦
      let (a, b) = stored_page_size-bounds (property num "pageSize" v) initial.page_size lo hi in
      rw e (a, b, stored_sort_by-ne (property num "sortBy" v) initial.sort_by ne)
  | inr e ↦ rw e (lo, hi, ne)
]

settings_of_text-AreUsable :
    (num : Numerals) (json : Json) (fk : List String) (initial : TableSettings) (o : Option Value)
    → AreUsable initial
    → AreUsable (settings_of_text num json fk initial o)
unfolding settings_of_text
settings_of_text-AreUsable num json fk initial none h = h
settings_of_text-AreUsable num json fk initial (some v) h =
    settings_of_value-AreUsable num fk initial v h

settings_of_item-AreUsable :
    (num : Numerals) (json : Json) (fk : List String) (initial : TableSettings)
    (o : Option (Option String))
    → AreUsable initial
    → AreUsable (settings_of_item num json fk initial o)
unfolding settings_of_item
settings_of_item-AreUsable num json fk initial (some (some raw)) h =
    settings_of_text-AreUsable num json fk initial (json.parse raw) h
settings_of_item-AreUsable num json fk initial (some none) h = h
settings_of_item-AreUsable num json fk initial none h = h

-- Whatever the storage holds (nothing, no JSON, values of other types or out of range), what is
-- restored has a page size from 1 to the API's limit and a sort key, if the page's defaults do.
pub read_settings-AreUsable :
    (num : Numerals) (json : Json) (key : String) (fk : List String) (initial : TableSettings)
    (store : Store)
    → AreUsable initial
    → AreUsable (read_settings num json key fk initial store)
unfolding read_settings
read_settings-AreUsable num json key fk initial store h =
    settings_of_item-AreUsable num json fk initial (get_item (storage_key key) store) h

-- Each remembered field stands for itself: it depends on its own property alone, so a stale value
-- in one of them cannot discard another.
pub settings_of_value-independent :
    (num : Numerals) (fk : List String) (initial : TableSettings) (v w : Value)
    → is_object v ≡ true
    → is_object w ≡ true
    → (property num "pageSize" v ≡ property num "pageSize" w
        → (settings_of_value num fk initial v).page_size
          ≡ (settings_of_value num fk initial w).page_size)
      × (property num "sortBy" v ≡ property num "sortBy" w
          → (settings_of_value num fk initial v).sort_by
            ≡ (settings_of_value num fk initial w).sort_by)
      × (property num "sortDir" v ≡ property num "sortDir" w
          → (settings_of_value num fk initial v).sort_dir
            ≡ (settings_of_value num fk initial w).sort_dir)
      × (property num "filters" v ≡ property num "filters" w
          → (settings_of_value num fk initial v).filters
            ≡ (settings_of_value num fk initial w).filters)
unfolding settings_of_value
settings_of_value-independent num fk initial v w hv hw =
    rw (hv, hw) (λ e. rw e, λ e. rw e, λ e. rw e, λ e. rw e)

field_of-filter_fields :
    (filters : Filters) (keys : List String) (key : String)
    → has_key key keys ≡ true
    → field_of key (filter_fields filters keys) ≡ some (text (filters key))
unfolding field_of filter_fields
field_of-filter_fields filters [] key h = cc
field_of-filter_fields filters (k ∷ keys) key h =
    ground (arith, eq_iff k key, field_of-filter_fields filters keys key)

-- Equal at the table's own filter keys, which are all that it reads.
pub record SameSettings (fk : List String) (s t : TableSettings) : Type 0 where
  pub page_size : s.page_size ≡ t.page_size
  pub sort_by : s.sort_by ≡ t.sort_by
  pub sort_dir : s.sort_dir ≡ t.sort_dir
  pub filters : (key : String) → has_key key fk ≡ true → s.filters key ≡ t.filters key

stored_dir : (a d : SortDir) → stored_sort_dir (some (text (sort_dir_text a))) d ≡ a
unfolding stored_sort_dir
stored_dir asc d = refl
stored_dir desc d = refl

settings_of_value-settings_value :
    (num : Numerals) (fk : List String) (initial s : TableSettings)
    → AreUsable s
    → SameSettings fk (settings_of_value num fk initial (settings_value fk s)) s
unfolding settings_of_value settings_value
settings_of_value-settings_value num fk initial s (lo, hi, ne) = record {
  page_size = ground arith;
  sort_by = ground (arith, eq_iff s.sort_by "");
  sort_dir = stored_dir s.sort_dir initial.sort_dir;
  filters = λ key h. rw h (rw (field_of-filter_fields s.filters fk key h));
}

pub write_settings_taken :
    (key value : String) (store : Store)
    → store.blocked ≡ false
    → store.refuses (storage_key key) value ≡ false
    → write_settings key value store
      ≡ record store { entries = insert (storage_key key) value store.entries }
unfolding write_settings
write_settings_taken key value store open_store taken = rw (open_store, taken)

-- A write that the browser does not take leaves the storage as it was.
pub write_settings_refused :
    (key value : String) (store : Store)
    → store.refuses (storage_key key) value ≡ true
    → write_settings key value store ≡ store
unfolding write_settings
write_settings_refused key value store refused = elim (Bool-cases store.blocked) [
  | inl b ↦ simp b
  | inr b ↦ simp (b, refused)
]

-- Settings that were written are the settings that are read on the next visit, whatever the
-- defaults: where their page size is one that the API takes and their sort key is not empty, the
-- storage is open and takes the write, and JSON gives the object back.
pub read_settings-write_settings :
    (num : Numerals) (json : Json) (key : String) (fk : List String) (initial s : TableSettings)
    (store : Store)
    → AreUsable s
    → store.blocked ≡ false
    → store.refuses (storage_key key) (json.stringify (settings_value fk s)) ≡ false
    → json.parse (json.stringify (settings_value fk s)) ≡ some (settings_value fk s)
    → SameSettings fk
        (read_settings num json key fk initial
          (write_settings key (json.stringify (settings_value fk s)) store))
        s
unfolding read_settings write_settings
read_settings-write_settings num json key fk initial s store h open_store taken parsed =
    rw (write_settings_taken key _ store open_store taken) (
      rw
        (
          open_store,
          lookup-insert (storage_key key) (storage_key key) _ store.entries,
          eq_refl (storage_key key),
          parsed,
        )
        (settings_of_value-settings_value num fk initial s h))

pub clear_settings_open :
    (key : String) (store : Store)
    → store.blocked ≡ false
    → clear_settings key store ≡ record store { entries = without (storage_key key) store.entries }
unfolding clear_settings
clear_settings_open key store open_store = rw open_store
