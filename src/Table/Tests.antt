-- ===== src/Table/Tests.antt =====
-- The table of the administrators' user list: frontend/src/pages/admin/Users.tsx.
use isachore.Base.{
  String, ◌≡◌, refl, false, none, some, List, [], ◌∷◌, ◌=s=◌, if◌then◌else◌, arith, eq_iff,
}
use isachore.Base.Int.{pos}
use isachore.Web.Number.{whole}
use isachore.Web.Params.{Params, get, set}
use isachore.Web.Store.{Store, lookup, insert, without}
use isachore.Web.Tally.{tally, tally_number}
use isachore.Web.Value.{Value, number, text, object, end, field, Json}
use isachore.Table.{
  asc, desc, TableSettings, TableState, derive_state, apply_owned_params, SameState,
}
use isachore.Table.Url.{derive_state-apply_owned_params}
use isachore.Table.Query.{to_api_query_injective}
use isachore.Table.Settings.{read_settings, settings_value, write_settings}
use isachore.Table.Settings.Laws.{
  AreUsable, SameSettings, read_settings-AreUsable, read_settings-write_settings,
}
use isachore.Table.Owner.{owner_key, is_table_key, clear_table_settings, claim_table_settings}

abbrev pub fk : List String
fk = "name" ∷ "email" ∷ "status" ∷ "role" ∷ []

abbrev pub initial : TableSettings
initial = record {
  page_size = 10;
  sort_by = "created_at";
  sort_dir = desc;
  filters = λ key. if key =s= "status" then "active" else "";
}

-- The third page, of all accounts.
abbrev third : TableState
third = record {
  page = 3;
  page_size = 10;
  sort_by = "email";
  sort_dir = asc;
  filters = λ key. if key =s= "email" then "ann" else "";
}

abbrev pub linked : Params
linked = ("tab", "x") ∷ ("page", "1") ∷ []

url_tests :
    (apply_owned_params tally fk initial linked third
      ≡ ("tab", "x")
        ∷ ("page", "111")
        ∷ ("sort_by", "email")
        ∷ ("sort_dir", "asc")
        ∷ ("email", "ann")
        ∷ ("status", "")
        ∷ [])
    × ((derive_state tally fk initial (("status", "") ∷ [])).filters "status" ≡ "")
    × ((derive_state tally fk initial []).filters "status" ≡ "active")
unfolding apply_owned_params derive_state get set
url_tests = (refl, refl, refl)

derive_state-apply_owned_params_example :
    SameState fk
      (derive_state tally fk initial (apply_owned_params tally fk initial linked third))
      third
derive_state-apply_owned_params_example =
    derive_state-apply_owned_params tally fk initial linked third (refl, refl, refl, refl)
      (omega arith) (tally_number 3) (omega arith) (tally_number 10)

to_api_query_injective_example : SameState fk third third
to_api_query_injective_example =
    to_api_query_injective tally fk third third (refl, refl, refl, refl) (tally_number 3)
      (tally_number 3) (tally_number 10) (tally_number 10) refl

-- A JSON codec that knows one object, the settings below.
abbrev saved : TableSettings
saved = record { page_size = 25; sort_by = "email"; sort_dir = desc; filters = λ key. "" }

abbrev pub one_object : Json
one_object = record {
  parse = λ s. if s =s= "{}" then some (settings_value fk saved) else none;
  stringify = λ v. "{}";
}

abbrev empty : Store
empty = record { entries = []; blocked = false; refuses = λ key value. false }

-- Users of the table on a device that two accounts share.
abbrev pub shared : Store
shared = record {
  entries =
      ("isachore-table-admin-users", "{}")
      ∷ (owner_key, tally.print 2)
      ∷ ("isachore-theme", "latte")
      ∷ [];
  blocked = false;
  refuses = λ key value. false;
}

store_tests :
    ((claim_table_settings tally 1 shared).entries
      ≡ ("isachore-theme", "latte") ∷ (owner_key, "1") ∷ [])
    × ((claim_table_settings tally 2 shared).entries ≡ shared.entries)
    × ((clear_table_settings shared).entries ≡ ("isachore-theme", "latte") ∷ [])
    × ((read_settings tally one_object "admin-users" fk initial shared).page_size ≡ 25)
    × ((read_settings tally one_object "other" fk initial shared).page_size ≡ 10)
unfolding claim_table_settings clear_table_settings read_settings is_table_key lookup insert without
    settings_value
store_tests = (refl, refl, refl, refl, refl)

read_settings-AreUsable_example :
    AreUsable (read_settings tally one_object "admin-users" fk initial shared)
read_settings-AreUsable_example =
    read_settings-AreUsable tally one_object "admin-users" fk initial shared
      (omega arith, omega arith, ground (arith, eq_iff "created_at" ""))

read_settings-write_settings_example :
    SameSettings fk
      (read_settings tally one_object "admin-users" fk initial
        (write_settings "admin-users" (one_object.stringify (settings_value fk saved)) empty))
      saved
read_settings-write_settings_example =
    read_settings-write_settings tally one_object "admin-users" fk initial saved empty
      (omega arith, omega arith, ground (arith, eq_iff "email" "")) refl refl refl

-- A page size out of range beside a good sort key, and the sort key alone.
abbrev stale_size : Value
stale_size =
    object (field "pageSize" (number (whole (pos 5000))) (field "sortBy" (text "email") end))

abbrev only_sort : Value
only_sort = object (field "sortBy" (text "email") end)
