-- ===== src/Table/Owner.antt =====
-- Whose settings the storage holds, of
-- frontend/src/components/data-table/useServerTable.ts: `clearTableSettings`, which forgets every
-- table's settings when a session ends, and `claimTableSettings`, which hands them to the account
-- that signs in.
pub mod Laws
pub mod Sessions
use isachore.Base.{
  ℕ, String, ◌≡◌, Bool, true, false, Option, none, some, List, [], ◌∷◌, any, select, starts_with,
  ◌=s=◌, if◌then◌else◌,
}
use isachore.Web.Number.{Numerals}
use isachore.Web.Store.{
  Store, get_item, set_item, remove_item, keys, Action, ◌>>=◌, ◌>>◌, pure, reading, changing,
  try_catch,
}
use isachore.Table.Settings.{storage_prefix}

abbrev pub owner_key : String
owner_key = "isachore-tables-owner"

unfoldable pub is_table_key : String → Bool
is_table_key key = starts_with key storage_prefix

remove_all : List String → Action (Unit {0})
unfolding remove_item
remove_all [] = pure tt
remove_all (key ∷ ks) = changing (remove_item key) >> remove_all ks

clear_action : Action (Unit {0})
unfolding remove_all keys is_table_key
clear_action = do
  ks ← reading keys
  remove_all (select is_table_key ks)
  changing (remove_item owner_key)

unfoldable pub clear_table_settings : Store → Store
unfolding clear_action
clear_table_settings store = try_catch clear_action store

-- It catches what it throws, so its caller goes on.
forget : Action (Unit {0})
unfolding clear_table_settings
forget store = (some tt, clear_table_settings store)

-- `if (owner !== String(userId)) { … }`
settle : String → Option String → Action (Unit {0})
unfolding forget keys is_table_key
settle user (some owner) = if owner =s= user then pure tt else forget
settle user none = do ks ← reading keys; if any is_table_key ks then forget else pure tt

claim_action : String → Action (Unit {0})
unfolding settle get_item set_item
claim_action user = do
  owner ← reading (get_item owner_key)
  settle user owner
  changing (set_item owner_key user)

unfoldable pub claim_table_settings : Numerals → ℕ → Store → Store
unfolding claim_action
claim_table_settings num user_id store = try_catch (claim_action (num.print user_id)) store
