-- ===== src/Web/Store.antt =====
-- `localStorage`: texts under keys. Every access throws where the browser blocks the storage, and
-- a write throws where the browser refuses it (a full quota); a call that throws is `none`.
pub mod Laws
use isachore.Base.{
  String, Bool, true, false, Option, none, some, List, [], ◌∷◌, map, ◌=s=◌, if◌then◌else◌,
}

abbrev pub Entries : Type 0
Entries = List (String × String)

pub record Store : Type 0 where
  pub entries : Entries
  pub blocked : Bool
  pub refuses : String → String → Bool

unfoldable pub lookup : String → Entries → Option String
lookup key [] = none
lookup key ((k, v) ∷ es) = if k =s= key then some v else lookup key es

unfoldable pub without : String → Entries → Entries
without key [] = []
without key ((k, v) ∷ es) = if k =s= key then without key es else (k, v) ∷ without key es

unfoldable pub insert : String → String → Entries → Entries
insert key value [] = (key, value) ∷ []
insert key value ((k, v) ∷ es) =
    if k =s= key then (key, value) ∷ es else (k, v) ∷ insert key value es

-- `localStorage.getItem`, `setItem`, `removeItem` and `Object.keys(localStorage)`
unfoldable pub get_item : String → Store → Option (Option String)
get_item key s = if s.blocked then none else some (lookup key s.entries)

unfoldable pub set_item : String → String → Store → Option Store
set_item key value s =
    if s.blocked
    then none
    else if s.refuses key value
    then none
    else some (record s { entries = insert key value s.entries })

unfoldable pub remove_item : String → Store → Option Store
remove_item key s = if s.blocked then none else some (record s { entries = without key s.entries })

unfoldable pub keys : Store → Option (List String)
keys s = if s.blocked then none else some (map (λ e. e.0) s.entries)

-- Code that reads and writes the storage: a call that throws ends it, and what it has changed by
-- then stays changed.
abbrev pub Action : Type 0 → Type 0
Action A = Store → Option A × Store

abbrev and_then : {A B : Type 0} → Option A × Store → (A → Action B) → Option B × Store
and_then (none, s) f = (none, s)
and_then (some a, s) f = f a s

infixl 5 ◌>>=◌ ◌>>◌
abbrev pub ◌>>=◌ : {A B : Type 0} → Action A → (A → Action B) → Action B
◌>>=◌ m f s = and_then (m s) f

abbrev pub ◌>>◌ : {B : Type 0} → Action (Unit {0}) → Action B → Action B
m >> k = m >>= λ _. k

abbrev pub pure : {A : Type 0} → A → Action A
pure a s = (some a, s)

abbrev pub reading : {A : Type 0} → (Store → Option A) → Action A
reading f s = (f s, s)

abbrev pub changing : (Store → Option Store) → Action (Unit {0})
changing f s = elim (f s) [ none ↦ (none, s) | some s' ↦ (some tt, s') ]

-- `try { … } catch {}`
abbrev pub try_catch : Action (Unit {0}) → Store → Store
try_catch m s = (m s).1
