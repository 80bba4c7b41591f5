-- ===== src/Table/Owner/Laws.antt =====
-- What clearing and claiming leave in the storage.
use isachore.Base.{
  ◌⊎◌, ℕ, String, ◌≡◌, refl, Bool, true, false, ◌&&◌, ◌||◌, Option, none, some, List, [], ◌∷◌, map,
  any, select, ◌=s=◌, if◌then◌else◌, arith, eq_iff, eq_refl, Bool-cases, inl, inr,
}
use isachore.Web.Number.{Numerals}
use isachore.Web.Store.{Store, Entries, lookup, without, insert, keys}
use isachore.Web.Store.Laws.{lookup-without, lookup-insert, lookup_absent, opened, eq-opened}
use isachore.Table.Owner.{
  owner_key, is_table_key, remove_all, clear_table_settings, settle, claim_table_settings,
}

-- The storage after the removals, one key after the other.
removed : List String → Entries → Entries
removed [] es = es
removed (key ∷ ks) es = removed ks (without key es)

remove_all-removed :
    (ks : List String) (es : Entries) (r : String → String → Bool)
    → remove_all ks (opened es r) ≡ (some tt, opened (removed ks es) r)
unfolding remove_all removed
remove_all-removed [] es r = refl
remove_all-removed (key ∷ ks) es r = remove_all-removed ks (without key es) r

lookup-removed :
    (ks : List String) (k : String) (es : Entries)
    → lookup k (removed ks es) ≡ (if any (λ j. j =s= k) ks then none else lookup k es)
unfolding removed
lookup-removed [] k es = refl
lookup-removed (j ∷ ks) k es =
    ground (arith, lookup-removed ks k (without j es), lookup-without j k es)

any-select :
    (p : String → Bool) (k : String) (ks : List String)
    → any (λ j. j =s= k) (select p ks) ≡ (p k && any (λ j. j =s= k) ks)
any-select p k [] = ground arith
any-select p k (j ∷ ks) = ground (arith, eq_iff j k, any-select p k ks)

-- What is left of the entries.
cleared : Entries → Entries
cleared es = without owner_key (removed (select is_table_key (map (λ e. e.0) es)) es)

clear-cleared :
    (es : Entries) (r : String → String → Bool)
    → clear_table_settings (opened es r) ≡ opened (cleared es) r
unfolding clear_table_settings keys cleared
clear-cleared es r = rw (remove_all-removed (select is_table_key (map (λ e. e.0) es)) es r)

lookup-cleared :
    (es : Entries) (k : String)
    → lookup k (cleared es) ≡ (if is_table_key k || k =s= owner_key then none else lookup k es)
unfolding cleared
lookup-cleared es k = ground (
  arith,
  eq_iff owner_key k,
  eq_iff k owner_key,
  lookup-without owner_key k (removed (select is_table_key (map (λ e. e.0) es)) es),
  lookup-removed (select is_table_key (map (λ e. e.0) es)) k es,
  any-select is_table_key k (map (λ e. e.0) es),
  lookup_absent k es,
)

-- Clearing an open storage forgets every table's settings and their owner, whatever the tables
-- are called, and touches nothing else.
pub lookup-clear_table_settings :
    (s : Store) (k : String)
    → s.blocked ≡ false
    → lookup k (clear_table_settings s).entries
      ≡ (if is_table_key k || k =s= owner_key then none else lookup k s.entries)
lookup-clear_table_settings s k h =
    rw (eq-opened s h) (rw (clear-cleared s.entries s.refuses) (lookup-cleared s.entries k))

-- The owner's key is no table's.
pub owner_key-not_table : is_table_key owner_key ≡ false
unfolding is_table_key
owner_key-not_table = refl

-- Whether the storage is attributed to the account that claims it.
abbrev pub owned_by : String → Option String → Bool
owned_by user none = false
owned_by user (some owner) = owner =s= user

abbrev pub is_owned_by : String → Entries → Bool
is_owned_by user es = owned_by user (lookup owner_key es)

-- What is settled: kept, or cleared.
abbrev settled_by : String → Entries → Option String → Entries
settled_by user es none = if any is_table_key (map (λ e. e.0) es) then cleared es else es
settled_by user es (some owner) = if owner =s= user then es else cleared es

abbrev settled : String → Entries → Entries
settled user es = settled_by user es (lookup owner_key es)

settle-settled :
    (user : String) (es : Entries) (r : String → String → Bool) (owner : Option String)
    → lookup owner_key es ≡ owner
    → settle user owner (opened es r) ≡ (some tt, opened (settled user es) r)
unfolding settle
settle-settled user es r (some owner) e = elim (Bool-cases (owner =s= user)) [
  | inl same ↦ rw (e, same)
  | inr other ↦ rw (e, other) (rw (clear-cleared es r))
]
settle-settled user es r none e = elim (Bool-cases (any is_table_key (map (λ x. x.0) es))) [
  | inl found ↦ rw (e, found) (rw (clear-cleared es r))
  | inr clean ↦ rw (e, clean)
]

claim-settled :
    (num : Numerals) (u : ℕ) (es : Entries) (r : String → String → Bool)
    → claim_table_settings num u (opened es r)
      ≡ opened
          (if r owner_key (num.print u)
            then settled (num.print u) es
            else insert owner_key (num.print u) (settled (num.print u) es))
          r
unfolding claim_table_settings lookup insert
claim-settled num u es r = elim (Bool-cases (r owner_key (num.print u))) [
  | inl refused ↦ rw (settle-settled (num.print u) es r (lookup owner_key es) refl) (rw refused)
  | inr taken ↦ rw (settle-settled (num.print u) es r (lookup owner_key es) refl) (rw taken)
]

pub table_ne_owner : (k : String) → is_table_key k ≡ true → (owner_key =s= k) ≡ false
table_ne_owner k t = ground (arith, eq_iff owner_key k, owner_key-not_table)

absent_of_none :
    (k : String) (ks : List String)
    → is_table_key k ≡ true
    → any is_table_key ks ≡ false
    → any (λ j. j =s= k) ks ≡ false
absent_of_none k [] t h = refl
absent_of_none k (j ∷ ks) t h = ground (arith, eq_iff j k, absent_of_none k ks t)

lookup-settled :
    (user : String) (es : Entries) (k : String)
    → is_table_key k ≡ true
    → lookup k (settled user es) ≡ (if is_owned_by user es then lookup k es else none)
lookup-settled user es k t =
    ground (arith, lookup-cleared es k, lookup_absent k es, absent_of_none k (map (λ e. e.0) es) t)

lookup-settled_other :
    (user : String) (es : Entries) (k : String)
    → (is_table_key k || k =s= owner_key) ≡ false
    → lookup k (settled user es) ≡ lookup k es
lookup-settled_other user es k t = ground (arith, lookup-cleared es k)

-- Claiming an open storage touches no key but the tables' and the owner's.
pub lookup-claim_other :
    (num : Numerals) (u : ℕ) (s : Store) (k : String)
    → s.blocked ≡ false
    → (is_table_key k || k =s= owner_key) ≡ false
    → lookup k (claim_table_settings num u s).entries ≡ lookup k s.entries
lookup-claim_other num u s k h t = rw (eq-opened s h) (
    rw (claim-settled num u s.entries s.refuses)
      (elim (Bool-cases (s.refuses owner_key (num.print u))) [
        | inl refused ↦ rw refused (lookup-settled_other (num.print u) s.entries k t)
        | inr taken ↦
            let other : (owner_key =s= k) ≡ false =
              ground (arith, t, eq_iff k owner_key, eq_iff owner_key k) in
            rw (taken, lookup-insert owner_key k (num.print u) _, other)
              (lookup-settled_other (num.print u) s.entries k t)
      ]))

-- Claiming an open storage keeps a table's settings exactly when they are recorded as the same
-- account's, and forgets them otherwise (another account's, and those of no recorded owner),
-- whether or not the browser takes the owner's name.
pub lookup-claim_table_settings :
    (num : Numerals) (u : ℕ) (s : Store) (k : String)
    → s.blocked ≡ false
    → is_table_key k ≡ true
    → lookup k (claim_table_settings num u s).entries
      ≡ (if is_owned_by (num.print u) s.entries then lookup k s.entries else none)
lookup-claim_table_settings num u s k h t = rw (eq-opened s h) (
    rw (claim-settled num u s.entries s.refuses)
      (elim (Bool-cases (s.refuses owner_key (num.print u))) [
        | inl refused ↦ rw refused (lookup-settled (num.print u) s.entries k t)
        | inr taken ↦
            rw (taken, lookup-insert owner_key k (num.print u) _, table_ne_owner k t)
              (lookup-settled (num.print u) s.entries k t)
      ]))

pub blocked-clear_table_settings :
    (s : Store) → s.blocked ≡ false → (clear_table_settings s).blocked ≡ false
blocked-clear_table_settings s h = rw (eq-opened s h) (rw (clear-cleared s.entries s.refuses))

pub blocked-claim_table_settings :
    (num : Numerals) (u : ℕ) (s : Store)
    → s.blocked ≡ false
    → (claim_table_settings num u s).blocked ≡ false
blocked-claim_table_settings num u s h =
    rw (eq-opened s h) (rw (claim-settled num u s.entries s.refuses))

owner-settled :
    (user : String) (es : Entries) (owner : Option String)
    → lookup owner_key es ≡ owner
    → (lookup owner_key (settled_by user es owner) ≡ none)
      ⊎ (lookup owner_key (settled_by user es owner) ≡ some user)
owner-settled user es none e = ground (arith, lookup-cleared es owner_key, eq_refl owner_key)
owner-settled user es (some owner) e =
    ground (arith, lookup-cleared es owner_key, eq_refl owner_key, eq_iff owner user)

-- After a claim the recorded owner is the claimant or nobody.
pub owner-claim_table_settings :
    (num : Numerals) (u : ℕ) (s : Store)
    → s.blocked ≡ false
    → (lookup owner_key (claim_table_settings num u s).entries ≡ none)
      ⊎ (lookup owner_key (claim_table_settings num u s).entries ≡ some (num.print u))
owner-claim_table_settings num u s h = rw (eq-opened s h) (
    rw (claim-settled num u s.entries s.refuses)
      (elim (Bool-cases (s.refuses owner_key (num.print u))) [
        | inl refused ↦
            rw refused (owner-settled (num.print u) s.entries (lookup owner_key s.entries) refl)
        | inr taken ↦ rw taken (inr (rw (lookup-insert owner_key owner_key (num.print u) _)))
      ]))
