-- ===== src/Table/Owner/Sessions.antt =====
-- Sign-ins, saves and sign-outs in any order, in one browser: whose settings an account finds.
use text.Mathlib.TextLemmas.{prefix-append}
use text.Mathlib.TextEquality.{starts_with_iff}
use isachore.Base.{
  ℕ, String, ◌≡◌, sym, ap, ◌∙◌, ◌⊎◌, inl, inr, true, false, ◌||◌, Option, none, some, ◌=s=◌,
  if◌then◌else◌, arith, eq_iff, Bool-cases,
}
use isachore.Web.Number.{Numerals, IsNumber, print_injective}
use isachore.Web.Store.{Store, Entries, lookup, insert, without}
use isachore.Web.Store.Laws.{lookup-insert, lookup-without}
use isachore.Table.Settings.{storage_prefix, storage_key, write_settings, clear_settings}
use isachore.Table.Owner.{owner_key, is_table_key, clear_table_settings, claim_table_settings}
use isachore.Table.Settings.Laws.{write_settings_taken, clear_settings_open}
use isachore.Table.Owner.Laws.{
  blocked-clear_table_settings, blocked-claim_table_settings, owner-claim_table_settings,
  owner_key-not_table, owned_by, is_owned_by, lookup-clear_table_settings,
  lookup-claim_table_settings,
}

-- The storage, the account that is signed in, and (for the proof alone) the account in whose
-- session each key was last written.
pub record World : Type 0 where
  pub store : Store
  pub session : Option ℕ
  pub writer : String → ℕ

abbrev pub wrote : String → ℕ → (String → ℕ) → String → ℕ
wrote key u writer k = if key =s= k then u else writer k

-- A sign-in claims the settings; a table saves only while somebody is signed in; a sign-out or an
-- expired session clears them; a closed tab leaves the storage as it is. Other code of the
-- client writes other keys.
pub data Step (num : Numerals) : World → World → Type 0 where
  sign_in :
      (w : World) (u : ℕ)
      → IsNumber num u
      → Step num w (record w { store = claim_table_settings num u w.store; session = some u })
  save :
      (w : World) (u : ℕ) (key json_text : String)
      → w.session ≡ some u
      → w.store.refuses (storage_key key) json_text ≡ false
      → Step num w (record w {
        store = write_settings key json_text w.store;
        writer = wrote (storage_key key) u w.writer;
      })
  drop : (w : World) (key : String) → Step num w (record w { store = clear_settings key w.store })
  sign_out :
      (w : World) → Step num w (record w { store = clear_table_settings w.store; session = none })
  close : (w : World) → Step num w (record w { session = none })
  elsewhere :
      (w : World) (es : Entries)
      → ((k : String)
          → (is_table_key k || k =s= owner_key) ≡ true
          → lookup k es ≡ lookup k w.store.entries)
      → Step num w (record w { store = record w.store { entries = es } })

pub data Reach (num : Numerals) (start : World) : World → Type 0 where
  here : Reach num start start
  next : {v w : World} → Reach num start v → Step num v w → Reach num start w

is_table_key-storage_key : (key : String) → is_table_key (storage_key key) ≡ true
unfolding is_table_key
is_table_key-storage_key key = (starts_with_iff _ _).1 (prefix-append storage_prefix key)

module _ (num : Numerals) where
  -- While somebody is signed in, what is stored is theirs, and so is the record of the owner.
  record IsPrivate (w : World) : Type 0 where
    is_open : w.store.blocked ≡ false
    number : (u : ℕ) → w.session ≡ some u → IsNumber num u
    own :
        (u : ℕ) (k v : String)
        → w.session ≡ some u
        → is_table_key k ≡ true
        → lookup k w.store.entries ≡ some v
        → w.writer k ≡ u
    attributed :
        (u : ℕ) (k v : String)
        → IsNumber num u
        → lookup owner_key w.store.entries ≡ some (num.print u)
        → is_table_key k ≡ true
        → lookup k w.store.entries ≡ some v
        → w.writer k ≡ u
    owner :
        (u : ℕ)
        → w.session ≡ some u
        → (lookup owner_key w.store.entries ≡ none)
          ⊎ (lookup owner_key w.store.entries ≡ some (num.print u))

  sign_in-own :
      {w : World} (u : ℕ) (k v : String)
      → IsPrivate w
      → IsNumber num u
      → is_table_key k ≡ true
      → lookup k (claim_table_settings num u w.store).entries ≡ some v
      → w.writer k ≡ u
  sign_in-own {w} u k v p n t l = elim (Bool-cases (is_owned_by (num.print u) w.store.entries)) [
    | inl mine ↦
        p.attributed u k v n (owner_of (lookup owner_key w.store.entries) mine) t
          (rw (lookup-claim_table_settings num u w.store k p.is_open t, mine) at l)
    | inr other ↦
        let gone = rw (lookup-claim_table_settings num u w.store k p.is_open t, other) at l in cc
  ]
    where
      owner_of : (o : Option String) → owned_by (num.print u) o ≡ true → o ≡ some (num.print u)
      owner_of none h = cc
      owner_of (some owner) h = ap some ((eq_iff owner (num.print u)).0 h)

  -- The recorded owner, if any, is the signed-in account.
  owner_unique :
      (a u : ℕ) (o : Option String)
      → IsNumber num a
      → IsNumber num u
      → (o ≡ none) ⊎ (o ≡ some (num.print a))
      → o ≡ some (num.print u)
      → a ≡ u
  owner_unique a u o na nu (inl e) h = cc
  owner_unique a u o na nu (inr e) h = print_injective num a u na nu (cc (e, h))

  saved-own :
      (w : World) (u : ℕ) (key j : String)
      → w.session ≡ some u
      → IsPrivate w
      → (a : ℕ) (k v : String) → w.session ≡ some a
      → is_table_key k ≡ true
      → lookup k (insert (storage_key key) j w.store.entries) ≡ some v
      → wrote (storage_key key) u w.writer k ≡ a
  saved-own w u key j s p a k v e t l =
      ground (arith, p.own a k v e t, lookup-insert (storage_key key) k j w.store.entries)

  saved-owner :
      (w : World) (key j : String)
      → lookup owner_key (insert (storage_key key) j w.store.entries)
        ≡ lookup owner_key w.store.entries
  saved-owner w key j = ground (
    arith,
    lookup-insert (storage_key key) owner_key j w.store.entries,
    eq_iff (storage_key key) owner_key,
    is_table_key-storage_key key,
    owner_key-not_table,
  )

  save-IsPrivate :
      (w : World) (u : ℕ) (key j : String)
      → w.session ≡ some u
      → w.store.refuses (storage_key key) j ≡ false
      → IsPrivate w
      → IsPrivate (record w {
        store = record w.store { entries = insert (storage_key key) j w.store.entries };
        writer = wrote (storage_key key) u w.writer;
      })
  save-IsPrivate w u key j s taken p = record {
    is_open = p.is_open;
    number = p.number;
    own = saved-own w u key j s p;
    attributed = λ x k v n o t l.
        saved-own w u key j s p u k v s t l
        ∙ owner_unique u x (lookup owner_key w.store.entries) (p.number u s) n (p.owner u s)
            (rw (saved-owner w key j) at o);
    owner = λ a e. rw (saved-owner w key j) (p.owner a e);
  }

  dropped :
      (w : World) (es : Entries)
      → ((k v : String) → lookup k es ≡ some v → lookup k w.store.entries ≡ some v)
      → lookup owner_key es ≡ lookup owner_key w.store.entries
      → IsPrivate w
      → IsPrivate (record w { store = record w.store { entries = es } })
  dropped w es less same p = record {
    is_open = p.is_open;
    number = p.number;
    own = λ u k v e t l. p.own u k v e t (less k v l);
    attributed = λ u k v n o t l. p.attributed u k v n (sym same ∙ o) t (less k v l);
    owner = λ u e. rw same (p.owner u e);
  }

  Step-IsPrivate : {w w' : World} → Step num w w' → IsPrivate w → IsPrivate w'
  Step-IsPrivate (sign_in w u n) p = record {
    is_open = blocked-claim_table_settings num u w.store p.is_open;
    number = λ a e. let same : u ≡ a = cc in rw (← same) n;
    own = λ a k v e t l. let same : u ≡ a = cc in sign_in-own u k v p n t l ∙ same;
    attributed = λ x k v m o t l.
        sign_in-own u k v p n t l
        ∙ owner_unique u x _ n m (owner-claim_table_settings num u w.store p.is_open) o;
    owner = λ a e.
        let same : u ≡ a = cc in rw (← same) (owner-claim_table_settings num u w.store p.is_open);
  }
  Step-IsPrivate (save w u key j s taken) p =
      rw (write_settings_taken key j w.store p.is_open taken) (save-IsPrivate w u key j s taken p)
  Step-IsPrivate (drop w key) p = rw (clear_settings_open key w.store p.is_open) (
      dropped w (without (storage_key key) w.store.entries)
        (λ k v l. ground (arith, lookup-without (storage_key key) k w.store.entries))
        (ground (
          arith,
          lookup-without (storage_key key) owner_key w.store.entries,
          eq_iff (storage_key key) owner_key,
          is_table_key-storage_key key,
          owner_key-not_table,
        ))
        p)
  Step-IsPrivate (sign_out w) p = record {
    is_open = blocked-clear_table_settings w.store p.is_open;
    number = λ u e. cc;
    own = λ u k v e t l. cc;
    attributed = λ u k v n o t l. cc (rw (lookup-clear_table_settings w.store k p.is_open, t) at l);
    owner = λ u e. cc;
  }
  Step-IsPrivate (close w) p = record {
    is_open = p.is_open;
    number = λ u e. cc;
    own = λ u k v e t l. cc;
    attributed = p.attributed;
    owner = λ u e. cc;
  }
  Step-IsPrivate (elsewhere w es same) p = record {
    is_open = p.is_open;
    number = p.number;
    own = λ u k v e t l. p.own u k v e t (sym (same k (rw t)) ∙ l);
    attributed = λ u k v n o t l.
        p.attributed u k v n (sym (same owner_key (ground arith)) ∙ o) t (sym (same k (rw t)) ∙ l);
    owner = λ u e. rw (same owner_key (ground arith)) (p.owner u e);
  }

  Reach-IsPrivate : {start w : World} → IsPrivate start → Reach num start w → IsPrivate w
  Reach-IsPrivate p here = p
  Reach-IsPrivate p (next r s) = Step-IsPrivate s (Reach-IsPrivate p r)

fresh-IsPrivate :
    (num : Numerals) (start : World)
    → start.store.blocked ≡ false
    → start.session ≡ none
    → ((key : String) → is_table_key key ≡ true → lookup key start.store.entries ≡ none)
    → IsPrivate num start
fresh-IsPrivate num start b n e = record {
  is_open = b;
  number = λ u s. cc;
  own = λ u k v s t l. cc;
  attributed = λ u k v _ _ t l. cc (e k t);
  owner = λ u s. cc;
}

-- In any course of sign-ins, saves, sign-outs and closed tabs from a browser with no table
-- settings, whose storage is open: what the account that is signed in finds under a table's key
-- was written in a session of its own.
pub own_settings :
    (num : Numerals) (start w : World) (u : ℕ) (k v : String)
    → start.store.blocked ≡ false
    → start.session ≡ none
    → ((key : String) → is_table_key key ≡ true → lookup key start.store.entries ≡ none)
    → Reach num start w
    → w.session ≡ some u
    → is_table_key k ≡ true
    → lookup k w.store.entries ≡ some v
    → w.writer k ≡ u
own_settings num start w u k v b n e r s t l =
    (Reach-IsPrivate num (fresh-IsPrivate num start b n e) r).own u k v s t l
