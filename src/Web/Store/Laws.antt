-- ===== src/Web/Store/Laws.antt =====
-- What the storage reads after a change.
use isachore.Base.{
  String, ◌≡◌, refl, none, some, Bool, false, [], ◌∷◌, map, any, ◌=s=◌, if◌then◌else◌, arith,
  eq_iff,
}
use isachore.Web.Store.{Store, Entries, lookup, without, insert}

pub lookup-without :
    (key k : String) (es : Entries)
    → lookup k (without key es) ≡ (if key =s= k then none else lookup k es)
unfolding lookup without
lookup-without key k [] = ground arith
lookup-without key k ((j, v) ∷ es) =
    ground (arith, eq_iff j key, eq_iff key k, eq_iff j k, lookup-without key k es)

pub lookup-insert :
    (key k value : String) (es : Entries)
    → lookup k (insert key value es) ≡ (if key =s= k then some value else lookup k es)
unfolding lookup insert
lookup-insert key k value [] = refl
lookup-insert key k value ((j, v) ∷ es) =
    ground (arith, eq_iff j key, eq_iff key k, eq_iff j k, lookup-insert key k value es)

-- A storage that the browser does not block.
abbrev pub opened : Entries → (String → String → Bool) → Store
opened es refuses = record { entries = es; blocked = false; refuses = refuses }

pub eq-opened : (s : Store) → s.blocked ≡ false → s ≡ opened s.entries s.refuses
eq-opened s h i = record { entries = s.entries; blocked = h i; refuses = s.refuses }

pub lookup_absent :
    (k : String) (es : Entries)
    → any (λ j. j =s= k) (map (λ e. e.0) es) ≡ false
    → lookup k es ≡ none
unfolding lookup
lookup_absent k [] h = refl
lookup_absent k ((j, v) ∷ es) h = ground (arith, lookup_absent k es)
