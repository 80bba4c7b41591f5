-- ===== src/Table/View.antt =====
-- The controls of frontend/src/components/data-table/DataTable.tsx over the hook: the two buttons
-- of the footer, the Select of the page size, and the headers that sort. The library calls
-- `onSortingChange` with the new sorting, empty where none is left.
use isachore.Base.{
  ℕ, suc, ◌+◌, ◌-◌, ◌≤◌, String, ◌≡◌, refl, ◌∙◌, Bool, false, Option, none, some, List, [], ◌∷◌,
  leb, ◌==◌, if◌then◌else◌, arith,
}
use isachore.Web.Number.{Numerals, max_safe}
use isachore.Web.Value.{Json}
use isachore.Table.{TableSettings, TableState, asc, desc, AreFilterKeys}
use isachore.Table.Hook.{Hook, Event, state_of, page_count, step}
use isachore.Table.Hook.Calls.{IsPositive}
use isachore.Table.Hook.Commit.{Inv}
use isachore.Table.Hook.Setters.{step-intend}
use isachore.Table.Hook.Loading.{shown-IsPositive}

abbrev pub page_size_options : List ℕ
page_size_options = 10 ∷ 20 ∷ 50 ∷ 100 ∷ []

-- `onSortingChange`, on the first entry of the new sorting: a column and whether it descends.
abbrev pub sorting_event : {Row : Type 0} → List (String × Bool) → Option (Event Row)
sorting_event [] = none
sorting_event ((id, descends) ∷ rest) = some (Event.set_sort id (if descends then desc else asc))

abbrev pub previous_disabled : TableState → Bool
previous_disabled s = leb s.page 1

abbrev pub next_disabled : TableState → ℕ → Bool
next_disabled s total = leb (page_count total s.page_size) s.page

abbrev pub previous_event : {Row : Type 0} → TableState → Event Row
previous_event s = Event.set_page (s.page - 1)

abbrev pub next_event : {Row : Type 0} → TableState → Event Row
next_event s = Event.set_page (s.page + 1)

leb_no : (a b : ℕ) → leb a b ≡ false → suc b ≤ a
leb_no a b e = ground (arith, e)

moved :
    (a b : ℕ) (s : TableState)
    → (a == b) ≡ false
    → s.page ≡ b
    → (if a == s.page then s else record s { page = a }).page ≡ a
moved a b s e q = rw (q, e) refl

module _ (num : Numerals) (json : Json) (fk : List String) (sk : Option String) (pd : TableSettings)
    {Row : Type 0} where
  -- By way of the query string, for a table as its hook keeps it, filters not named like its other
  -- parameters, and pages that a number counts exactly: the button for the next page, where it is
  -- not disabled, goes one page on, to a page that there is for the rows that were counted last;
  -- and the button for the previous page, where it is not disabled, goes one page back, to the
  -- first page or a later one (past the last, if the table was further past it).
  pub buttons_stay :
      (h : Hook Row)
      → AreFilterKeys fk
      → Inv num json fk sk pd h
      → let s = state_of num json fk sk pd h in
        page_count h.total s.page_size ≤ max_safe
        → (next_disabled s h.total ≡ false
            → let t = state_of num json fk sk pd (step num json fk sk pd (next_event s) h) in
              (t.page ≡ s.page + 1) × (1 ≤ t.page) × (t.page ≤ page_count h.total s.page_size))
          × (previous_disabled s ≡ false
              → s.page ≤ max_safe
              → let t = state_of num json fk sk pd (step num json fk sk pd (previous_event s) h) in
                (t.page + 1 ≡ s.page) × (1 ≤ t.page))
  buttons_stay h fresh i few =
      let s = state_of num json fk sk pd h in
      let (low, _) = (shown-IsPositive num json fk sk pd h i).0 in
      (
        λ e.
            let below : suc s.page ≤ page_count h.total s.page_size = leb_no _ _ e in
            let call : IsPositive num (s.page + 1) =
              (omega arith, num.read-print (s.page + 1) (omega (arith, below, few))) in
            let q =
              (step-intend num json fk sk pd (next_event s) h fresh call tt i).page
              ∙ moved (s.page + 1) s.page s (ground arith) refl in
            (q, omega (arith, q), omega (arith, q, below)),
        λ e most.
            let above : suc 1 ≤ s.page = leb_no _ _ e in
            let call : IsPositive num (s.page - 1) =
              (omega (arith, above), num.read-print (s.page - 1) (omega (arith, most))) in
            let q =
              (step-intend num json fk sk pd (previous_event s) h fresh call tt i).page
              ∙ moved (s.page - 1) s.page s (ground (arith, above)) refl in
            (omega (arith, q, above), omega (arith, q, above)),
      )
