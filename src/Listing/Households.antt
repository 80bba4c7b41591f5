-- ===== src/Listing/Households.antt =====
-- frontend/src/pages/Chores.tsx and Tags.tsx: the filter by household, whose choices are the
-- households that the user organises.
use isachore.Base.{
  String, ◌≡◌, refl, sym, ◌∙◌, ◌⊎◌, inl, inr, Bool, true, false, not, ◌&&◌, ◌||◌, Option, none,
  some, List, [], ◌∷◌, map, Memᴰ, ◌=s=◌, if◌then◌else◌, arith, eq_iff, Bool-cases,
}
use isachore.Types.{Household, Membership, organiser, Page}
use isachore.Permissions.{household_ids_with_role, has_role_in}
use isachore.Permissions.Households.{HasDistinctHouseholds, mem-household_ids_with_role}
use isachore.Web.Number.{Numerals}
use isachore.Web.Params.{Params}
use isachore.Web.Store.{Store}
use isachore.Web.Value.{Json}
use isachore.Table.{Filters, TableSettings, TableState, asc, desc, has_key, AreFilterKeys}
use isachore.Table.Settings.Laws.{AreUsable}
use isachore.Table.Hook.{Event, state_of}
use isachore.Table.Hook.Calls.{IsCall}
use isachore.Table.Hook.Setters.{IsSetter}
use isachore.Listing.{Act, Pruner, applied, act, acts, opened}
use isachore.Listing.Names.{names_id, among, named_among, all_live}
use isachore.Listing.Kept.{AreCalls}
use isachore.Listing.Pruned.{AreOwn, filters_stay_live}

abbrev pub chores_keys : List String
chores_keys = "household_id" ∷ "title" ∷ []

abbrev pub tags_keys : List String
tags_keys = "household_id" ∷ []

abbrev pub chores_defaults : TableSettings
chores_defaults = record {
  page_size = 10;
  sort_by = "created_at";
  sort_dir = desc;
  filters = λ key. "";
}

abbrev pub tags_defaults : TableSettings
tags_defaults = record { page_size = 10; sort_by = "name"; sort_dir = asc; filters = λ key. "" }

-- `page.items.filter((h) => organised.has(h.id))`
unfoldable pub mine : List Membership → Page Household → List Household
mine memberships data_page =
    among (λ h. h.id) (household_ids_with_role memberships organiser) data_page.items

unfoldable pub household_alive : Numerals → Option (List Household) → String → Bool
household_alive num none value = true
household_alive num (some hs) value = names_id num (map (λ h. h.id) hs) value

-- `if (active !== '' && !mine.some(...)) setFilter('household_id', '')`
unfoldable pub household_prune :
    {Row : Type 0} → Numerals → Option (List Household) → Filters → Option (Event Row)
unfolding household_alive
household_prune num o f =
    if not (f "household_id" =s= "") && not (household_alive num o (f "household_id"))
    then some (Event.set_filter "household_id" "")
    else none

abbrev pub household_live : Numerals → Option (List Household) → String → String → Bool
household_live num o key value =
    value =s= "" || (if key =s= "household_id" then household_alive num o value else true)

module _ (num : Numerals) (fk : List String) (Row : Type 0)
    (filtered : has_key "household_id" fk ≡ true) where
  pub household_prune-IsCall :
      (o : Option (List Household)) (f : Filters) (e : Event Row)
      → household_prune num o f ≡ some e
      → IsCall num fk e × IsSetter e
  unfolding household_prune
  household_prune-IsCall o f e =
      called (not (f "household_id" =s= "") && not (household_alive num o (f "household_id")))
    where
      called :
          (b : Bool)
          → (if b then some (Event.set_filter "household_id" "") else none) ≡ some e
          → IsCall num fk e × IsSetter e
      called true q = let r : Event.set_filter "household_id" "" ≡ e = cc in rw (← r) (filtered, tt)
      called false q = cc

  pub household_prune-exact :
      (o : Option (List Household)) (s : TableState) (key : String)
      → (applied {Row = Row} (household_prune num o s.filters) s).filters key
        ≡ (if household_live num o key (s.filters key) then s.filters key else "")
  unfolding household_prune
  household_prune-exact o s key = elim (Bool-cases (key =s= "household_id")) [
    | inl e ↦
        let q : key ≡ "household_id" = (eq_iff key "household_id").0 e in
        rw q (
          here (s.filters "household_id" =s= "") (household_alive num o (s.filters "household_id"))
            refl)
    | inr e ↦ rw e (
        other
          (not (s.filters "household_id" =s= "")
            && not (household_alive num o (s.filters "household_id")))
          e
        ∙ sym (all_live (s.filters key =s= "") (s.filters key)))
  ]
    where
      here :
          (a b : Bool)
          → (s.filters "household_id" =s= "") ≡ a
          → (applied {Row = Row}
                (if not a && not b then some (Event.set_filter "household_id" "") else none)
                s).filters
              "household_id"
            ≡ (if a || b then s.filters "household_id" else "")
      here true b e = refl
      here false true e = refl
      here false false e = rw e refl

      other :
          (b : Bool)
          → (key =s= "household_id") ≡ false
          → (applied {Row = Row}
                (if b then some (Event.set_filter "household_id" "") else none)
                s).filters
              key
            ≡ s.filters key
      other false e = refl
      other true e =
          let d : ("household_id" =s= key) ≡ false =
            ground (arith, eq_iff key "household_id", eq_iff "household_id" key) in
          elim (Bool-cases (s.filters "household_id" =s= "")) [
            | inl f ↦ rw f refl
            | inr f ↦ rw (f, d) refl
          ]

  -- The dependency is the set of organised households, a new object with every change of the
  -- memberships.
  unfoldable pub household_page :
      Pruner num fk Row (List Membership) (Page Household) (List Household)
  unfolding household_prune household_alive mine
  household_page = record {
    same_dep = λ a b. false;
    nothing = [];
    scope = mine;
    prune = λ d. household_prune num;
    live = λ d. household_live num;
    live_empty = λ d o key. refl;
    call = λ d o. household_prune-IsCall o;
    exact = λ d o s key k. household_prune-exact o s key;
  }

  household_named :
      (ms : List Membership) (answer : Page Household) (value : String)
      → HasDistinctHouseholds ms
      → household_live num (some (mine ms answer)) "household_id" value ≡ true
      → (value ≡ "")
        ⊎ ((h : Household) × Memᴰ h answer.items
            × (has_role_in ms h.id organiser ≡ true)
            × (num.print h.id ≡ value))
  unfolding household_alive mine
  household_named ms answer value d h =
      elim (named_among num (λ (x : Household). x.id) (household_ids_with_role ms organiser)
        answer.items value h) [
          | inl e ↦ inl e
          | inr (x, m, i, q) ↦ inr (x, m, (mem-household_ids_with_role ms organiser x.id d).0 i, q)
        ]

  -- However the list of chores or of tags was used since it opened, once the households have come,
  -- and for as long as the user stays on the page with the same memberships, one for each household:
  -- a household that the list is filtered by is one of the answer's in which the user is an
  -- organiser; for usable defaults with empty filters, which are not named like the table's other
  -- parameters.
  pub household_organised :
      (json : Json) (sk : Option String) (pd : TableSettings) (params : Params) (store : Store)
      (ms : List Membership) (before after : List (Act Row (List Membership) (Page Household)))
      (answer : Page Household)
      → AreFilterKeys fk
      → AreUsable pd
      → ((k : String) → has_key k fk ≡ true → pd.filters k ≡ "")
      → AreCalls num json fk sk pd household_page before
      → let h =
          acts num json fk sk pd household_page before
            (opened num json fk sk pd household_page params store ms) in
        h.asked ≡ true
        → HasDistinctHouseholds h.dep
        → AreOwn num json fk sk pd household_page h.dep (some (mine h.dep answer)) after
        → let value =
            (state_of num json fk sk pd
                (acts num json fk sk pd household_page after (
                  act num json fk sk pd household_page
                    (Act.options_settled (some answer))
                    h)).table).filters
              "household_id" in
          (value ≡ "")
          ⊎ ((x : Household) × Memᴰ x answer.items
              × (has_role_in h.dep x.id organiser ≡ true)
              × (num.print x.id ≡ value))
  unfolding household_page
  household_organised json sk pd params store ms before after answer fresh usable plain c asked d
        own =
      let h =
        acts num json fk sk pd household_page before
          (opened num json fk sk pd household_page params store ms) in
      household_named h.dep answer _ d (
        filters_stay_live num json fk sk pd household_page params store ms before (some answer)
          after "household_id" fresh usable plain c filtered asked own)
