-- ===== src/Table/Hook/Setters.antt =====
-- The setters, which go by way of the query string, against plain updates of the state.
use isachore.Base.{
  suc, String, ◌≡◌, refl, Bool, true, false, not, ◌&&◌, Option, none, List, any, ◌==◌, ◌=s=◌,
  if◌then◌else◌,
}
use isachore.Web.Number.{Numerals}
use isachore.Web.Value.{Json}
use isachore.Table.{
  TableSettings, TableState, sort_dir_eq, derive_state, apply_owned_params, SameState,
  AreFilterKeys,
}
use isachore.Table.Url.{derive_state-apply_owned_params}
use isachore.Table.Hook.{
  Hook, Event, put_filter, defined, put_filters, state_of, commit, mutate, step,
}
use isachore.Table.Hook.Calls.{IsPositive, IsCall, one_IsPositive}
use isachore.Table.Hook.Commit.{commits, Inv}
use isachore.Table.Hook.Loading.{shown-IsPositive}

-- What each setter is for: the new values, on the first page again unless the page is what is set.
abbrev pub intend : {Row : Type 0} → Event Row → TableState → TableState
intend (Event.set_page page) s = if page == s.page then s else record s { page = page }
intend (Event.set_page_size size) s =
    if size == s.page_size then s else record s { page_size = size; page = 1 }
intend (Event.set_sort by dir) s =
    if by =s= s.sort_by && sort_dir_eq dir s.sort_dir
    then s
    else record s { sort_by = by; sort_dir = dir; page = 1 }
intend (Event.set_filter key value) s =
    if s.filters key =s= value
    then s
    else record s { filters = put_filter key value s.filters; page = 1 }
intend (Event.set_filters patch) s =
    if any (λ e. not (s.filters e.0 =s= e.1)) (defined patch)
    then record s { filters = put_filters (defined patch) s.filters; page = 1 }
    else s
intend _ s = s

-- The events that the page's own controls raise.
abbrev pub IsSetter : {Row : Type 0} → Event Row → Type 0
IsSetter (Event.answer a) = ⊥
IsSetter (Event.ignored a) = ⊥
IsSetter (Event.navigate params) = ⊥
IsSetter _ = Unit

pub SameState-refl : (fk : List String) (s : TableState) → SameState fk s s
SameState-refl fk s = record {
  page = refl;
  page_size = refl;
  sort_by = refl;
  sort_dir = refl;
  filters = λ key h. refl;
}

module _ (num : Numerals) (json : Json) (fk : List String) (sk : Option String) (pd : TableSettings)
    {Row : Type 0} where
  mutate-state :
      (t : TableState) (h : Hook Row)
      → AreFilterKeys fk
      → IsPositive num t.page
      → IsPositive num t.page_size
      → SameState fk (state_of num json fk sk pd (mutate num json fk sk pd t h)) t
  unfolding mutate state_of
  mutate-state t h fresh p z =
      let m : Hook Row = record h {
        loading = true;
        error = none;
        params = apply_owned_params num fk h.defaults h.params t;
      } in
      let c = commits num json fk sk pd m in
      rw (c.params, c.defaults)
        (derive_state-apply_owned_params num fk h.defaults h.params t fresh p.0 p.1 z.0 z.1)

  commit-state :
      (m h : Hook Row)
      → m.params ≡ h.params
      → m.defaults ≡ h.defaults
      → SameState fk
          (state_of num json fk sk pd (commit num json fk sk pd m))
          (state_of num json fk sk pd h)
  unfolding state_of
  commit-state m h p d =
      let c = commits num json fk sk pd m in
      rw (c.params, c.defaults, p, d) (SameState-refl fk (derive_state num fk h.defaults h.params))

  either-same :
      (b : Bool) (x y : Hook Row) (s t : TableState)
      → (b ≡ true → SameState fk (state_of num json fk sk pd x) s)
      → (b ≡ false → SameState fk (state_of num json fk sk pd y) t)
      → SameState fk (state_of num json fk sk pd (if b then x else y)) (if b then s else t)
  either-same true x y s t f g = f refl
  either-same false x y s t f g = g refl

  -- Each call of a setter with arguments that the pages pass, and a reload, leaves the table in the
  -- state that the plain update gives: a value that is already there changes nothing, a new page
  -- size, sort or filter goes back to the first page, and all else stays. No filter is named like
  -- one of the table's other parameters.
  pub step-intend :
      (e : Event Row) (h : Hook Row)
      → AreFilterKeys fk
      → IsCall num fk e
      → IsSetter e
      → Inv num json fk sk pd h
      → SameState fk
          (state_of num json fk sk pd (step num json fk sk pd e h))
          (intend e (state_of num json fk sk pd h))
  unfolding step
  step-intend (Event.set_page page) h fresh c _ i =
      let s = state_of num json fk sk pd h in
      either-same (page == s.page) _ _ _ _ (λ _. SameState-refl fk s)
        (λ _.
          mutate-state (record s { page = page }) h fresh c
            (shown-IsPositive num json fk sk pd h i).1)
  step-intend (Event.set_page_size size) h fresh c _ i =
      let s = state_of num json fk sk pd h in
      either-same (size == s.page_size) _ _ _ _ (λ _. SameState-refl fk s)
        (λ _. mutate-state (record s { page_size = size; page = 1 }) h fresh (one_IsPositive num) c)
  step-intend (Event.set_sort by dir) h fresh c _ i =
      let s = state_of num json fk sk pd h in
      either-same (by =s= s.sort_by && sort_dir_eq dir s.sort_dir) _ _ _ _
        (λ _. SameState-refl fk s)
        (λ _.
          mutate-state (record s { sort_by = by; sort_dir = dir; page = 1 }) h fresh
            (one_IsPositive num) (shown-IsPositive num json fk sk pd h i).1)
  step-intend (Event.set_filter key value) h fresh c _ i =
      let s = state_of num json fk sk pd h in
      either-same (s.filters key =s= value) _ _ _ _ (λ _. SameState-refl fk s)
        (λ _.
          mutate-state (record s { filters = put_filter key value s.filters; page = 1 }) h fresh
            (one_IsPositive num) (shown-IsPositive num json fk sk pd h i).1)
  step-intend (Event.set_filters patch) h fresh c _ i =
      let s = state_of num json fk sk pd h in
      either-same (any (λ e. not (s.filters e.0 =s= e.1)) (defined patch)) _ _ _ _
        (λ _.
          mutate-state (record s { filters = put_filters (defined patch) s.filters; page = 1 }) h
            fresh (one_IsPositive num) (shown-IsPositive num json fk sk pd h i).1)
        (λ _. SameState-refl fk s)
  step-intend Event.reload h fresh c _ i =
      commit-state (record h { loading = true; error = none; reload_token = suc h.reload_token }) h
        refl refl
  step-intend (Event.answer a) h fresh c s i = absurd s
  step-intend (Event.ignored a) h fresh c s i = absurd s
  step-intend (Event.navigate params) h fresh c s i = absurd s
