-- ===== src/Table/Hook/Picked.antt =====
-- The filters of a table from one event to the next: each stays, is set by a call, or falls back to
-- the page's default.
use isachore.Base.{
  ℕ, String, ◌≡◌, refl, ◌⊎◌, inl, inr, Bool, true, false, not, Option, none, some, List, [], ◌∷◌,
  any, ◌&&◌, ◌==◌, ◌=s=◌, if◌then◌else◌, eq_iff, Bool-cases,
}
use isachore.Web.Number.{Numerals}
use isachore.Web.Params.{get}
use isachore.Web.Value.{Json}
use isachore.Table.{
  Filters, TableSettings, TableState, sort_dir_eq, or_else, has_key, derive_state, SameState,
  AreFilterKeys,
}
use isachore.Table.Hook.{
  Hook, Answer, Event, put_filter, defined, put_filters, state_of, commit, step, answered, finished,
  after_error, is_rejection,
}
use isachore.Table.Hook.Calls.{IsCall}
use isachore.Table.Hook.Commit.{commits, Inv}
use isachore.Table.Hook.Setters.{intend, IsSetter, step-intend}

-- What holds of each entry that is set.
abbrev pub AreSo : (String → String → Type 0) → List (String × String) → Type 0
AreSo P [] = Unit
AreSo P ((key, value) ∷ entries) = P key value × AreSo P entries

-- The event sets filters to values of this kind alone, and does not navigate.
abbrev pub Picks : {Row : Type 0} → (String → String → Type 0) → Event Row → Type 0
Picks P (Event.set_filter key value) = P key value
Picks P (Event.set_filters patch) = AreSo P (defined patch)
Picks P (Event.navigate params) = ⊥
Picks P _ = Unit

module _ (P : String → String → Type 0) (fk : List String) where
  abbrev pub AllSo : Filters → Type 0
  AllSo f = (key : String) → has_key key fk ≡ true → P key (f key)

  put_filter-AllSo :
      (key value : String) (f : Filters) → P key value → AllSo f → AllSo (put_filter key value f)
  put_filter-AllSo key value f p all k h = elim (Bool-cases (key =s= k)) [
    | inl e ↦ let q : key ≡ k = (eq_iff key k).0 e in rw e (rw (← q) p)
    | inr e ↦ rw e (all k h)
  ]

  put_filters-AllSo :
      (entries : List (String × String)) (f : Filters)
      → AreSo P entries
      → AllSo f
      → AllSo (put_filters entries f)
  unfolding put_filters
  put_filters-AllSo [] f p all = all
  put_filters-AllSo ((key, value) ∷ entries) f (p, ps) all =
      put_filters-AllSo entries (put_filter key value f) ps (put_filter-AllSo key value f p all)

  same-AllSo : (s t : TableState) → SameState fk s t → AllSo t.filters → AllSo s.filters
  same-AllSo s t same all key k = rw (same.filters key k) (all key k)

either_filters :
    (b : Bool) (s t : TableState) (Q : Filters → Type 0)
    → Q s.filters
    → Q t.filters
    → Q (if b then s else t).filters
either_filters true s t Q p q = p
either_filters false s t Q p q = q

module _ (num : Numerals) (json : Json) (fk : List String) (sk : Option String) (pd : TableSettings)
    {Row : Type 0} (P : String → String → Type 0) where
  intend-AllSo :
      (e : Event Row) (s : TableState)
      → Picks P e
      → AllSo P fk s.filters
      → AllSo P fk (intend e s).filters
  intend-AllSo (Event.set_page page) s p all =
      either_filters (page == s.page) s (record s { page = page }) (AllSo P fk) all all
  intend-AllSo (Event.set_page_size size) s p all =
      either_filters (size == s.page_size) s (record s { page_size = size; page = 1 }) (AllSo P fk)
        all all
  intend-AllSo (Event.set_sort by dir) s p all =
      either_filters (by =s= s.sort_by && sort_dir_eq dir s.sort_dir) s
        (record s { sort_by = by; sort_dir = dir; page = 1 }) (AllSo P fk) all all
  intend-AllSo (Event.set_filter key value) s p all =
      either_filters (s.filters key =s= value) s
        (record s { filters = put_filter key value s.filters; page = 1 }) (AllSo P fk) all
        (put_filter-AllSo P fk key value s.filters p all)
  intend-AllSo (Event.set_filters patch) s p all =
      either_filters (any (λ e. not (s.filters e.0 =s= e.1)) (defined patch))
        (record s { filters = put_filters (defined patch) s.filters; page = 1 }) s (AllSo P fk)
        (put_filters-AllSo P fk (defined patch) s.filters p all) all
  intend-AllSo Event.reload s p all = all
  intend-AllSo (Event.answer a) s p all = all
  intend-AllSo (Event.ignored a) s p all = all
  intend-AllSo (Event.navigate params) s p all = absurd p

  -- The defaults stay, or fall back to the page's own.
  after_error-params :
      (o : Option String) (status : ℕ) (h : Hook Row)
      → ((after_error num json fk sk pd o status h).params ≡ h.params)
        × (((after_error num json fk sk pd o status h).defaults ≡ h.defaults)
            ⊎ ((after_error num json fk sk pd o status h).defaults ≡ pd))
  unfolding after_error
  after_error-params none status h = (refl, inl refl)
  after_error-params (some key) status h = elim (Bool-cases (is_rejection status)) [
    | inl e ↦ rw e (refl, inr refl)
    | inr e ↦ rw e (refl, inl refl)
  ]

  answered-params :
      (a : Answer Row) (h : Hook Row)
      → ((finished num json fk sk pd (answered num json fk sk pd a h)).params ≡ h.params)
        × (((finished num json fk sk pd (answered num json fk sk pd a h)).defaults ≡ h.defaults)
            ⊎ ((finished num json fk sk pd (answered num json fk sk pd a h)).defaults ≡ pd))
  unfolding answered finished
  answered-params (Answer.page_of d) h = (refl, inl refl)
  answered-params (Answer.api_error status message) h =
      after_error-params sk status (record h { error = some message })
  answered-params Answer.failure h = (refl, inl refl)

  fallback-AllSo :
      (h m : Hook Row)
      → m.params ≡ h.params
      → (m.defaults ≡ h.defaults) ⊎ (m.defaults ≡ pd)
      → AllSo P fk pd.filters
      → AllSo P fk (state_of num json fk sk pd h).filters
      → AllSo P fk (state_of num json fk sk pd m).filters
  unfolding state_of derive_state
  fallback-AllSo h m e (inl d) base all key k = rw (e, d) (all key k)
  fallback-AllSo h m e (inr d) base all key k = rw (e, d) (chosen (get key h.params) (all key k))
    where
      chosen :
          (o : Option String)
          → P key (or_else o (h.defaults.filters key))
          → P key (or_else o (pd.filters key))
      chosen none p = base key k
      chosen (some v) p = p

  commit-AllSo :
      (m : Hook Row)
      → AllSo P fk pd.filters
      → AllSo P fk (state_of num json fk sk pd m).filters
      → AllSo P fk (state_of num json fk sk pd (commit num json fk sk pd m)).filters
  commit-AllSo m base all =
      let c = commits num json fk sk pd m in
      fallback-AllSo m (commit num json fk sk pd m) c.params (inl c.defaults) base all

  answer-AllSo :
      (b : Bool) (a : Answer Row) (h : Hook Row)
      → AllSo P fk pd.filters
      → AllSo P fk (state_of num json fk sk pd h).filters
      → AllSo P fk
          (state_of num json fk sk pd (
            if b
            then commit num json fk sk pd
                (finished num json fk sk pd (answered num json fk sk pd a h))
            else h)).filters
  answer-AllSo false a h base all = all
  answer-AllSo true a h base all =
      let (e, d) = answered-params a h in commit-AllSo _ base (fallback-AllSo h _ e d base all)

  setter-AllSo :
      (e : Event Row) (h : Hook Row)
      → AreFilterKeys fk
      → IsCall num fk e
      → IsSetter e
      → Picks P e
      → Inv num json fk sk pd h
      → AllSo P fk (state_of num json fk sk pd h).filters
      → AllSo P fk (state_of num json fk sk pd (step num json fk sk pd e h)).filters
  setter-AllSo e h fresh c s p i all =
      let now = state_of num json fk sk pd h in
      same-AllSo P fk (state_of num json fk sk pd (step num json fk sk pd e h)) (intend e now)
        (step-intend num json fk sk pd e h fresh c s i) (intend-AllSo e now p all)

  -- If the page's defaults are of a kind, and the filters, and what is set, then so are the filters
  -- after the event.
  pub step-AllSo :
      (e : Event Row) (h : Hook Row)
      → AreFilterKeys fk
      → IsCall num fk e
      → Picks P e
      → Inv num json fk sk pd h
      → AllSo P fk pd.filters
      → AllSo P fk (state_of num json fk sk pd h).filters
      → AllSo P fk (state_of num json fk sk pd (step num json fk sk pd e h)).filters
  unfolding step
  step-AllSo (Event.answer a) h fresh c p i base all = answer-AllSo h.pending a h base all
  step-AllSo (Event.ignored a) h fresh c p i base all = all
  step-AllSo (Event.navigate params) h fresh c p i base all = absurd p
  step-AllSo (Event.set_page page) h fresh c p i base all =
      setter-AllSo (Event.set_page page) h fresh c tt p i all
  step-AllSo (Event.set_page_size size) h fresh c p i base all =
      setter-AllSo (Event.set_page_size size) h fresh c tt p i all
  step-AllSo (Event.set_sort by dir) h fresh c p i base all =
      setter-AllSo (Event.set_sort by dir) h fresh c tt p i all
  step-AllSo (Event.set_filter key value) h fresh c p i base all =
      setter-AllSo (Event.set_filter key value) h fresh c tt p i all
  step-AllSo (Event.set_filters patch) h fresh c p i base all =
      setter-AllSo (Event.set_filters patch) h fresh c tt p i all
  step-AllSo Event.reload h fresh c p i base all = setter-AllSo Event.reload h fresh c tt p i all
