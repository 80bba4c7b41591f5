-- ===== src/Table/Hook/Loading.antt =====
-- The loading state never gets stuck: the table spins only while a request is under way.
use isachore.Base.{
  suc, String, ◌≡◌, refl, sym, ◌∙◌, inr, Bool, true, false, not, ◌&&◌, Option, none, some, List, [],
  ◌∷◌, any, ◌==◌, ◌=s=◌, if◌then◌else◌, arith, text→ne,
}
use isachore.Web.Number.{Numerals}
use isachore.Web.Params.{Params}
use isachore.Web.Store.{Store}
use isachore.Web.Value.{Json}
use isachore.Table.{TableSettings, sort_dir_eq, AreFilterKeys}
use isachore.Table.Settings.Laws.{AreUsable, read_settings-AreUsable}
use isachore.Table.Hook.Commit.{commits, Inv, commit-Inv, mutate-Inv, saves, Commits-Inv}
use isachore.Table.Hook.Calls.{
  IsPositive, AreCalls, IsCall, put_filters_changes, one_IsPositive, derive_state-IsPositive,
  after_error-size, put_filter_self, same_sort,
}
use isachore.Table.Hook.{
  Hook, Answer, Event, put_filter, defined, put_filters, state_of, query_of, save_effect, commit,
  mount, first_render, initial_defaults, answered, finished, step,
}

module _ (num : Numerals) (json : Json) (fk : List String) (sk : Option String) (pd : TableSettings)
    {Row : Type 0} where
  pub shown-IsPositive :
      (h : Hook Row)
      → Inv num json fk sk pd h
      → IsPositive num (state_of num json fk sk pd h).page
        × IsPositive num (state_of num json fk sk pd h).page_size
  unfolding state_of
  shown-IsPositive h i = derive_state-IsPositive num fk h.defaults h.params i.size

  answered-size :
      (a : Answer Row) (h : Hook Row)
      → IsPositive num h.defaults.page_size
      → IsPositive num pd.page_size
      → IsPositive num (answered num json fk sk pd a h).defaults.page_size
  unfolding answered
  answered-size (Answer.page_of d) h z dz = z
  answered-size (Answer.api_error status message) h z dz =
      after_error-size num json fk sk pd sk status (record h { error = some message }) z dz
  answered-size Answer.failure h z dz = z

  not_loading :
      (a : Answer Row) (h : Hook Row)
      → (finished num json fk sk pd (answered num json fk sk pd a h)).loading ≡ true
      → (commit num json fk sk pd
          (finished num json fk sk pd (answered num json fk sk pd a h))).pending
        ≡ true
  unfolding finished
  not_loading a h l = cc

  finished-size :
      (a : Answer Row) (h : Hook Row)
      → IsPositive num h.defaults.page_size
      → IsPositive num pd.page_size
      → IsPositive num
          (finished num json fk sk pd (answered num json fk sk pd a h)).defaults.page_size
  unfolding finished
  finished-size a h z dz = answered-size a h z dz

  either-Inv :
      (b : Bool) (x y : Hook Row)
      → (b ≡ true → Inv num json fk sk pd x)
      → (b ≡ false → Inv num json fk sk pd y)
      → Inv num json fk sk pd (if b then x else y)
  either-Inv true x y f g = f refl
  either-Inv false x y f g = g refl

  -- Every call of a setter with arguments that the pages pass, every answer and every navigation
  -- keeps the invariant, where the page's default page size is a positive number and no filter is
  -- named like one of the table's other parameters: the spinner is up only while the last request
  -- is unanswered.
  pub step-Inv :
      (e : Event Row) (h : Hook Row)
      → AreFilterKeys fk
      → IsPositive num pd.page_size
      → IsCall num fk e
      → Inv num json fk sk pd h
      → Inv num json fk sk pd (step num json fk sk pd e h)
  unfolding step
  step-Inv (Event.set_page page) h fresh dz c i =
      let s = state_of num json fk sk pd h in
      either-Inv (page == s.page) _ _ (λ _. i)
        (λ changed.
          (mutate-Inv num json fk sk pd (record s { page = page }) h fresh c
            (shown-IsPositive h i).1 (λ same. absurd (ground (arith, same.page))) i))
  step-Inv (Event.set_page_size size) h fresh dz c i =
      let s = state_of num json fk sk pd h in
      either-Inv (size == s.page_size) _ _ (λ _. i)
        (λ changed.
          (mutate-Inv num json fk sk pd (record s { page_size = size; page = 1 }) h fresh
            (one_IsPositive num) c (λ same. absurd (ground (arith, same.page_size))) i))
  step-Inv (Event.set_sort by dir) h fresh dz c i =
      let s = state_of num json fk sk pd h in
      either-Inv (by =s= s.sort_by && sort_dir_eq dir s.sort_dir) _ _ (λ _. i)
        (λ changed.
          (mutate-Inv num json fk sk pd (record s { sort_by = by; sort_dir = dir; page = 1 }) h
            fresh (one_IsPositive num) (shown-IsPositive h i).1
            (λ same.
              absurd (same_sort by s.sort_by dir s.sort_dir changed same.sort_by same.sort_dir))
            i))
  step-Inv (Event.set_filter key value) h fresh dz c i =
      let s = state_of num json fk sk pd h in
      either-Inv (s.filters key =s= value) _ _ (λ _. i)
        (λ changed.
          (mutate-Inv num json fk sk pd
            (record s { filters = put_filter key value s.filters; page = 1 }) h fresh
            (one_IsPositive num) (shown-IsPositive h i).1
            (λ same. absurd (
              text→ne (s.filters key) value changed
                (sym (same.filters key c) ∙ put_filter_self key value s.filters)))
            i))
  step-Inv (Event.set_filters patch) h fresh dz c i =
      let s = state_of num json fk sk pd h in
      either-Inv (any (λ e. not (s.filters e.0 =s= e.1)) (defined patch)) _ _
        (λ changed.
          let (key, k, n) =
            put_filters_changes fk (defined patch) s.filters s.filters c.0 c.1 changed in
          mutate-Inv num json fk sk pd
            (record s { filters = put_filters (defined patch) s.filters; page = 1 }) h fresh
            (one_IsPositive num) (shown-IsPositive h i).1 (λ same. n (sym (same.filters key k))) i)
        (λ _. i)
  step-Inv Event.reload h fresh dz c i =
      commit-Inv num json fk sk pd
        (record h { loading = true; error = none; reload_token = suc h.reload_token })
        (λ _.
          (commits num json fk sk pd
              (record h { loading = true; error = none; reload_token = suc h.reload_token })).asks
            (inr (λ e. omega (arith, i.fetched_token, e))))
        i.size
  step-Inv (Event.answer a) h fresh dz c i =
      either-Inv h.pending _ _
        (λ _.
          commit-Inv num json fk sk pd (finished num json fk sk pd (answered num json fk sk pd a h))
            (not_loading a h) (finished-size a h i.size dz))
        (λ _. i)
  step-Inv (Event.ignored a) h fresh dz c i = i
  step-Inv (Event.navigate params) h fresh dz c i =
      commit-Inv num json fk sk pd (record h { params = params })
        (λ l. (commits num json fk sk pd (record h { params = params })).keeps (i.busy l)) i.size

  chosen_loading : (b : Bool) (x y : Hook Row) → b ≡ true → (if b then x else y).loading ≡ x.loading
  chosen_loading true x y e = refl
  chosen_loading false x y e = cc

  answer_ends :
      (a : Answer Row) (h : Hook Row)
      → h.pending ≡ true
      → (step num json fk sk pd (Event.answer a) h).loading ≡ false
  unfolding step finished
  answer_ends a h p =
      let done = finished num json fk sk pd (answered num json fk sk pd a h) in
      chosen_loading h.pending (commit num json fk sk pd done) h p
      ∙ (commits num json fk sk pd done).loading

  -- Calls in any order.
  unfoldable pub run : List (Event Row) → Hook Row → Hook Row
  run [] h = h
  run (e ∷ es) h = run es (step num json fk sk pd e h)

  run-Inv :
      (es : List (Event Row)) (h : Hook Row)
      → AreFilterKeys fk
      → IsPositive num pd.page_size
      → AreCalls num fk es
      → Inv num json fk sk pd h
      → Inv num json fk sk pd (run es h)
  unfolding run
  run-Inv [] h fresh dz c i = i
  run-Inv (e ∷ es) h fresh dz (c, cs) i =
      run-Inv es (step num json fk sk pd e h) fresh dz cs (step-Inv e h fresh dz c i)

initial-IsPositive :
    (num : Numerals) (json : Json) (fk : List String) (sk : Option String) (pd : TableSettings)
    (store : Store)
    → AreUsable pd
    → IsPositive num (initial_defaults num json fk pd sk store).page_size
unfolding initial_defaults
initial-IsPositive num json fk none pd store (lo, hi, _) = (lo, num.read-print _ (omega arith))
initial-IsPositive num json fk (some key) pd store usable =
    let (lo, hi, _) = read_settings-AreUsable num json key fk pd store usable in
    (lo, num.read-print _ (omega arith))

-- Whatever was stored, the first render is in order.
pub mount-Inv :
    (num : Numerals) (json : Json) (fk : List String) (sk : Option String) (pd : TableSettings)
    {Row : Type 0} (params : Params) (store : Store)
    → AreUsable pd
    → Inv num json fk sk pd {Row = Row} (mount num json fk sk pd params store)
unfolding mount first_render query_of
mount-Inv num json fk sk pd {Row} params store usable =
    let first : Hook Row = first_render num json fk sk pd params store in
    let asked : Hook Row = record first {
      fetched = query_of num json fk sk pd first;
      pending = true;
    } in
    let c = saves num json fk sk pd asked asked (record {
      params = refl;
      defaults = refl;
      loading = refl;
      reload_token = refl;
      fetched = refl;
      fetched_token = refl;
      keeps = λ p. p;
      asks = λ _. refl;
    }) in
    Commits-Inv num json fk sk pd asked (save_effect num json fk sk pd asked) c (λ _. c.keeps refl)
      (initial-IsPositive num json fk sk pd store usable)

-- From the first render on, whatever the pages call, the server answers and the user navigates to:
-- the last request asks for the state that is shown; while the spinner is up that request is
-- unanswered; and whatever it is answered with takes the spinner down. The page's defaults lie
-- within the API's limits, and no filter is named like one of the table's other parameters.
pub loading_ends :
    (num : Numerals) (json : Json) (fk : List String) (sk : Option String) (pd : TableSettings)
    {Row : Type 0} (params : Params) (store : Store) (es : List (Event Row)) (a : Answer Row)
    → AreFilterKeys fk
    → AreUsable pd
    → AreCalls num fk es
    → let h = run num json fk sk pd es (mount num json fk sk pd params store) in
      (h.fetched ≡ query_of num json fk sk pd h)
      × (h.loading ≡ true → h.pending ≡ true)
      × (h.pending ≡ true → (step num json fk sk pd (Event.answer a) h).loading ≡ false)
loading_ends num json fk sk pd params store es a fresh usable cs =
    let (lo, hi, _) = usable in
    let size : IsPositive num pd.page_size = (lo, num.read-print _ (omega arith)) in
    let start = mount num json fk sk pd params store in
    let i =
      run-Inv num json fk sk pd es start fresh size cs
        (mount-Inv num json fk sk pd params store usable) in
    let h = run num json fk sk pd es start in
    (i.fetched, i.busy, λ p. answer_ends num json fk sk pd a h p)
