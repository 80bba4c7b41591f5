-- ===== src/Table/Hook/Commit.antt =====
-- The effects of a render: what they leave alone, and when they ask for a new page.
use isachore.Base.{
  String, ◌≡◌, ◌≢◌, refl, sym, ◌∙◌, ◌⊎◌, inl, inr, true, ◌&&◌, Option, none, List, ◌==◌, arith,
  Bool-cases,
}
use isachore.Web.Number.{Numerals}
use isachore.Web.Params.{params_eq}
use isachore.Web.Params.Laws.{params_eq_sound}
use isachore.Web.Value.{Json}
use isachore.Table.{TableSettings, TableState, apply_owned_params, SameState, AreFilterKeys}
use isachore.Table.Hook.Calls.{IsPositive, query_changes}
use isachore.Table.Hook.{
  Hook, state_of, query_of, settings_json, fetch_effect, same_text, save_effect, commit, mutate,
}

module _ (num : Numerals) (json : Json) (fk : List String) (sk : Option String) (pd : TableSettings)
    {Row : Type 0} where
  -- What the effects change: nothing that the state or the spinner shows.
  pub record Commits (h h' : Hook Row) : Type 0 where
    pub params : h'.params ≡ h.params
    pub defaults : h'.defaults ≡ h.defaults
    pub loading : h'.loading ≡ h.loading
    pub reload_token : h'.reload_token ≡ h.reload_token
    pub fetched : h'.fetched ≡ query_of num json fk sk pd h
    pub fetched_token : h'.fetched_token ≡ h.reload_token
    pub keeps : h.pending ≡ true → h'.pending ≡ true
    pub asks :
        (h.fetched ≢ query_of num json fk sk pd h) ⊎ (h.fetched_token ≢ h.reload_token)
        → h'.pending ≡ true

  fetches : (h : Hook Row) → Commits h (fetch_effect num json fk sk pd h)
  unfolding fetch_effect
  fetches h =
      elim (Bool-cases
        (params_eq h.fetched (query_of num json fk sk pd h) && h.fetched_token == h.reload_token)) [
          | inl same ↦
              let asked : h.fetched ≡ query_of num json fk sk pd h =
                params_eq_sound _ _ (ground arith) in
              let token : h.fetched_token ≡ h.reload_token = ground arith in
              rw same (record {
                params = refl;
                defaults = refl;
                loading = refl;
                reload_token = refl;
                fetched = asked;
                fetched_token = token;
                keeps = λ p. p;
                asks = elim [ inl n ↦ absurd (n asked) | inr n ↦ absurd (n token) ];
              })
          | inr changed ↦ rw changed (record {
            params = refl;
            defaults = refl;
            loading = refl;
            reload_token = refl;
            fetched = refl;
            fetched_token = refl;
            keeps = λ _. refl;
            asks = λ _. refl;
          })
        ]

  pub saves : (h h' : Hook Row) → Commits h h' → Commits h (save_effect num json fk sk pd h')
  unfolding save_effect
  saves h h' c = elim (Bool-cases (same_text h'.saved (settings_json num json fk sk pd h'))) [
    | inl same ↦ rw same c
    | inr changed ↦ rw changed (record {
      params = c.params;
      defaults = c.defaults;
      loading = c.loading;
      reload_token = c.reload_token;
      fetched = c.fetched;
      fetched_token = c.fetched_token;
      keeps = c.keeps;
      asks = c.asks;
    })
  ]

  pub commits : (h : Hook Row) → Commits h (commit num json fk sk pd h)
  unfolding commit
  commits h = saves h (fetch_effect num json fk sk pd h) (fetches h)

  -- Between two events: the last request asked for the state that is shown, and the spinner is up
  -- only while it is unanswered.
  pub record Inv (h : Hook Row) : Type 0 where
    pub fetched : h.fetched ≡ query_of num json fk sk pd h
    pub fetched_token : h.fetched_token ≡ h.reload_token
    pub busy : h.loading ≡ true → h.pending ≡ true
    pub size : IsPositive num h.defaults.page_size

  query-commit :
      (h h' : Hook Row)
      → Commits h h'
      → query_of num json fk sk pd h' ≡ query_of num json fk sk pd h
  unfolding query_of
  query-commit h h' c = rw (c.params, c.defaults)

  pub Commits-Inv :
      (h h' : Hook Row)
      → Commits h h'
      → (h.loading ≡ true → h'.pending ≡ true)
      → IsPositive num h.defaults.page_size
      → Inv h'
  Commits-Inv h h' c busy size = record {
    fetched = c.fetched ∙ sym (query-commit h h' c);
    fetched_token = c.fetched_token ∙ sym c.reload_token;
    busy = λ l. busy (sym c.loading ∙ l);
    size = rw c.defaults size;
  }

  pub commit-Inv :
      (h : Hook Row)
      → (h.loading ≡ true → (commit num json fk sk pd h).pending ≡ true)
      → IsPositive num h.defaults.page_size
      → Inv (commit num json fk sk pd h)
  commit-Inv h busy size = Commits-Inv h (commit num json fk sk pd h) (commits h) busy size

  -- A change of the state that the user can see asks for a new page.
  pub mutate-Inv :
      (t : TableState) (h : Hook Row)
      → AreFilterKeys fk
      → IsPositive num t.page
      → IsPositive num t.page_size
      → ¬ SameState fk t (state_of num json fk sk pd h)
      → Inv h
      → Inv (mutate num json fk sk pd t h)
  unfolding mutate state_of query_of
  mutate-Inv t h fresh p z differs i =
      let m : Hook Row = record h {
        loading = true;
        error = none;
        params = apply_owned_params num fk h.defaults h.params t;
      } in
      commit-Inv m
        (λ _. (commits m).asks (
          inl (λ e.
            query_changes num fk h.defaults h.params t fresh i.size p z differs
              (sym i.fetched ∙ e))))
        i.size
