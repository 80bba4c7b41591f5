-- ===== src/Listing/Pruned.antt =====
-- Of every page of this kind: a filter that is applied can be picked.
use isachore.Base.{
  String, ◌≡◌, refl, ap, ◌∙◌, Bool, true, false, Option, none, some, List, [], ◌∷◌, if◌then◌else◌,
  arith,
}
use isachore.Web.Number.{Numerals}
use isachore.Web.Params.{Params}
use isachore.Web.Store.{Store}
use isachore.Web.Value.{Json}
use isachore.Table.{TableSettings, has_key, AreFilterKeys, SameState}
use isachore.Table.Settings.Laws.{AreUsable}
use isachore.Table.Hook.{Hook, Event, state_of}
use isachore.Table.Hook.Calls.{IsPositive, IsCall}
use isachore.Table.Hook.Commit.{Inv}
use isachore.Table.Hook.Setters.{IsSetter, SameState-refl, step-intend}
use isachore.Table.Hook.Loading.{step-Inv, mount-Inv}
use isachore.Table.Hook.Picked.{Picks, AllSo, step-AllSo}
use isachore.Listing.{Listing, Act, Pruner, applied, scoped, call_table, pruned, act, acts, opened}
use isachore.Listing.Kept.{AreCalls, not_asked, asked_now, pruned-Inv, acts-Inv}

module _ (num : Numerals) (json : Json) (fk : List String) (sk : Option String) (pd : TableSettings)
    {Row Dep Data Offered : Type 0} (p : Pruner num fk Row Dep Data Offered) where
  call_table-state :
      (o : Option (Event Row)) (h : Hook Row)
      → AreFilterKeys fk
      → ((e : Event Row) → o ≡ some e → IsCall num fk e × IsSetter e)
      → Inv num json fk sk pd h
      → SameState fk
          (state_of num json fk sk pd (call_table num json fk sk pd p o h))
          (applied o (state_of num json fk sk pd h))
  call_table-state none h fresh c i = SameState-refl fk (state_of num json fk sk pd h)
  call_table-state (some e) h fresh c i =
      step-intend num json fk sk pd e h fresh (c e refl).0 (c e refl).1 i

  -- By way of the query string: exactly what can no longer be picked is emptied.
  pruned_exact :
      (o : Option Offered) (h : Listing Row Dep Offered) (key : String)
      → AreFilterKeys fk
      → has_key key fk ≡ true
      → Inv num json fk sk pd h.table
      → (state_of num json fk sk pd (pruned num json fk sk pd p o h).table).filters key ≡ (
          let now = (state_of num json fk sk pd h.table).filters key in
          if p.live h.dep o key now then now else "")
  unfolding pruned
  pruned_exact o h key fresh k i =
      let s = state_of num json fk sk pd h.table in
      (call_table-state (p.prune h.dep o s.filters) h.table fresh
          (λ e q. p.call h.dep o s.filters e q) i).filters
        key k
      ∙ p.exact h.dep o s key k

  -- A filter that can be picked, the choices being those of an answer.
  abbrev pub IsLive : Dep → Option Offered → String → String → Type 0
  IsLive d o key value = p.live d o key value ≡ true

  -- What the page itself goes on to do: its controls set filters that can be picked, and the
  -- memberships on which the choices depend stay.
  abbrev pub IsOwn : Dep → Option Offered → Act Row Dep Data → Type 0
  IsOwn d o (Act.on_table e) = IsCall num fk e × Picks (IsLive d o) e
  IsOwn d o (Act.render d') = p.same_dep d d' ≡ true
  IsOwn d o _ = Unit

  abbrev pub AreOwn : Dep → Option Offered → List (Act Row Dep Data) → Type 0
  AreOwn d o [] = Unit
  AreOwn d o (a ∷ rest) = IsOwn d o a × AreOwn d o rest

  -- The choices have come, and every filter can be picked.
  record IsSettled (d : Dep) (o : Option Offered) (h : Listing Row Dep Offered) : Type 0 where
    table : Inv num json fk sk pd h.table
    dep : h.dep ≡ d
    quiet : h.asked ≡ false
    live : AllSo (IsLive d o) fk (state_of num json fk sk pd h.table).filters

  pruned-IsSettled :
      (o : Option Offered) (h : Listing Row Dep Offered)
      → AreFilterKeys fk
      → IsPositive num pd.page_size
      → Inv num json fk sk pd h.table
      → IsSettled h.dep o (pruned num json fk sk pd p o h)
  unfolding pruned
  pruned-IsSettled o h fresh dz i = record {
    table = pruned-Inv num json fk sk pd p o h fresh dz i;
    dep = refl;
    quiet = refl;
    live = λ key k. rw (pruned_exact o h key fresh k i) (
        emptied (p.live h.dep o key ((state_of num json fk sk pd h.table).filters key)) key
          ((state_of num json fk sk pd h.table).filters key) refl);
  }
    where
      emptied :
          (b : Bool) (key value : String)
          → p.live h.dep o key value ≡ b
          → IsLive h.dep o key (if b then value else "")
      emptied true key value e = e
      emptied false key value e = p.live_empty h.dep o key

  act-IsSettled :
      (d : Dep) (o : Option Offered) (a : Act Row Dep Data) (h : Listing Row Dep Offered)
      → AreFilterKeys fk
      → IsPositive num pd.page_size
      → AllSo (IsLive d o) fk pd.filters
      → IsOwn d o a
      → IsSettled d o h
      → IsSettled d o (act num json fk sk pd p a h)
  unfolding act
  act-IsSettled d o (Act.on_table e) h fresh dz base (c, k) s = record {
    table = step-Inv num json fk sk pd e h.table fresh dz c s.table;
    dep = s.dep;
    quiet = s.quiet;
    live = step-AllSo num json fk sk pd (IsLive d o) e h.table fresh c k s.table base s.live;
  }
  act-IsSettled d o (Act.render d') h fresh dz base c s = rw (ap (λ x. p.same_dep x d') s.dep ∙ c) s
  act-IsSettled d o (Act.options_settled answer) h fresh dz base c s =
      not_asked num json fk sk pd p h.asked
        (pruned num json fk sk pd p (scoped p.scope h.dep answer) h) h (IsSettled d o) s.quiet s
  act-IsSettled d o Act.remove h fresh dz base c s = record {
    table = s.table;
    dep = s.dep;
    quiet = s.quiet;
    live = s.live;
  }
  act-IsSettled d o (Act.removed none) h fresh dz base c s = record {
    table = step-Inv num json fk sk pd Event.reload h.table fresh dz tt s.table;
    dep = s.dep;
    quiet = s.quiet;
    live =
        step-AllSo num json fk sk pd (IsLive d o) Event.reload h.table fresh tt tt s.table base
          s.live;
  }
  act-IsSettled d o (Act.removed (some message)) h fresh dz base c s = record {
    table = s.table;
    dep = s.dep;
    quiet = s.quiet;
    live = s.live;
  }

  acts-IsSettled :
      (d : Dep) (o : Option Offered) (as_done : List (Act Row Dep Data))
      (h : Listing Row Dep Offered)
      → AreFilterKeys fk
      → IsPositive num pd.page_size
      → AllSo (IsLive d o) fk pd.filters
      → AreOwn d o as_done
      → IsSettled d o h
      → IsSettled d o (acts num json fk sk pd p as_done h)
  unfolding acts
  acts-IsSettled d o [] h fresh dz base c s = s
  acts-IsSettled d o (a ∷ rest) h fresh dz base (c, cs) s =
      acts-IsSettled d o rest (act num json fk sk pd p a h) fresh dz base cs
        (act-IsSettled d o a h fresh dz base c s)

  usable_size : AreUsable pd → IsPositive num pd.page_size
  usable_size (lo, hi, _) = (lo, num.read-print _ (omega arith))

  opened-Inv :
      (params : Params) (store : Store) (d : Dep) (before : List (Act Row Dep Data))
      → AreFilterKeys fk
      → AreUsable pd
      → AreCalls num json fk sk pd p before
      → Inv num json fk sk pd
          (acts num json fk sk pd p before (opened num json fk sk pd p params store d)).table
  unfolding opened
  opened-Inv params store d before fresh usable c =
      acts-Inv num json fk sk pd p before (opened num json fk sk pd p params store d) fresh
        (usable_size usable) c (mount-Inv num json fk sk pd params store usable)

  -- However the page was used since it was opened, from any query string and any storage: when the
  -- answer about the choices comes, or its failure, each filter stays as it is if it can be picked,
  -- and is emptied if it cannot; for usable defaults and filters not named like the table's other
  -- parameters.
  pub filters_settle :
      (params : Params) (store : Store) (d : Dep) (before : List (Act Row Dep Data))
      (answer : Option Data) (key : String)
      → AreFilterKeys fk
      → AreUsable pd
      → AreCalls num json fk sk pd p before
      → has_key key fk ≡ true
      → let h = acts num json fk sk pd p before (opened num json fk sk pd p params store d) in
        h.asked ≡ true
        → let now = (state_of num json fk sk pd h.table).filters key in
          (state_of num json fk sk pd
              (act num json fk sk pd p (Act.options_settled answer) h).table).filters
            key
          ≡ (if p.live h.dep (scoped p.scope h.dep answer) key now then now else "")
  unfolding act
  filters_settle params store d before answer key fresh usable c k asked =
      let h = acts num json fk sk pd p before (opened num json fk sk pd p params store d) in
      let o = scoped p.scope h.dep answer in
      let now = (state_of num json fk sk pd h.table).filters key in
      asked_now num json fk sk pd p h.asked (pruned num json fk sk pd p o h) h
        (λ l.
          (state_of num json fk sk pd l.table).filters key
          ≡ (if p.live h.dep o key now then now else ""))
        asked (pruned_exact o h key fresh k (opened-Inv params store d before fresh usable c))

  -- From that answer on, for as long as the page's own controls are used, whatever the server
  -- answers, and the memberships and the address stay: every filter can be picked; for usable
  -- defaults, empty filters among them, and filters not named like the table's other parameters.
  pub filters_stay_live :
      (params : Params) (store : Store) (d : Dep) (before : List (Act Row Dep Data))
      (answer : Option Data) (after : List (Act Row Dep Data)) (key : String)
      → AreFilterKeys fk
      → AreUsable pd
      → ((k : String) → has_key k fk ≡ true → pd.filters k ≡ "")
      → AreCalls num json fk sk pd p before
      → has_key key fk ≡ true
      → let h = acts num json fk sk pd p before (opened num json fk sk pd p params store d) in
        h.asked ≡ true
        → let o = scoped p.scope h.dep answer in
          AreOwn h.dep o after
          → p.live h.dep o key (
              (state_of num json fk sk pd
                  (acts num json fk sk pd p after
                    (act num json fk sk pd p (Act.options_settled answer) h)).table).filters
                key)
            ≡ true
  unfolding act
  filters_stay_live params store d before answer after key fresh usable plain c k asked own =
      let h = acts num json fk sk pd p before (opened num json fk sk pd p params store d) in
      let o = scoped p.scope h.dep answer in
      let start =
        asked_now num json fk sk pd p h.asked (pruned num json fk sk pd p o h) h (IsSettled h.dep o)
          asked
          (pruned-IsSettled o h fresh (usable_size usable)
            (opened-Inv params store d before fresh usable c)) in
      let base : AllSo (IsLive h.dep o) fk pd.filters =
        λ key k. rw (plain key k) (p.live_empty h.dep o key) in
      (acts-IsSettled h.dep o after _ fresh (usable_size usable) base own start).live key k
