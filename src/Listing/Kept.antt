-- ===== src/Listing/Kept.antt =====
-- What the table promises between two events holds through everything that the pages do.
use isachore.Base.{
  String, ◌≡◌, refl, Bool, true, false, Option, none, some, List, [], ◌∷◌, if◌then◌else◌,
}
use isachore.Web.Number.{Numerals}
use isachore.Web.Value.{Json}
use isachore.Table.{TableSettings, AreFilterKeys}
use isachore.Table.Hook.{Hook, Event, state_of}
use isachore.Table.Hook.Calls.{IsPositive, IsCall}
use isachore.Table.Hook.Commit.{Inv}
use isachore.Table.Hook.Loading.{step-Inv}
use isachore.Listing.{Listing, Act, Pruner, scoped, call_table, pruned, act, acts}

module _ (num : Numerals) (json : Json) (fk : List String) (sk : Option String) (pd : TableSettings)
    {Row Dep Data Offered : Type 0} (p : Pruner num fk Row Dep Data Offered) where
  -- Calls of the table that the pages make.
  abbrev pub AreCalls : List (Act Row Dep Data) → Type 0
  AreCalls [] = Unit
  AreCalls (Act.on_table e ∷ rest) = IsCall num fk e × AreCalls rest
  AreCalls (_ ∷ rest) = AreCalls rest

  pub call_table-Inv :
      (o : Option (Event Row)) (h : Hook Row)
      → AreFilterKeys fk
      → IsPositive num pd.page_size
      → ((e : Event Row) → o ≡ some e → IsCall num fk e)
      → Inv num json fk sk pd h
      → Inv num json fk sk pd (call_table num json fk sk pd p o h)
  call_table-Inv none h fresh dz c i = i
  call_table-Inv (some e) h fresh dz c i = step-Inv num json fk sk pd e h fresh dz (c e refl) i

  either_listing :
      (b : Bool) (x y : Listing Row Dep Offered) (Q : Listing Row Dep Offered → Type 0)
      → Q x
      → Q y
      → Q (if b then x else y)
  either_listing true x y Q s t = s
  either_listing false x y Q s t = t

  pub not_asked :
      (b : Bool) (x y : Listing Row Dep Offered) (Q : Listing Row Dep Offered → Type 0)
      → b ≡ false
      → Q y
      → Q (if b then x else y)
  not_asked true x y Q e t = cc
  not_asked false x y Q e t = t

  pub asked_now :
      (b : Bool) (x y : Listing Row Dep Offered) (Q : Listing Row Dep Offered → Type 0)
      → b ≡ true
      → Q x
      → Q (if b then x else y)
  asked_now true x y Q e s = s
  asked_now false x y Q e s = cc

  pub pruned-Inv :
      (o : Option Offered) (h : Listing Row Dep Offered)
      → AreFilterKeys fk
      → IsPositive num pd.page_size
      → Inv num json fk sk pd h.table
      → Inv num json fk sk pd (pruned num json fk sk pd p o h).table
  unfolding pruned
  pruned-Inv o h fresh dz i =
      call_table-Inv (p.prune h.dep o (state_of num json fk sk pd h.table).filters) h.table fresh dz
        (λ e q. (p.call h.dep o _ e q).0) i

  act-Inv :
      (a : Act Row Dep Data) (h : Listing Row Dep Offered)
      → AreFilterKeys fk
      → IsPositive num pd.page_size
      → AreCalls (a ∷ [])
      → Inv num json fk sk pd h.table
      → Inv num json fk sk pd (act num json fk sk pd p a h).table
  unfolding act
  act-Inv (Act.on_table e) h fresh dz (c, _) i = step-Inv num json fk sk pd e h.table fresh dz c i
  act-Inv (Act.render d) h fresh dz c i =
      either_listing (p.same_dep h.dep d) h (record h { dep = d; asked = true })
        (λ l. Inv num json fk sk pd l.table) i i
  act-Inv (Act.options_settled answer) h fresh dz c i =
      either_listing h.asked (pruned num json fk sk pd p (scoped p.scope h.dep answer) h) h
        (λ l. Inv num json fk sk pd l.table) (pruned-Inv (scoped p.scope h.dep answer) h fresh dz i)
        i
  act-Inv Act.remove h fresh dz c i = i
  act-Inv (Act.removed none) h fresh dz c i =
      step-Inv num json fk sk pd Event.reload h.table fresh dz tt i
  act-Inv (Act.removed (some message)) h fresh dz c i = i

  pub acts-Inv :
      (as_done : List (Act Row Dep Data)) (h : Listing Row Dep Offered)
      → AreFilterKeys fk
      → IsPositive num pd.page_size
      → AreCalls as_done
      → Inv num json fk sk pd h.table
      → Inv num json fk sk pd (acts num json fk sk pd p as_done h).table
  unfolding acts
  acts-Inv [] h fresh dz c i = i
  acts-Inv (a ∷ rest) h fresh dz c i =
      let (one, more) = split a rest c in
      acts-Inv rest (act num json fk sk pd p a h) fresh dz more (act-Inv a h fresh dz one i)
    where
      split :
          (a : Act Row Dep Data) (rest : List (Act Row Dep Data))
          → AreCalls (a ∷ rest)
          → AreCalls (a ∷ []) × AreCalls rest
      split (Act.on_table e) rest (c, cs) = ((c, tt), cs)
      split (Act.render d) rest cs = (tt, cs)
      split (Act.options_settled answer) rest cs = (tt, cs)
      split Act.remove rest cs = (tt, cs)
      split (Act.removed m) rest cs = (tt, cs)
