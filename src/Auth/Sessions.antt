-- ===== src/Auth/Sessions.antt =====
-- The provider and the tables together, over visits to the page: whose settings a user finds.
use isachore.Base.{
  ℕ, String, ◌≡◌, refl, ap, true, false, Option, none, some, List, [], ◌∷◌, inl, inr, if◌then◌else◌,
  Bool-cases,
}
use isachore.Types.{User, Flavour, Accent, Language}
use isachore.Web.Number.{Numerals}
use isachore.Web.Store.{Store, lookup}
use isachore.Table.Settings.{storage_key, write_settings, clear_settings}
use isachore.Table.Settings.Laws.{write_settings_refused}
use isachore.Table.Owner.{is_table_key}
use isachore.Table.Owner.Sessions.{World, Step, Reach, wrote, own_settings}
use isachore.Auth.{Auth, loaded, Event, step}
use isachore.Auth.Steps.{account, world, IsNumbered, step-Reach}

-- The provider, and (for the proof alone) the account in whose session each key was written.
pub record Visit : Type 0 where
  pub auth : Auth
  pub writer : String → ℕ

abbrev pub put_store : Store → Auth → Auth
put_store store h = record h { store = store }

-- An event of the provider, a table's save or reset, which only a page behind the sign-in makes,
-- and another load of the page.
pub data Act : Type 0 where
  event : Event → Act
  save : (key json_text : String) → Act
  reset : (key : String) → Act
  load : Flavour → Accent → Language → Act

saved : Option User → String → String → Visit → Visit
saved none key json_text v = v
saved (some u) key json_text v = record {
  auth = put_store (write_settings key json_text v.auth.store) v.auth;
  writer =
      if v.auth.store.refuses (storage_key key) json_text
      then v.writer
      else wrote (storage_key key) u.id v.writer;
}

unfoldable pub act : Numerals → Act → Visit → Visit
unfolding saved
act num (event e) v = record v { auth = step num e v.auth }
act num (save key json_text) v = saved v.auth.user key json_text v
act num (reset key) v = record v { auth = put_store (clear_settings key v.auth.store) v.auth }
act num (load theme accent language) v = record v {
  auth = loaded theme accent language v.auth.store;
}

unfoldable pub acts : Numerals → List Act → Visit → Visit
acts num [] v = v
acts num (a ∷ more) v = acts num more (act num a v)

abbrev pub AreNumbered : Numerals → List Act → Type 0
AreNumbered num [] = Unit
AreNumbered num (event e ∷ rest) = IsNumbered num e × AreNumbered num rest
AreNumbered num (_ ∷ rest) = AreNumbered num rest

abbrev browser : Visit → World
browser v = world v.auth v.writer

module _ (num : Numerals) (start : World) where
  saved-Reach :
      (key json_text : String) (o : Option User) (v : Visit)
      → v.auth.user ≡ o
      → Reach num start (browser v)
      → Reach num start (browser (saved o key json_text v))
  unfolding saved
  saved-Reach key json_text none v e r = r
  saved-Reach key json_text (some u) v e r =
      elim (Bool-cases (v.auth.store.refuses (storage_key key) json_text)) [
        | inl refused ↦ simp (refused, write_settings_refused key json_text v.auth.store refused) r
        | inr taken ↦
            simp taken
              (Reach.next r (Step.save (browser v) u.id key json_text (ap account e) taken))
      ]

  act-Reach :
      (a : Act) (rest : List Act) (v : Visit)
      → AreNumbered num (a ∷ rest)
      → Reach num start (browser v)
      → Reach num start (browser (act num a v)) × AreNumbered num rest
  unfolding act
  act-Reach (event e) rest v n r = (step-Reach num start v.writer e v.auth n.0 r, n.1)
  act-Reach (save key json_text) rest v n r = (saved-Reach key json_text v.auth.user v refl r, n)
  act-Reach (reset key) rest v n r = (Reach.next r (Step.drop (browser v) key), n)
  act-Reach (load theme accent language) rest v n r = (Reach.next r (Step.close (browser v)), n)

  acts-Reach :
      (more : List Act) (v : Visit)
      → AreNumbered num more
      → Reach num start (browser v)
      → Reach num start (browser (acts num more v))
  unfolding acts
  acts-Reach [] v n r = r
  acts-Reach (a ∷ more) v n r =
      let (r', n') = act-Reach a more v n r in acts-Reach more (act num a v) n' r'

-- On a browser that holds no table settings at first and whose storage is open: however page
-- loads, answers, expired sessions, sign-ins, sign-outs, renders and saves of tables follow one
-- another, what is stored under a table's key while a user is signed in was written while the
-- same account was.
pub settings_stay_private :
    (num : Numerals) (v : Visit) (more : List Act) (u : User) (k value : String)
    → v.auth.store.blocked ≡ false
    → v.auth.user ≡ none
    → ((key : String) → is_table_key key ≡ true → lookup key v.auth.store.entries ≡ none)
    → AreNumbered num more
    → (acts num more v).auth.user ≡ some u
    → is_table_key k ≡ true
    → lookup k (acts num more v).auth.store.entries ≡ some value
    → (acts num more v).writer k ≡ u.id
settings_stay_private num v more u k value is_open nobody bare n signed t l =
    own_settings num (browser v) (browser (acts num more v)) u.id k value is_open
      (ap account nobody) bare (acts-Reach num (browser v) more v n Reach.here) (ap account signed)
      t l
