-- ===== src/Auth/Appearance.antt =====
-- Adopting an account's appearance: what it leaves alone.
use isachore.Base.{
  String, ◌≡◌, refl, ap, ◌∙◌, Bool, true, false, ◌||◌, Option, none, some, ◌=s=◌, if◌then◌else◌,
  arith, eq_iff,
}
use isachore.Types.{User, Me, Flavour, Accent, Language}
use isachore.Web.Store.{Store, lookup, insert, set_item}
use isachore.Web.Store.Laws.{lookup-insert}
use isachore.Table.Owner.{is_table_key, owner_key}
use isachore.Auth.{
  Auth, Task, pure, flavour_id, accent_id, language_id, and_then, ◌>>=◌, stored, choose, when_some,
  set_theme, set_accent, change_language, sync_choices, sync_appearance, theme_key, accent_key,
  language_key,
}

-- A change of the appearance and of other keys than the tables'.
pub record Restyled (h h' : Auth) : Type 0 where
  pub user : h'.user ≡ h.user
  pub impersonating : h'.impersonating ≡ h.impersonating
  pub memberships : h'.memberships ≡ h.memberships
  pub email : h'.email_confirmation_required ≡ h.email_confirmation_required
  pub loading : h'.loading ≡ h.loading
  pub current : h'.current ≡ h.current
  pub cancelled : h'.cancelled ≡ h.cancelled
  pub store : h'.store ≡ record h.store { entries = h'.store.entries }
  pub tables :
      (k : String)
      → (is_table_key k || k =s= owner_key) ≡ true
      → lookup k h'.store.entries ≡ lookup k h.store.entries

pub Restyled-refl : (h : Auth) → Restyled h h
Restyled-refl h = record {
  user = refl;
  impersonating = refl;
  memberships = refl;
  email = refl;
  loading = refl;
  current = refl;
  cancelled = refl;
  store = refl;
  tables = λ k t. refl;
}

Restyled-trans : (a b c : Auth) → Restyled a b → Restyled b c → Restyled a c
Restyled-trans a b c p q = record {
  user = q.user ∙ p.user;
  impersonating = q.impersonating ∙ p.impersonating;
  memberships = q.memberships ∙ p.memberships;
  email = q.email ∙ p.email;
  loading = q.loading ∙ p.loading;
  current = q.current ∙ p.current;
  cancelled = q.cancelled ∙ p.cancelled;
  store = q.store ∙ ap (λ (s : Store). record s { entries = c.store.entries }) p.store;
  tables = λ k t. q.tables k t ∙ p.tables k t;
}

-- A task that does no more than that, whether or not it throws.
abbrev IsStyling : {A : Type 0} → Task A → Type 0
IsStyling m = (h : Auth) → Restyled h (m h).1

then-IsStyling :
    {A B : Type 0} (m : Task A) (f : A → Task B)
    → IsStyling m
    → ((a : A) → IsStyling (f a))
    → IsStyling (m >>= f)
then-IsStyling {A = A} {B = B} m f p q h = continued (m h) (p h)
  where
    continued : (r : Option A × Auth) → Restyled h r.1 → Restyled h (and_then r f).1
    continued (none, h') p = p
    continued (some a, h') p = Restyled-trans h h' (f a h').1 p (q a h')

when_some-IsStyling :
    {A : Type 0} (o : Option A) (apply : A → Task (Unit {0}))
    → ((a : A) → IsStyling (apply a))
    → IsStyling (when_some o apply)
when_some-IsStyling none apply p h = Restyled-refl h
when_some-IsStyling (some a) apply p h = p a h

written-Restyled :
    (key value : String) (h : Auth)
    → (is_table_key key || key =s= owner_key) ≡ false
    → Restyled h
        (record h { store = record h.store { entries = insert key value h.store.entries } })
written-Restyled key value h other = record {
  user = refl;
  impersonating = refl;
  memberships = refl;
  email = refl;
  loading = refl;
  current = refl;
  cancelled = refl;
  store = refl;
  tables = λ k t.
      ground (arith, lookup-insert key k value h.store.entries, eq_iff key k, eq_iff key owner_key);
}

-- A write that the browser takes.
taken :
    {A : Type 0} (blocked refused : Bool) (s t : A)
    → (if blocked then none else if refused then none else some t) ≡ some s
    → s ≡ t
taken true r s t e = cc
taken false true s t e = cc
taken false false s t e = cc

pub set_item-taken :
    (key value : String) (s t : Store)
    → set_item key value s ≡ some t
    → t ≡ record s { entries = insert key value s.entries }
unfolding set_item
set_item-taken key value s t e =
    taken s.blocked (s.refuses key value) t (record s { entries = insert key value s.entries }) e

choose-IsStyling :
    (key value : String) (f : Auth → Auth)
    → (is_table_key key || key =s= owner_key) ≡ false
    → ((h : Auth) → Restyled h (f h))
    → IsStyling (choose key value f)
choose-IsStyling key value f other p h =
    stored_case (set_item key value h.store) (λ t e. set_item-taken key value h.store t e)
  where
    stored_case :
        (o : Option Store)
        → ((t : Store)
            → o ≡ some t
            → t ≡ record h.store { entries = insert key value h.store.entries })
        → Restyled h (stored o f h).1
    stored_case none e = Restyled-refl h
    stored_case (some t) e =
        let kept : Restyled h (record h { store = t }) =
          rw (e t refl) (written-Restyled key value h other) in
        Restyled-trans h (record h { store = t }) (f (record h { store = t })) kept
          (p (record h { store = t }))

unmoved :
    (h : Auth) (t : Flavour) (a : Accent) (l : Language)
    → Restyled h (record h { theme = t; accent = a; language = l })
unmoved h t a l = record {
  user = refl;
  impersonating = refl;
  memberships = refl;
  email = refl;
  loading = refl;
  current = refl;
  cancelled = refl;
  store = refl;
  tables = λ k e. refl;
}

set_theme-IsStyling : (a : Flavour) → IsStyling (set_theme a)
unfolding set_theme is_table_key
set_theme-IsStyling a =
    choose-IsStyling theme_key (flavour_id a) (λ h. record h { theme = a }) refl
      (λ h. unmoved h a h.accent h.language)

set_accent-IsStyling : (a : Accent) → IsStyling (set_accent a)
unfolding set_accent is_table_key
set_accent-IsStyling a =
    choose-IsStyling accent_key (accent_id a) (λ h. record h { accent = a }) refl
      (λ h. unmoved h h.theme a h.language)

change_language-IsStyling : (a : Language) → IsStyling (change_language a)
unfolding change_language is_table_key
change_language-IsStyling a =
    choose-IsStyling language_key (language_id a) (λ h. record h { language = a }) refl
      (λ h. unmoved h h.theme h.accent a)

either-IsStyling :
    {A : Type 0} (b : Bool) (m n : Task A)
    → IsStyling m
    → IsStyling n
    → IsStyling (if b then m else n)
either-IsStyling true m n p q = p
either-IsStyling false m n p q = q

sync_choices-IsStyling : (u : User) → IsStyling (sync_choices u)
unfolding sync_choices
sync_choices-IsStyling u =
    then-IsStyling (when_some u.theme set_theme) _
      (when_some-IsStyling u.theme set_theme set_theme-IsStyling)
      (λ _.
        then-IsStyling (when_some u.accent_color set_accent) _
          (when_some-IsStyling u.accent_color set_accent set_accent-IsStyling)
          (λ _. when_some-IsStyling u.language change_language change_language-IsStyling))

-- Adopting an appearance changes neither the session nor what the storage holds for the tables,
-- also where the browser refuses a write midway.
pub sync_appearance-Restyled : (me : Me) (h : Auth) → Restyled h (sync_appearance me h).1
unfolding sync_appearance
sync_appearance-Restyled me =
    either-IsStyling me.impersonating (pure tt) (sync_choices me.user) Restyled-refl
      (sync_choices-IsStyling me.user)
