-- ===== src/Appearance/Reload/Keeping.antt =====
-- The choices of appearance keep what is on screen equal to what the storage stands for.
use isachore.Base.{
  String, ◌≡◌, refl, Bool, true, false, ◌||◌, Option, none, some, ◌=s=◌, if◌then◌else◌,
}
use isachore.Types.{Me, Flavour, Accent, Language}
use isachore.Web.Store.{Store, lookup, insert, set_item}
use isachore.Web.Store.Laws.{lookup-insert}
use isachore.Table.Owner.{is_table_key, owner_key}
use isachore.Auth.{
  Auth, Task, pure, and_then, ◌>>=◌, stored, choose, when_some, set_theme, set_accent,
  change_language, sync_choices, sync_appearance, theme_key, accent_key, language_key, flavour_id,
  accent_id, language_id,
}
use isachore.Auth.Appearance.{set_item-taken}
use isachore.Appearance.{initial_theme, initial_accent, initial_language}
use isachore.Appearance.Reading.{initial_theme-id, initial_accent-id, initial_language-id}

-- What is on screen is what the storage stands for.
pub record IsRemembered (prefers_dark : Bool) (h : Auth) : Type 0 where
  pub unblocked : h.store.blocked ≡ false
  pub theme : initial_theme prefers_dark (lookup theme_key h.store.entries) ≡ h.theme
  pub accent : initial_accent (lookup accent_key h.store.entries) ≡ h.accent
  pub language : initial_language (lookup language_key h.store.entries) ≡ h.language

pub theme_other : (is_table_key theme_key || theme_key =s= owner_key) ≡ false
unfolding is_table_key
theme_other = refl

pub accent_other : (is_table_key accent_key || accent_key =s= owner_key) ≡ false
unfolding is_table_key
accent_other = refl

pub language_other : (is_table_key language_key || language_key =s= owner_key) ≡ false
unfolding is_table_key
language_other = refl

module _ (prefers_dark : Bool) where
  -- A task that keeps it so, whether or not it throws.
  abbrev pub IsKeeping : {A : Type 0} → Task A → Type 0
  IsKeeping m = (h : Auth) → IsRemembered prefers_dark h → IsRemembered prefers_dark (m h).1

  pub then-IsKeeping :
      {A B : Type 0} (m : Task A) (f : A → Task B)
      → IsKeeping m
      → ((a : A) → IsKeeping (f a))
      → IsKeeping (m >>= f)
  then-IsKeeping {A = A} {B = B} m f p q h r = continued (m h) (p h r)
    where
      continued :
          (x : Option A × Auth)
          → IsRemembered prefers_dark x.1
          → IsRemembered prefers_dark (and_then x f).1
      continued (none, h') r = r
      continued (some a, h') r = q a h' r

  either_task :
      {A : Type 0} (b : Bool) (m n : Task A)
      → IsKeeping m
      → IsKeeping n
      → IsKeeping (if b then m else n)
  either_task true m n p q = p
  either_task false m n p q = q

  when_some-IsKeeping :
      {A : Type 0} (o : Option A) (apply : A → Task (Unit {0}))
      → ((a : A) → IsKeeping (apply a))
      → IsKeeping (when_some o apply)
  when_some-IsKeeping none apply p h r = r
  when_some-IsKeeping (some a) apply p h r = p a h r

  choose-IsKeeping :
      (key value : String) (f : Auth → Auth)
      → ((h : Auth)
          → IsRemembered prefers_dark h
          → IsRemembered prefers_dark (
              f (record h {
                store = record h.store { entries = insert key value h.store.entries };
              })))
      → IsKeeping (choose key value f)
  choose-IsKeeping key value f p h r =
      stored_case (set_item key value h.store) (λ t e. set_item-taken key value h.store t e)
    where
      stored_case :
          (o : Option Store)
          → ((t : Store)
              → o ≡ some t
              → t ≡ record h.store { entries = insert key value h.store.entries })
          → IsRemembered prefers_dark (stored o f h).1
      stored_case none e = r
      stored_case (some t) e = rw (e t refl) (p h r)

  pub set_theme-IsKeeping : (f : Flavour) → IsKeeping (set_theme f)
  unfolding set_theme
  set_theme-IsKeeping next =
      choose-IsKeeping theme_key (flavour_id next) (λ h. record h { theme = next })
        (λ h r. record {
          unblocked = r.unblocked;
          theme =
              rw (lookup-insert theme_key theme_key (flavour_id next) h.store.entries)
                (initial_theme-id prefers_dark next);
          accent =
              rw (lookup-insert theme_key accent_key (flavour_id next) h.store.entries) r.accent;
          language =
              rw (lookup-insert theme_key language_key (flavour_id next) h.store.entries)
                r.language;
        })

  pub set_accent-IsKeeping : (a : Accent) → IsKeeping (set_accent a)
  unfolding set_accent
  set_accent-IsKeeping next =
      choose-IsKeeping accent_key (accent_id next) (λ h. record h { accent = next })
        (λ h r. record {
          unblocked = r.unblocked;
          theme = rw (lookup-insert accent_key theme_key (accent_id next) h.store.entries) r.theme;
          accent =
              rw (lookup-insert accent_key accent_key (accent_id next) h.store.entries)
                (initial_accent-id next);
          language =
              rw (lookup-insert accent_key language_key (accent_id next) h.store.entries)
                r.language;
        })

  pub change_language-IsKeeping : (l : Language) → IsKeeping (change_language l)
  unfolding change_language
  change_language-IsKeeping next =
      choose-IsKeeping language_key (language_id next) (λ h. record h { language = next })
        (λ h r. record {
          unblocked = r.unblocked;
          theme =
              rw (lookup-insert language_key theme_key (language_id next) h.store.entries) r.theme;
          accent =
              rw (lookup-insert language_key accent_key (language_id next) h.store.entries)
                r.accent;
          language =
              rw (lookup-insert language_key language_key (language_id next) h.store.entries)
                (initial_language-id next);
        })

  pub sync_appearance-IsKeeping : (me : Me) → IsKeeping (sync_appearance me)
  unfolding sync_appearance sync_choices
  sync_appearance-IsKeeping me =
      either_task me.impersonating (pure tt) (sync_choices me.user) (λ h r. r)
        (then-IsKeeping (when_some me.user.theme set_theme) _
          (when_some-IsKeeping me.user.theme set_theme set_theme-IsKeeping)
          (λ _.
            then-IsKeeping (when_some me.user.accent_color set_accent) _
              (when_some-IsKeeping me.user.accent_color set_accent set_accent-IsKeeping)
              (λ _.
                when_some-IsKeeping me.user.language change_language change_language-IsKeeping)))
