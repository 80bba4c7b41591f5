-- ===== src/Table/Hook/Calls.antt =====
-- What the pages pass to the setters, and states that such calls change.
use isachore.Base.{
  ℕ, ◌≤◌, String, ◌≡◌, ◌≢◌, refl, sym, ◌∙◌, inl, inr, true, false, not, ◌&&◌, Option, none, some,
  List, [], ◌∷◌, any, leb, ◌=s=◌, arith, eq_iff, eq_refl, Bool-cases,
}
use isachore.Base.Int.{pos, negsuc}
use isachore.Web.Number.{JsNumber, whole, other, Numerals, IsNumber}
use isachore.Web.Params.{Params, get}
use isachore.Web.Value.{Json}
use isachore.Table.{
  SortDir, Filters, TableSettings, TableState, sort_dir_eq, positive_number, positive_int, has_key,
  derive_state, apply_owned_params, to_api_query, SameState, AreFilterKeys,
}
use isachore.Table.Url.{derive_state-apply_owned_params}
use isachore.Table.Query.{to_api_query_injective}
use isachore.Table.Hook.{Hook, Event, put_filter, defined, put_filters, after_error, is_rejection}

abbrev pub IsPositive : Numerals → ℕ → Type 0
IsPositive num n = (1 ≤ n) × IsNumber num n

pub positive_number-IsPositive :
    (num : Numerals) (raw : String) (n : JsNumber) (fallback : ℕ)
    → num.read raw ≡ n
    → IsPositive num fallback
    → IsPositive num (positive_number n fallback)
unfolding positive_number
positive_number-IsPositive num raw (whole (pos n)) fallback e h = elim (Bool-cases (leb 1 n)) [
  | inl p ↦ rw p (ground arith, num.read-print-read raw n e)
  | inr p ↦ rw p h
]
positive_number-IsPositive num raw (whole (negsuc n)) fallback e h = h
positive_number-IsPositive num raw other fallback e h = h

pub positive_int-IsPositive :
    (num : Numerals) (o : Option String) (fallback : ℕ)
    → IsPositive num fallback
    → IsPositive num (positive_int num o fallback)
unfolding positive_int
positive_int-IsPositive num none fallback h = h
positive_int-IsPositive num (some raw) fallback h =
    positive_number-IsPositive num raw (num.read raw) fallback refl h

-- What the callers pass: positive numbers, and filters of the page, each once in a patch.
abbrev pub HasDistinctKeys : List (String × String) → Type 0
HasDistinctKeys [] = Unit
HasDistinctKeys ((key, value) ∷ entries) =
    (any (λ e. e.0 =s= key) entries ≡ false) × HasDistinctKeys entries

abbrev pub AreFilters : List String → List (String × String) → Type 0
AreFilters fk [] = Unit
AreFilters fk ((key, value) ∷ entries) = (has_key key fk ≡ true) × AreFilters fk entries

abbrev pub IsCall : {Row : Type 0} → Numerals → List String → Event Row → Type 0
IsCall num fk (Event.set_page page) = IsPositive num page
IsCall num fk (Event.set_page_size size) = IsPositive num size
IsCall num fk (Event.set_filter key value) = has_key key fk ≡ true
IsCall num fk (Event.set_filters patch) =
    AreFilters fk (defined patch) × HasDistinctKeys (defined patch)
IsCall num fk _ = Unit

abbrev pub AreCalls : {Row : Type 0} → Numerals → List String → List (Event Row) → Type 0
AreCalls num fk [] = Unit
AreCalls num fk (e ∷ es) = IsCall num fk e × AreCalls num fk es

pub put_filters_other :
    (entries : List (String × String)) (f : Filters) (key : String)
    → any (λ e. e.0 =s= key) entries ≡ false
    → put_filters entries f key ≡ f key
unfolding put_filters
put_filters_other [] f key h = refl
put_filters_other ((k, v) ∷ entries) f key h =
    ground (arith, put_filters_other entries (put_filter k v f) key)

-- A patch with an entry unlike the state changes the state at that entry's key.
pub put_filters_changes :
    (fk : List String) (entries : List (String × String)) (f g : Filters)
    → AreFilters fk entries
    → HasDistinctKeys entries
    → any (λ e. not (f e.0 =s= e.1)) entries ≡ true
    → (key : String) × (has_key key fk ≡ true) × (f key ≢ put_filters entries g key)
unfolding put_filters
put_filters_changes fk [] f g a d h = cc
put_filters_changes fk ((k, v) ∷ entries) f g (a, rest) (d, ds) h = elim (Bool-cases (f k =s= v)) [
  | inl same ↦ put_filters_changes fk entries f (put_filter k v g) rest ds (ground arith)
  | inr unlike ↦ (
    k,
    a,
    ground (arith, put_filters_other entries (put_filter k v g) k d, eq_iff k k, eq_iff (f k) v),
  )
]

pub SameState-trans :
    (fk : List String) (a b c : TableState) → SameState fk a b → SameState fk b c → SameState fk a c
SameState-trans fk a b c p q = record {
  page = p.page ∙ q.page;
  page_size = p.page_size ∙ q.page_size;
  sort_by = p.sort_by ∙ q.sort_by;
  sort_dir = p.sort_dir ∙ q.sort_dir;
  filters = λ key h. p.filters key h ∙ q.filters key h;
}

pub SameState-sym : (fk : List String) (a b : TableState) → SameState fk a b → SameState fk b a
SameState-sym fk a b p = record {
  page = sym p.page;
  page_size = sym p.page_size;
  sort_by = sym p.sort_by;
  sort_dir = sym p.sort_dir;
  filters = λ key h. sym (p.filters key h);
}

pub one_IsPositive : (num : Numerals) → IsPositive num 1
one_IsPositive num = (omega arith, num.read-print 1 (omega arith))

-- A state read from any query string has a page and a page size that are positive numbers.
pub derive_state-IsPositive :
    (num : Numerals) (fk : List String) (d : TableSettings) (ps : Params)
    → IsPositive num d.page_size
    → IsPositive num (derive_state num fk d ps).page
      × IsPositive num (derive_state num fk d ps).page_size
unfolding derive_state
derive_state-IsPositive num fk d ps h = (
  positive_int-IsPositive num (get "page" ps) 1 (one_IsPositive num),
  positive_int-IsPositive num (get "page_size" ps) d.page_size h,
)

-- Writing another state into the query string changes the request.
pub query_changes :
    (num : Numerals) (fk : List String) (d : TableSettings) (ps : Params) (t : TableState)
    → AreFilterKeys fk
    → IsPositive num d.page_size
    → IsPositive num t.page
    → IsPositive num t.page_size
    → ¬ SameState fk t (derive_state num fk d ps)
    → to_api_query num fk (derive_state num fk d ps)
      ≢ to_api_query num fk (derive_state num fk d (apply_owned_params num fk d ps t))
query_changes num fk d ps t fresh dz p z differs e =
    let old = derive_state num fk d ps in
    let new = derive_state num fk d (apply_owned_params num fk d ps t) in
    let written : SameState fk new t =
      derive_state-apply_owned_params num fk d ps t fresh p.0 p.1 z.0 z.1 in
    let (op, oz) = derive_state-IsPositive num fk d ps dz in
    let (np, nz) = derive_state-IsPositive num fk d (apply_owned_params num fk d ps t) dz in
    let same : SameState fk old new =
      to_api_query_injective num fk old new fresh op.1 np.1 oz.1 nz.1 e in
    differs (SameState-sym fk old t (SameState-trans fk old new t same written))

pub after_error-size :
    (num : Numerals) (json : Json) (fk : List String) (sk : Option String) (pd : TableSettings)
    {Row : Type 0} (key : Option String) (status : ℕ) (h : Hook Row)
    → IsPositive num h.defaults.page_size
    → IsPositive num pd.page_size
    → IsPositive num (after_error num json fk sk pd key status h).defaults.page_size
unfolding after_error
after_error-size num json fk sk pd none status h z dz = z
after_error-size num json fk sk pd (some key) status h z dz =
    elim (Bool-cases (is_rejection status)) [ inl e ↦ rw e dz | inr e ↦ rw e z ]

pub put_filter_self : (key value : String) (f : Filters) → put_filter key value f key ≡ value
put_filter_self key value f = rw (eq_refl key)

pub sort_dir_eq_self : (a : SortDir) → sort_dir_eq a a ≡ true
sort_dir_eq_self SortDir.asc = refl
sort_dir_eq_self SortDir.desc = refl

pub same_sort :
    (by b : String) (dir d : SortDir)
    → (by =s= b && sort_dir_eq dir d) ≡ false
    → by ≡ b
    → dir ≡ d
    → ⊥
same_sort by b dir d h p q = ground (arith, eq_iff by b, sort_dir_eq_self d)
