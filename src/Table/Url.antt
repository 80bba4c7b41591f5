-- ===== src/Table/Url.antt =====
-- The query string and the state are two views of one thing.
use isachore.Base.{
  ℕ, ◌≤◌, String, ◌≡◌, refl, Bool, true, false, not, ◌&&◌, ◌||◌, none, some, List, [], ◌∷◌, ◌++◌,
  ◌==◌, ◌=s=◌, if◌then◌else◌, arith, eq_iff,
}
use isachore.Web.Number.{Numerals, IsNumber}
use isachore.Web.Params.{Params, get, delete}
use isachore.Web.Params.Laws.{get-delete, get-set}
use isachore.Table.{
  SortDir, asc, desc, Filters, TableSettings, TableState, sort_dir_text, positive_int,
  parse_sort_dir, has_key, delete_all, set_unless, set_filters_unless, page_keys, sort_dir_eq,
  derive_state, apply_owned_params, SameState, AreFilterKeys,
}

pub get-delete_all :
    (keys : List String) (key : String) (ps : Params)
    → get key (delete_all keys ps) ≡ (if has_key key keys then none else get key ps)
unfolding delete_all
get-delete_all [] key ps = refl
get-delete_all (k ∷ keys) key ps =
    ground (arith, get-delete_all keys key (delete k ps), get-delete k key ps)

pub get-set_unless :
    (skip : Bool) (name key value : String) (ps : Params)
    → get key (set_unless skip name value ps)
      ≡ (if not skip && name =s= key then some value else get key ps)
get-set_unless true name key value ps = refl
get-set_unless false name key value ps = get-set name key value ps

pub get-set_filters_unless :
    (skip : String → Bool) (filters : Filters) (keys : List String) (key : String) (ps : Params)
    → get key (set_filters_unless skip filters keys ps)
      ≡ (if has_key key keys && not (skip key) then some (filters key) else get key ps)
unfolding set_filters_unless
get-set_filters_unless skip filters [] key ps = refl
get-set_filters_unless skip filters (k ∷ keys) key ps = ground (
  arith,
  eq_iff k key,
  get-set_filters_unless skip filters keys key (set_unless (skip k) k (filters k) ps),
  get-set_unless (skip k) k key (filters k) ps,
)

has_key-append :
    (key : String) (xs ys : List String)
    → has_key key (xs ++ ys) ≡ (has_key key xs || has_key key ys)
has_key-append key [] ys = refl
has_key-append key (x ∷ xs) ys = ground (arith, has_key-append key xs ys)

module _ (num : Numerals) (fk : List String) (d : TableSettings) (base : Params)
    (s : TableState) where
  -- What every key reads in the rewritten query string.
  pub get-apply_owned_params :
      (key : String)
      → get key (apply_owned_params num fk d base s) ≡ (
          if has_key key fk && not (s.filters key =s= d.filters key)
          then some (s.filters key)
          else if not (sort_dir_eq s.sort_dir d.sort_dir) && "sort_dir" =s= key
          then some (sort_dir_text s.sort_dir)
          else if not (s.sort_by =s= d.sort_by) && "sort_by" =s= key
          then some s.sort_by
          else if not (s.page_size == d.page_size) && "page_size" =s= key
          then some (num.print s.page_size)
          else if not (s.page == 1) && "page" =s= key
          then some (num.print s.page)
          else if has_key key page_keys || has_key key fk
          then none
          else get key base)
  unfolding apply_owned_params
  get-apply_owned_params key =
      simp (get-set_filters_unless, get-set_unless, get-delete_all, has_key-append)

-- A query parameter that is not the table's is left as it was by every change of the table.
pub get-apply_owned_params_other :
    (num : Numerals) (fk : List String) (d : TableSettings) (base : Params) (s : TableState)
    (key : String)
    → has_key key page_keys ≡ false
    → has_key key fk ≡ false
    → get key (apply_owned_params num fk d base s) ≡ get key base
get-apply_owned_params_other num fk d base s key h k =
    rw (get-apply_owned_params num fk d base s key) (rw k (ground arith))

pub ne_of_has_key :
    (fk : List String) (a key : String)
    → has_key a fk ≡ false
    → has_key key fk ≡ true
    → (a =s= key) ≡ false
ne_of_has_key fk a key h k = ground (arith, eq_iff a key)

module _ (num : Numerals) (fk : List String) (d : TableSettings) (base : Params) (s : TableState)
    (fresh : AreFilterKeys fk) where
  -- The four owned parameters, and the filters: absent exactly at the default.
  pub get_page :
      get "page" (apply_owned_params num fk d base s)
      ≡ (if s.page == 1 then none else some (num.print s.page))
  get_page = rw (get-apply_owned_params num fk d base s "page") (rw fresh.0 (ground arith))

  pub get_page_size :
      get "page_size" (apply_owned_params num fk d base s)
      ≡ (if s.page_size == d.page_size then none else some (num.print s.page_size))
  get_page_size =
      rw (get-apply_owned_params num fk d base s "page_size") (rw fresh.1 (ground arith))

  pub get_sort_by :
      get "sort_by" (apply_owned_params num fk d base s)
      ≡ (if s.sort_by =s= d.sort_by then none else some s.sort_by)
  get_sort_by = rw (get-apply_owned_params num fk d base s "sort_by") (rw fresh.2 (ground arith))

  pub get_sort_dir :
      get "sort_dir" (apply_owned_params num fk d base s)
      ≡ (if sort_dir_eq s.sort_dir d.sort_dir then none else some (sort_dir_text s.sort_dir))
  get_sort_dir = rw (get-apply_owned_params num fk d base s "sort_dir") (rw fresh.3 (ground arith))

  pub get_filter :
      (key : String)
      → has_key key fk ≡ true
      → get key (apply_owned_params num fk d base s)
        ≡ (if s.filters key =s= d.filters key then none else some (s.filters key))
  get_filter key h = rw (get-apply_owned_params num fk d base s key) (
      rw
        (
          h,
          ne_of_has_key fk "page" key fresh.0 h,
          ne_of_has_key fk "page_size" key fresh.1 h,
          ne_of_has_key fk "sort_by" key fresh.2 h,
          ne_of_has_key fk "sort_dir" key fresh.3 h,
        )
        (ground arith))

positive_int-print :
    (num : Numerals) (n fallback : ℕ)
    → IsNumber num n
    → 1 ≤ n
    → positive_int num (some (num.print n)) fallback ≡ n
unfolding positive_int
positive_int-print num n fallback h p = rw h (ground arith)

parse_dir :
    (a d : SortDir)
    → parse_sort_dir (if sort_dir_eq a d then none else some (sort_dir_text a)) d ≡ a
unfolding parse_sort_dir
parse_dir asc asc = refl
parse_dir asc desc = refl
parse_dir desc asc = refl
parse_dir desc desc = refl

-- Whatever the query string and the defaults were, the state that the table writes into it is the
-- state that the table reads back, if its page and page size are positive numbers and no filter
-- is named like one of the table's other parameters.
pub derive_state-apply_owned_params :
    (num : Numerals) (fk : List String) (d : TableSettings) (base : Params) (s : TableState)
    → AreFilterKeys fk
    → 1 ≤ s.page
    → IsNumber num s.page
    → 1 ≤ s.page_size
    → IsNumber num s.page_size
    → SameState fk (derive_state num fk d (apply_owned_params num fk d base s)) s
unfolding derive_state positive_int
derive_state-apply_owned_params num fk d base s fresh p np z nz = record {
  page = rw (get_page num fk d base s fresh) (ground (arith, positive_int-print num s.page 1));
  page_size =
      rw (get_page_size num fk d base s fresh)
        (ground (arith, positive_int-print num s.page_size d.page_size));
  sort_by = rw (get_sort_by num fk d base s fresh) (ground (arith, eq_iff s.sort_by d.sort_by));
  sort_dir = rw (get_sort_dir num fk d base s fresh) (parse_dir s.sort_dir d.sort_dir);
  filters = λ key h.
      rw (get_filter num fk d base s fresh key h)
        (ground (arith, eq_iff (s.filters key) (d.filters key)));
}
