-- ===== src/Table/Query.antt =====
-- The request that a state stands for.
use isachore.Base.{
  String, ◌≡◌, refl, sym, ap, ◌∙◌, true, false, not, ◌&&◌, none, some, List, ◌=s=◌, if◌then◌else◌,
  arith, eq_iff,
}
use isachore.Web.Number.{Numerals, IsNumber, print_injective}
use isachore.Web.Params.{get}
use isachore.Web.Params.Laws.{get-set}
use isachore.Table.{
  SortDir, asc, desc, TableState, sort_dir_text, has_key, page_keys, to_api_query, SameState,
  AreFilterKeys,
}
use isachore.Table.Url.{get-set_filters_unless, ne_of_has_key}

module _ (num : Numerals) (fk : List String) (s : TableState) where
  get-to_api_query :
      (key : String)
      → get key (to_api_query num fk s) ≡ (
          if has_key key fk && not (s.filters key =s= "")
          then some (s.filters key)
          else if "sort_dir" =s= key
          then some (sort_dir_text s.sort_dir)
          else if "sort_by" =s= key
          then some s.sort_by
          else if "page_size" =s= key
          then some (num.print s.page_size)
          else if "page" =s= key
          then some (num.print s.page)
          else none)
  unfolding to_api_query get
  get-to_api_query key = simp (get-set_filters_unless, get-set)

  query_filter :
      (key : String)
      → AreFilterKeys fk
      → has_key key fk ≡ true
      → get key (to_api_query num fk s)
        ≡ (if s.filters key =s= "" then none else some (s.filters key))
  query_filter key fresh h = rw (get-to_api_query key) (
      rw
        (
          h,
          ne_of_has_key fk "page" key fresh.0 h,
          ne_of_has_key fk "page_size" key fresh.1 h,
          ne_of_has_key fk "sort_by" key fresh.2 h,
          ne_of_has_key fk "sort_dir" key fresh.3 h,
        )
        (ground arith))

-- What the server is sent: the four parameters always, and a filter exactly when it is not empty;
-- no other parameter. No filter may be named like one of the four.
pub get-to_api_query_fields :
    (num : Numerals) (fk : List String) (s : TableState) (key : String)
    → AreFilterKeys fk
    → (get "page" (to_api_query num fk s) ≡ some (num.print s.page))
      × (get "page_size" (to_api_query num fk s) ≡ some (num.print s.page_size))
      × (get "sort_by" (to_api_query num fk s) ≡ some s.sort_by)
      × (get "sort_dir" (to_api_query num fk s) ≡ some (sort_dir_text s.sort_dir))
      × (has_key key fk ≡ true
          → get key (to_api_query num fk s)
            ≡ (if s.filters key =s= "" then none else some (s.filters key)))
      × (has_key key page_keys ≡ false
          → has_key key fk ≡ false
          → get key (to_api_query num fk s) ≡ none)
get-to_api_query_fields num fk s key fresh = (
  rw (get-to_api_query num fk s "page") (rw fresh.0),
  rw (get-to_api_query num fk s "page_size") (rw fresh.1),
  rw (get-to_api_query num fk s "sort_by") (rw fresh.2),
  rw (get-to_api_query num fk s "sort_dir") (rw fresh.3),
  query_filter num fk s key fresh,
  λ h k. rw (get-to_api_query num fk s key) (rw k (ground arith)),
)

option_text :
    (a b : String)
    → (if a =s= "" then none else some a) ≡ (if b =s= "" then none else some b)
    → a ≡ b
option_text a b h = ground (arith, eq_iff a "", eq_iff b "")

sort_dir_text_injective : (a b : SortDir) → sort_dir_text a ≡ sort_dir_text b → a ≡ b
sort_dir_text_injective asc asc h = refl
sort_dir_text_injective desc desc h = refl
sort_dir_text_injective asc desc h = ground (arith, eq_iff "asc" "desc")
sort_dir_text_injective desc asc h = ground (arith, eq_iff "asc" "desc")

-- Two states with the same request are the same to the table: every change that the user can see
-- changes the request, so it is fetched again.
pub to_api_query_injective :
    (num : Numerals) (fk : List String) (s t : TableState)
    → AreFilterKeys fk
    → IsNumber num s.page
    → IsNumber num t.page
    → IsNumber num s.page_size
    → IsNumber num t.page_size
    → to_api_query num fk s ≡ to_api_query num fk t
    → SameState fk s t
to_api_query_injective num fk s t fresh sp tp sz tz e =
    let (p, z, b, o, _, _) = get-to_api_query_fields num fk s "" fresh in
    let (p', z', b', o', _, _) = get-to_api_query_fields num fk t "" fresh in
    record {
      page = print_injective num s.page t.page sp tp (cc (ap (get "page") e));
      page_size = print_injective num s.page_size t.page_size sz tz (cc (ap (get "page_size") e));
      sort_by = cc (ap (get "sort_by") e);
      sort_dir = sort_dir_text_injective s.sort_dir t.sort_dir (cc (ap (get "sort_dir") e));
      filters = λ key h. option_text (s.filters key) (t.filters key) (
          sym (query_filter num fk s key fresh h)
          ∙ ap (get key) e
          ∙ query_filter num fk t key fresh h);
    }
