-- ===== src/Web/Params.antt =====
-- `URLSearchParams`: the name-value pairs of a query string, in order.
pub mod Laws
use isachore.Base.{
  String, Bool, true, false, ◌&&◌, Option, none, some, List, [], ◌∷◌, ◌++◌, ◌=s=◌, if◌then◌else◌,
}

abbrev pub Params : Type 0
Params = List (String × String)

-- The first value of the name, if any.
unfoldable pub get : String → Params → Option String
get name [] = none
get name ((n, v) ∷ ps) = if n =s= name then some v else get name ps

abbrev pub is_some {ℓ} : {A : Type ℓ} → Option A → Bool
is_some none = false
is_some (some _) = true

unfoldable pub has : String → Params → Bool
unfolding get
has name ps = is_some (get name ps)

-- Every pair of the name goes.
unfoldable pub delete : String → Params → Params
delete name [] = []
delete name ((n, v) ∷ ps) = if n =s= name then delete name ps else (n, v) ∷ delete name ps

-- The first pair of the name takes the value and the others go; a new pair stands at the end.
unfoldable pub set : String → String → Params → Params
unfolding delete
set name value [] = (name, value) ∷ []
set name value ((n, v) ∷ ps) =
    if n =s= name then (name, value) ∷ delete name ps else (n, v) ∷ set name value ps

-- Whether two query strings read alike, pair by pair.
unfoldable pub params_eq : Params → Params → Bool
params_eq [] [] = true
params_eq ((n, v) ∷ ps) ((m, w) ∷ qs) = n =s= m && (v =s= w && params_eq ps qs)
params_eq _ _ = false

unfoldable pub append : String → String → Params → Params
append name value params = params ++ ((name, value) ∷ [])
