-- ===== src/Web/Params/Laws.antt =====
-- What a query string reads after a change.
use isachore.Base.{
  true, String, ◌≡◌, refl, none, some, [], ◌∷◌, ◌=s=◌, if◌then◌else◌, arith, eq_iff,
}
use isachore.Web.Params.{Params, get, delete, set, params_eq}

pub get-delete :
    (name key : String) (ps : Params)
    → get key (delete name ps) ≡ (if name =s= key then none else get key ps)
unfolding get delete
get-delete name key [] = ground arith
get-delete name key ((n, v) ∷ ps) =
    ground (arith, eq_iff n name, eq_iff name key, eq_iff n key, get-delete name key ps)

pub get-set :
    (name key value : String) (ps : Params)
    → get key (set name value ps) ≡ (if name =s= key then some value else get key ps)
unfolding get set
get-set name key value [] = refl
get-set name key value ((n, v) ∷ ps) = ground (
  arith,
  eq_iff n name,
  eq_iff name key,
  eq_iff n key,
  get-set name key value ps,
  get-delete name key ps,
)

pub params_eq_sound : (ps qs : Params) → params_eq ps qs ≡ true → ps ≡ qs
unfolding params_eq
params_eq_sound [] [] h = refl
params_eq_sound [] (q ∷ qs) h = cc
params_eq_sound (p ∷ ps) [] h = cc
params_eq_sound ((n, v) ∷ ps) ((m, w) ∷ qs) h =
    let same : params_eq ps qs ≡ true = ground arith in
    cc (params_eq_sound ps qs same, (eq_iff n m).0 (ground arith), (eq_iff v w).0 (ground arith))
