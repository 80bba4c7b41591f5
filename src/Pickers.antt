-- ===== src/Pickers.antt =====
-- The multi-selects of frontend/src/components/chores: AssigneeMultiSelect.tsx and
-- TagMultiSelect.tsx, by the ids on offer and the ids that are chosen, in the order of choosing.
-- The tags' select has the toggles alone.
pub mod Chosen
mod Tests
use isachore.Base.{ℕ, Bool, true, false, not, List, [], ◌∷◌, ◌++◌, any, select, ◌==◌, if◌then◌else◌}

-- `value.includes(id)`
abbrev pub includes : ℕ → List ℕ → Bool
includes id value = any (λ v. v == id) value

-- `value.filter((v) => v !== id)`
abbrev pub drop : ℕ → List ℕ → List ℕ
drop id value = select (λ v. not (v == id)) value

abbrev pub toggle : ℕ → List ℕ → List ℕ
toggle id value = if includes id value then drop id value else value ++ id ∷ []

-- A click on a row of the list, on the cross of a badge, on "select all" and on "clear".
pub data Click : Type 0 where
  row badge : ℕ → Click
  select_all clear : Click

unfoldable pub clicked : List ℕ → Click → List ℕ → List ℕ
clicked offered (row id) value = toggle id value
clicked offered (badge id) value = drop id value
clicked offered select_all value = offered
clicked offered clear value = []

unfoldable pub clicks : List ℕ → List Click → List ℕ → List ℕ
clicks offered [] value = value
clicks offered (c ∷ rest) value = clicks offered rest (clicked offered c value)

-- The items whose ids are chosen, in the order of the list.
abbrev pub selected : {A : Type 0} → (A → ℕ) → List A → List ℕ → List A
selected id items value = select (λ x. includes (id x) value) items
