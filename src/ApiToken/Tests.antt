-- ===== src/ApiToken/Tests.antt =====
-- A token made in another tab.
use isachore.Base.{◌≡◌, refl, none, some, [], ◌∷◌}
use isachore.ApiToken.{Failure, Act, act, acts, opened}

-- The refusal makes the panel read the status again, and it then shows the token that there is.
other_tab :
    (acts
      (Act.loaded none
        ∷ Act.type_password "secret"
        ∷ Act.submit
        ∷ Act.refused (Failure.api_error 409 "Already there")
        ∷ Act.read_again (some (some "2025-01-01T00:00:00Z")) (some none)
        ∷ [])
      opened).status
    ≡ some (some "2025-01-01T00:00:00Z")
unfolding acts act
other_tab = refl
