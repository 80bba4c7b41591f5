-- ===== src/Pickers/Tests.antt =====
-- Three members, of whom one is chosen.
use isachore.Base.{ℕ, ◌≡◌, refl, List, [], ◌∷◌}
use isachore.Pickers.{includes, Click, row, badge, clicked, clicks}
use isachore.Pickers.Chosen.{AreDistinct, all_meant, chosen_as_meant}

abbrev offered : List ℕ
offered = 1 ∷ 2 ∷ 3 ∷ []

abbrev some_clicks : List Click
some_clicks = row 1 ∷ row 2 ∷ row 1 ∷ badge 3 ∷ []

ends_with : clicks offered some_clicks (3 ∷ []) ≡ 2 ∷ []
unfolding clicks clicked
ends_with = refl

chosen_as_meant_example :
    AreDistinct (clicks offered some_clicks (3 ∷ []))
    × ((k : ℕ)
        → includes k (clicks offered some_clicks (3 ∷ []))
          ≡ all_meant offered some_clicks (λ y. includes y (3 ∷ [])) k)
chosen_as_meant_example =
    chosen_as_meant offered some_clicks (3 ∷ []) (refl, (refl, (refl, tt))) (refl, tt)
