-- ===== src/TwoFactor/Tests.antt =====
-- The second factor is enabled, and its codes are put away.
use isachore.Base.{◌≡◌, ◌⊎◌, refl, none, List, [], ◌∷◌}
use isachore.Types.{TwoFactorSetup}
use isachore.TwoFactor.{Outcome, Act, act, acts, closed, on_screen}
use isachore.TwoFactor.Once.{issued, shown_once}

abbrev key : TwoFactorSetup
key = record { secret = "JBSWY3DP"; otpauth_uri = "otpauth://totp/x"; qr = "data:image/png" }

abbrev enabling : List Act
enabling =
    Act.open_enable
    ∷ Act.setup_answered (Outcome.done key)
    ∷ Act.type_confirm "123456"
    ∷ Act.confirm_enable
    ∷ Act.confirm_answered (Outcome.done ("aaaa" ∷ "bbbb" ∷ []))
    ∷ Act.enable_refreshed none
    ∷ []

codes_shown : on_screen (acts enabling closed) ≡ "aaaa" ∷ "bbbb" ∷ []
unfolding acts act
codes_shown = refl

abbrev put_away : List Act
put_away = Act.close_enable ∷ Act.open_regen ∷ Act.type_prompt "1" ∷ Act.close_regen ∷ []

-- A dialog that is closed before the answer never shows the codes.
abbrev too_early : List Act
too_early =
    Act.open_enable
    ∷ Act.confirm_enable
    ∷ Act.close_enable
    ∷ Act.confirm_answered (Outcome.done ("aaaa" ∷ "bbbb" ∷ []))
    ∷ []

codes_lost : on_screen (acts too_early closed) ≡ []
unfolding acts act
codes_lost = refl

shown_once_example :
    ((on_screen (acts too_early closed) ≡ [])
      ⊎ (on_screen (acts too_early closed) ≡ issued [] too_early))
    × (on_screen (acts too_early closed) ≡ []
        → on_screen (acts put_away (acts too_early closed)) ≡ [])
shown_once_example = shown_once too_early put_away (refl, (refl, (refl, (refl, tt))))
