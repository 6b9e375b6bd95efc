-- ===== src/Domain/Scoring/Tests.antt =====
-- Runs of app/domain/scoring.py, and the theorems at concrete findings.
use npm_sentinel.Domain.Scoring.Bands.{calculate_risk_level-bands}
use mathlib.Core.List.Perm
use npm_sentinel.Base.{
  ◌≡◌, refl, Option, some, none, String, List, [], ◌∷◌, ◌++◌, min, ◌+◌, leb, if◌then◌else◌,
}
use npm_sentinel.Base.Int.{pos, negsuc, ◌≤ℤ◌}
use npm_sentinel.Domain.Scoring.{calculate_score, calculate_risk_level}
use npm_sentinel.Domain.Scoring.Bounds.{
  calculate_score-perm-append, calculate_score-eq-min, all_worth, total,
}

abbrev binary_and_hook : List (Option String)
binary_and_hook = some "EXECUTABLE_BINARY" ∷ some "INSTALL_HOOK_ADDED" ∷ none ∷ some "OTHER" ∷ []

score-binary_and_hook :
    (calculate_score binary_and_hook ≡ pos 46)
    × (calculate_risk_level (pos 46) ≡ "medium")
    × (calculate_risk_level (negsuc 3) ≡ "low")
    × (calculate_risk_level (pos 400) ≡ "high")
unfolding calculate_score calculate_risk_level
score-binary_and_hook = (refl, refl, refl, refl)

calculate_score-perm-append_example :
    (calculate_score binary_and_hook ≡ calculate_score binary_and_hook)
    × (calculate_score binary_and_hook ≤ℤ calculate_score ((none ∷ []) ++ binary_and_hook))
    × (calculate_score binary_and_hook ≤ℤ calculate_score (binary_and_hook ++ none ∷ []))
calculate_score-perm-append_example =
    calculate_score-perm-append binary_and_hook binary_and_hook (none ∷ []) (Perm.refl _)

calculate_score-eq-min_example :
    calculate_score binary_and_hook ≡ pos (min 100 (1 + all_worth binary_and_hook))
calculate_score-eq-min_example = calculate_score-eq-min binary_and_hook

calculate_risk_level-bands_example : calculate_risk_level (calculate_score binary_and_hook) ≡ (
    if leb (total binary_and_hook) 29
    then "low"
    else if leb (total binary_and_hook) 69
    then "medium"
    else "high")
calculate_risk_level-bands_example = calculate_risk_level-bands binary_and_hook
