-- ===== src/Domain/Scoring.antt =====
-- app/domain/scoring.py. A finding enters by its attribute `finding_type`: a text (a member of
-- `FindingType` is its text, also as the key of a dict), or `none` where it has no such attribute.
pub mod Bounds
pub mod Bands
mod Tests
use npm_sentinel.Base.{ℕ, ◌+◌, String, Option, none, some, List, [], ◌∷◌, map, if◌then◌else◌}
use npm_sentinel.Base.Int.{ℤ, pos, ltb_ℤ, leb_ℤ, ◌+ℤ◌}
use npm_sentinel.Base.Dict.{Dict, lookup}
use npm_sentinel.Domain.Enums.{
  executable_binary, install_hook_added, command_execution_pattern, obfuscated_code,
  size_increase_high, size_increase_medium, install_hook_present, install_hook_removed, type_value,
}
use npm_sentinel.Domain.Findings.{Finding}

abbrev pub base_score : ℤ
base_score = pos 1

abbrev pub max_score : ℤ
max_score = pos 100

unfoldable pub finding_score_deltas : Dict ℕ
unfolding type_value
finding_score_deltas =
    (type_value executable_binary, 25)
    ∷ (type_value install_hook_added, 20)
    ∷ (type_value command_execution_pattern, 15)
    ∷ (type_value obfuscated_code, 15)
    ∷ (type_value size_increase_high, 10)
    ∷ (type_value size_increase_medium, 5)
    ∷ (type_value install_hook_present, 5)
    ∷ (type_value install_hook_removed, 0)
    ∷ []

pub record ScoreContribution : Type 0 where
  pub finding_type : String
  pub points : ℕ

-- `FINDING_SCORE_DELTAS.get(finding_type, 0)`
unfoldable pub points_of : Option String → ℕ
unfolding finding_score_deltas lookup
points_of none = 0
points_of (some t) = elim (lookup t finding_score_deltas) [ none ↦ 0 | some n ↦ n ]

-- `str(finding_type)`
abbrev type_text : Option String → String
type_text none = "None"
type_text (some t) = t

unfoldable pub explain_score : List (Option String) → List ScoreContribution
unfolding points_of
explain_score [] = []
explain_score (t ∷ ts) =
    record { finding_type = type_text t; points = points_of t } ∷ explain_score ts

unfoldable pub sum_points : List ScoreContribution → ℕ
sum_points [] = 0
sum_points (c ∷ cs) = c.points + sum_points cs

unfoldable pub clamp_score : ℤ → ℤ
clamp_score score =
    if ltb_ℤ score base_score
    then base_score
    else if ltb_ℤ max_score score
    then max_score
    else score

unfoldable pub calculate_score : List (Option String) → ℤ
unfolding explain_score sum_points clamp_score ◌+ℤ◌
calculate_score findings = clamp_score (base_score +ℤ pos (sum_points (explain_score findings)))

unfoldable pub calculate_risk_level : ℤ → String
unfolding clamp_score
calculate_risk_level score =
    let normalized_score = clamp_score score in
    if leb_ℤ normalized_score (pos 30)
    then "low"
    else if leb_ℤ normalized_score (pos 70)
    then "medium"
    else "high"

-- The attribute of a `Finding`.
unfoldable pub finding_types : List Finding → List (Option String)
unfolding type_value
finding_types findings = map (λ f. some (type_value f.finding_type)) findings
