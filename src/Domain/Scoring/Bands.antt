-- ===== src/Domain/Scoring/Bands.antt =====
-- The risk level of app/domain/scoring.py, by the points of the findings.
use npm_sentinel.Base.{
  ◌≤◌, ◌++◌, Bool, true, false, refl, ℕ, ◌≤◌, ◌≡◌, Option, String, List, arith, str_eq, leb,
  if◌then◌else◌,
}
use npm_sentinel.Domain.Scoring.{clamp_score, calculate_score, calculate_risk_level}
use npm_sentinel.Domain.Scoring.Bounds.{total, calculate_score-eq-min_total, total-append}

-- Low up to 29 points, medium from 30 up to 69, high from 70 on.
pub calculate_risk_level-bands :
    (ts : List (Option String))
    → calculate_risk_level (calculate_score ts)
      ≡ (if leb (total ts) 29 then "low" else if leb (total ts) 69 then "medium" else "high")
unfolding clamp_score calculate_risk_level
calculate_risk_level-bands ts = rw (calculate_score-eq-min_total ts) (ground arith)

-- The order of the levels.
unfoldable pub level_rank : String → ℕ
level_rank s = if str_eq s "low" then 0 else if str_eq s "medium" then 1 else 2

level_rank-if :
    (a b : Bool)
    → level_rank (if a then "low" else if b then "medium" else "high")
      ≡ (if a then 0 else if b then 1 else 2)
unfolding level_rank
level_rank-if true b = refl
level_rank-if false true = refl
level_rank-if false false = refl

-- More findings never lower the level.
pub calculate_risk_level_mono :
    (ts us : List (Option String))
    → level_rank (calculate_risk_level (calculate_score ts))
      ≤ level_rank (calculate_risk_level (calculate_score (ts ++ us)))
calculate_risk_level_mono ts us =
    rw
      (
        calculate_risk_level-bands ts,
        calculate_risk_level-bands (ts ++ us),
        total-append ts us,
        level_rank-if,
        level_rank-if,
      )
      (ground arith)
