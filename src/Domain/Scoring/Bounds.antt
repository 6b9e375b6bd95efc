-- ===== src/Domain/Scoring/Bounds.antt =====
-- What a score is: bounded, a closed form, monotone, and blind to the order of the findings
-- (calculate_score of app/domain/scoring.py).
use mathlib.Core.List.{Permᴰ, Perm}
use mathlib.Core.Logic.{∥∥₁_elim}
use native.Mathlib.Nat.{ℕ_set}
use npm_sentinel.Base.{
  ℕ, ◌+◌, min, ◌≡◌, refl, ap, ◌∙◌, Option, none, some, String, List, [], ◌∷◌, ◌++◌, arith, str_eq,
  if◌then◌else◌,
}
use npm_sentinel.Base.Int.{pos, ◌+ℤ◌, ◌≤ℤ◌}
use npm_sentinel.Base.Dict.{lookup}
use npm_sentinel.Domain.Enums.{type_value}
use npm_sentinel.Domain.Scoring.{
  finding_score_deltas, points_of, explain_score, sum_points, clamp_score, calculate_score,
}

-- The points of all findings together.
abbrev pub total : List (Option String) → ℕ
total ts = sum_points (explain_score ts)

pub calculate_score-eq-min_total :
    (ts : List (Option String)) → calculate_score ts ≡ pos (min 100 (1 + total ts))
unfolding clamp_score calculate_score ◌+ℤ◌
calculate_score-eq-min_total ts = ground arith

-- The points of a finding, by its type; a type that is not named here has none.
abbrev pub worth : Option String → ℕ
worth none = 0
worth (some type) =
    if str_eq "EXECUTABLE_BINARY" type
    then 25
    else if str_eq "INSTALL_HOOK_ADDED" type
    then 20
    else if str_eq "COMMAND_EXECUTION_PATTERN" type
    then 15
    else if str_eq "OBFUSCATED_CODE" type
    then 15
    else if str_eq "SIZE_INCREASE_HIGH" type
    then 10
    else if str_eq "SIZE_INCREASE_MEDIUM" type
    then 5
    else if str_eq "INSTALL_HOOK_PRESENT" type
    then 5
    else 0

abbrev pub all_worth : List (Option String) → ℕ
all_worth [] = 0
all_worth (t ∷ ts) = worth t + all_worth ts

points_of-eq-worth : (t : Option String) → points_of t ≡ worth t
unfolding points_of finding_score_deltas lookup type_value
points_of-eq-worth none = refl
points_of-eq-worth (some t) = ground arith

total-eq-all_worth : (ts : List (Option String)) → total ts ≡ all_worth ts
unfolding explain_score sum_points
total-eq-all_worth [] = refl
total-eq-all_worth (t ∷ ts) = omega (arith, points_of-eq-worth t, total-eq-all_worth ts)

-- For every list of findings the score is one more than what all of them are worth together, cut off at 100.
pub calculate_score-eq-min :
    (ts : List (Option String)) → calculate_score ts ≡ pos (min 100 (1 + all_worth ts))
calculate_score-eq-min ts = rw (calculate_score-eq-min_total ts, total-eq-all_worth ts) refl

pub total-append : (ts us : List (Option String)) → total (ts ++ us) ≡ total ts + total us
unfolding explain_score sum_points
total-append [] us = omega arith
total-append (t ∷ ts) us = omega (arith, total-append ts us)

total-permᴰ : {ts us : List (Option String)} → Permᴰ ts us → total ts ≡ total us
unfolding explain_score sum_points
total-permᴰ Permᴰ.nil = refl
total-permᴰ (Permᴰ.cons e p) = omega (arith, ap points_of e, total-permᴰ p)
total-permᴰ (Permᴰ.swap e f) = omega (arith, ap points_of e, ap points_of f)
total-permᴰ (Permᴰ.trans p q) = total-permᴰ p ∙ total-permᴰ q

total-perm : {ts us : List (Option String)} → Perm ts us → total ts ≡ total us
total-perm p = ∥∥₁_elim p (ℕ_set _ _) total-permᴰ

-- Reordering the findings does not change the score, and a list with more findings in front or
-- behind scores at least as high.
pub calculate_score-perm-append :
    (ts us vs : List (Option String))
    → Perm us ts
    → (calculate_score us ≡ calculate_score ts)
      × (calculate_score ts ≤ℤ calculate_score (vs ++ ts))
      × (calculate_score ts ≤ℤ calculate_score (ts ++ vs))
calculate_score-perm-append ts us vs p =
    rw
      (
        calculate_score-eq-min_total us,
        calculate_score-eq-min_total ts,
        calculate_score-eq-min_total (vs ++ ts),
        calculate_score-eq-min_total (ts ++ vs),
      )
      (
        ap (λ (n : ℕ). pos (min 100 (1 + n))) (total-perm p),
        omega (arith, total-append vs ts),
        omega (arith, total-append ts vs),
      )
