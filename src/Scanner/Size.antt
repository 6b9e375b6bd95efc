-- ===== src/Scanner/Size.antt =====
-- app/infrastructure/scanner/size_comparator.py. The percentage is a float: what the division and the product give is
-- a parameter, and so is the text of it; a float is the fraction that it stands for, and is compared exactly.
use npm_sentinel.Base.{
  ℕ, ◌-◌, ◌*◌, String, Bool, ◌||◌, Option, none, some, List, [], ◌∷◌, ltb, leb, if◌then◌else◌,
}
use npm_sentinel.Base.Int.{ℤ, pos, pos_part, leb_ℤ}
use npm_sentinel.Domain.Enums.{
  FindingType, size_increase_medium, size_increase_high, FindingSeverity, medium, high,
}
use npm_sentinel.Domain.Findings.{Finding}

unfoldable pub size_finding : FindingType → FindingSeverity → String → String → List Finding
size_finding type severity description evidence =
    record {
      finding_type = type;
      severity = severity;
      category = "size";
      description = description;
      file_path = none;
      evidence = some evidence;
    }
    ∷ []

-- A float that is not negative.
pub record Float : Type 0 where
  pub numerator : ℕ
  pub denominator : ℕ

-- The arithmetic of floats: `percent a b` is `(a / b) * 100`, and `format_percent` its text with two digits and a percent
-- sign.
pub record Floats : Type 0 where
  pub percent : ℕ → ℕ → Float
  pub format_percent : Float → String

-- `x > n` and `x >= n`
abbrev pub above : Float → ℕ → Bool
above x n = ltb (n * x.denominator) x.numerator

abbrev pub at_least : Float → ℕ → Bool
at_least x n = leb (n * x.denominator) x.numerator

module _ (floats : Floats) where
  -- Behind the two guards the sizes are natural numbers with `0 < previous < latest`.
  unfoldable pub size_increase : ℕ → ℕ → List Finding
  unfolding size_finding
  size_increase latest previous =
      let increase_percent = floats.percent (latest - previous) previous in
      if above increase_percent 100
      then size_finding size_increase_high high "Package size increased by more than 100%."
          (floats.format_percent increase_percent)
      else if at_least increase_percent 30
      then size_finding size_increase_medium medium "Package size increased between 30% and 100%."
          (floats.format_percent increase_percent)
      else []

  unfoldable pub detect_size_increase : Option ℤ → Option ℤ → List Finding
  unfolding size_increase
  detect_size_increase none previous = []
  detect_size_increase (some latest) none = []
  detect_size_increase (some latest) (some previous) =
      if leb_ℤ previous (pos 0) || leb_ℤ latest previous
      then []
      else size_increase (pos_part latest) (pos_part previous)
