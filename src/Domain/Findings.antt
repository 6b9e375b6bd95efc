-- ===== src/Domain/Findings.antt =====
-- app/domain/findings.py
use npm_sentinel.Base.{String, Option}
use npm_sentinel.Domain.Enums.{FindingType, FindingSeverity}

pub record Finding : Type 0 where
  pub finding_type : FindingType
  pub severity : FindingSeverity
  pub category : String
  pub description : String
  pub file_path : Option String
  pub evidence : Option String
