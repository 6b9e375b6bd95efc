-- ===== src/Db/Reads.antt =====
-- app/application/ports/package_repository.py: the filters and the page that a listing is asked for, and what it reads.
use npm_sentinel.Base.{ℕ, String, Bool, true, Option, none, some, is_empty, if◌then◌else◌}
use npm_sentinel.Base.Int.{ℤ}
use npm_sentinel.Db.Models.{PackageVersionMetadata, FindingCreate}

pub record Pagination : Type 0 where
  pub limit : ℕ
  pub offset : ℕ

pub record PackageListFilters : Type 0 where
  pub risk_level : Option String
  pub name_query : Option String

pub record ScanResultFilters : Type 0 where
  pub status : Option String
  pub risk_level : Option String
  pub package_name : Option String

pub record FindingFilters : Type 0 where
  pub severity : Option String
  pub finding_type : Option String
  pub package_name : Option String

pub record PackageListItem : Type 0 where
  pub id : ℕ
  pub name : String
  pub latest_scanned_version : Option String
  pub last_scanned_at : Option ℕ
  pub latest_scan_risk_level : Option String

pub record ScanResultRead : Type 0 where
  pub id : ℕ
  pub package_id : ℕ
  pub package_name : String
  pub latest_version : Option String
  pub previous_version : Option String
  pub status : String
  pub score : Option ℤ
  pub risk_level : String
  pub error_message : Option String
  pub started_at : ℕ
  pub finished_at : Option ℕ
  pub created_at : ℕ

-- `finding` are the fields that the finding was created with.
pub record FindingRead : Type 0 where
  pub id : ℕ
  pub scan_result_id : ℕ
  pub package_id : ℕ
  pub package_name : String
  pub finding : FindingCreate
  pub created_at : ℕ

pub record PackageDetail : Type 0 where
  pub id : ℕ
  pub name : String
  pub latest_scanned_version : Option String
  pub last_scanned_at : Option ℕ
  pub latest_scan : Option ScanResultRead
  pub versions_count : ℕ
  pub findings_count : ℕ

-- `metadata` are the fields that the version was stored with.
pub record PackageVersionRead : Type 0 where
  pub id : ℕ
  pub package_id : ℕ
  pub package_name : String
  pub version : String
  pub metadata : PackageVersionMetadata
  pub created_at : ℕ

-- `if filter: … WHERE`: a filter that is none or empty is no condition.
abbrev pub if_given : Option String → (String → Bool) → Bool
if_given none p = true
if_given (some text) p = if is_empty text then true else p text
