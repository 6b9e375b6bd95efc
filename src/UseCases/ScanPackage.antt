-- ===== src/UseCases/ScanPackage.antt =====
-- app/application/use_cases/scan_package.py: one scan, from the claim of its row to its end. The records of
pub mod Run
pub mod Messages
pub mod Jobs
pub mod Outcome
pub mod Claimed
pub mod Steps
pub mod Transactions
-- app/application/ports are what the use case calls, and what it is told of a package by the registry.
use npm_sentinel.Base.{ℕ, String, Bool, Option, none, some, List, map}
use npm_sentinel.Core.Exceptions.{Result}
use npm_sentinel.Base.Int.{ℤ}
use npm_sentinel.Base.Dict.{Dict}
use npm_sentinel.Base.Json.{Json}
use npm_sentinel.Domain.Enums.{type_value, severity_value}
use npm_sentinel.Domain.Findings.{Finding}
use npm_sentinel.Domain.Scoring.{calculate_score, calculate_risk_level, finding_types}
use npm_sentinel.Db.Models.{ScanResultModel, ScanStatus, PackageVersionMetadata, FindingCreate}
use npm_sentinel.Db.Session.{Repo}
use npm_sentinel.Db.Packages.{upsert_package, upsert_package_version, mark_package_scanned}
use npm_sentinel.Db.Scans.{
  create_scan_result, claim_next_queued_scan, set_scan_versions, replace_findings,
  mark_scan_completed,
}
use npm_sentinel.Db.Monad.{pure, ◌>>=◌, ◌>>◌}

-- `PackageVersionMetadata` of app/application/ports/package_registry.py
pub record RegistryVersionMetadata : Type 0 where
  pub package_name : String
  pub version : String
  pub published_at : Option ℕ
  pub tarball_url : String
  pub integrity : Option String
  pub unpacked_size : Option ℤ
  pub file_count : Option ℤ
  pub package_json : Dict Json
  pub dependencies : Dict Json
  pub scripts : Dict Json

pub record PackageRegistryMetadata : Type 0 where
  pub package_name : String
  pub latest_version : RegistryVersionMetadata
  pub previous_version : Option RegistryVersionMetadata

-- The ports, over the archives that are downloaded and the trees that are extracted from them.
pub record Ports (Archive Root : Type 0) : Type 1 where
  pub fetch_metadata : String → Result PackageRegistryMetadata
  pub download : String → Option String → Result Archive
  pub extract : Archive → Result Root
  pub analyze :
      Root
      → Dict Json
      → Option ℤ
      → Option Root
      → Option (Dict Json)
      → Option ℤ
      → Result (List Finding)

-- What the database supplies to one scan: the time of each transaction, the keys of new rows, and the rows
-- that other transactions hold locked.
pub record Clock : Type 0 where
  pub claimed_at : ℕ
  pub versions_at : ℕ
  pub completed_at : ℕ
  pub failed_at : ℕ
  pub new_package_id : ℕ
  pub new_scan_id : ℕ
  pub new_latest_id : ℕ
  pub new_previous_id : ℕ
  pub new_finding_id : ℕ → ℕ
  pub locked : ℕ → Bool

-- `_to_repository_metadata`
abbrev pub to_repository_metadata : RegistryVersionMetadata → PackageVersionMetadata
to_repository_metadata metadata = record {
  published_at = metadata.published_at;
  tarball_url = some metadata.tarball_url;
  integrity = metadata.integrity;
  unpacked_size = metadata.unpacked_size;
  file_count = metadata.file_count;
  package_json = metadata.package_json;
  dependencies = metadata.dependencies;
  scripts = metadata.scripts;
}

-- `_to_finding_create`
unfoldable pub to_finding_create : Finding → FindingCreate
to_finding_create finding = record {
  finding_type = type_value finding.finding_type;
  severity = severity_value finding.severity;
  category = finding.category;
  description = finding.description;
  file_path = finding.file_path;
  evidence = finding.evidence;
}

-- The scan that is claimed, or a new one.
unfoldable pub claim_or_create : Clock → ℕ → Option ScanResultModel → Repo ScanResultModel
claim_or_create clock package_id none =
    create_scan_result clock.claimed_at clock.new_scan_id package_id none none ScanStatus.running
claim_or_create clock package_id (some queued_scan) = pure queued_scan

-- The first transaction: the package's key and the scan's.
unfoldable pub begin_scan : Clock → String → Repo (ℕ × ℕ)
begin_scan clock package_name = do
  package_row ← upsert_package clock.claimed_at clock.new_package_id package_name
  queued_scan ← claim_next_queued_scan clock.locked clock.claimed_at package_row.id
  scan ← claim_or_create clock package_row.id queued_scan
  pure (package_row.id, scan.id)

abbrev pub version_of : Option RegistryVersionMetadata → Option String
version_of none = none
version_of (some metadata) = some metadata.version

unfoldable pub upsert_previous : Clock → ℕ → Option RegistryVersionMetadata → Repo (Unit {0})
upsert_previous clock package_id none = pure tt
upsert_previous clock package_id (some previous) = do
  upsert_package_version clock.versions_at clock.new_previous_id package_id previous.version
      (to_repository_metadata previous)
  pure tt

-- The second transaction.
unfoldable pub record_versions : Clock → ℕ → ℕ → PackageRegistryMetadata → Repo (Unit {0})
record_versions clock package_id scan_result_id metadata = do
  upsert_package_version clock.versions_at clock.new_latest_id package_id
      metadata.latest_version.version (to_repository_metadata metadata.latest_version)
  upsert_previous clock package_id metadata.previous_version
  set_scan_versions scan_result_id metadata.latest_version.version
      (version_of metadata.previous_version)

-- The third transaction.
unfoldable pub complete_scan : Clock → ℕ → ℕ → String → List Finding → Repo (Unit {0})
complete_scan clock package_id scan_result_id latest_version findings = do
  let score = calculate_score (finding_types findings)
  replace_findings clock.completed_at clock.new_finding_id scan_result_id
      (map to_finding_create findings)
  mark_scan_completed clock.completed_at scan_result_id score (calculate_risk_level score)
  mark_package_scanned clock.completed_at package_id latest_version
