-- ===== src/Db/Queries.antt =====
-- The queries at the end of app/infrastructure/db/repositories.py. A condition that both the listing and its count
-- have is written once.
mod Tests
pub mod Packages
pub mod Windows
pub mod Listings
use npm_sentinel.Base.{
  ℕ, suc, String, Bool, true, false, not, ◌&&◌, ◌||◌, Option, none, some, List, map, ltb, ◌==◌,
  if◌then◌else◌, str_eq, append,
}
use npm_sentinel.Db.Models.{
  Db, PackageModel, PackageVersionModel, ScanResultModel, ScanStatus, FindingModel,
}
use npm_sentinel.Db.Table.{select_rows}
use npm_sentinel.Db.Select.{count_rows, order_by, page, join}
use npm_sentinel.Db.Select.Like.{ilike}
use npm_sentinel.Db.Session.{has_package_id, has_scan_id}
use npm_sentinel.Db.Packages.{get_by_name}
use npm_sentinel.Db.Reads.{
  Pagination, ScanResultFilters, FindingFilters, ScanResultRead, FindingRead, PackageVersionRead,
  if_given,
}

-- The texts of the column.
unfoldable pub status_value : ScanStatus → String
status_value ScanStatus.queued = "queued"
status_value ScanStatus.running = "running"
status_value ScanStatus.completed = "completed"
status_value ScanStatus.failed = "failed"

-- `f"%{text}%"`
abbrev pub like_pattern : String → String
like_pattern text = append "%" (append text "%")

-- `ORDER BY started_at DESC, id DESC`
abbrev pub started_after : ScanResultModel → ScanResultModel → Bool
started_after a b = ltb b.started_at a.started_at || a.started_at == b.started_at && ltb b.id a.id

-- `row_number() OVER (PARTITION BY package_id ORDER BY started_at DESC, id DESC)`
unfoldable pub row_number : List ScanResultModel → ScanResultModel → ℕ
unfolding count_rows
row_number ranked r =
    suc (count_rows (λ s. s.package_id == r.package_id && started_after s r) ranked)

abbrev pub is_completed : ScanStatus → Bool
is_completed ScanStatus.completed = true
is_completed _ = false

-- `_latest_scan_subquery`
unfoldable pub latest_scan_subquery : Bool → Db → List ScanResultModel
unfolding row_number select_rows
latest_scan_subquery completed_only db =
    let ranked = select_rows (λ r. not completed_only || is_completed r.status) db.scan_results in
    select_rows (λ r. row_number ranked r == 1) ranked

unfoldable pub to_scan_result_read : ScanResultModel × PackageModel → ScanResultRead
unfolding status_value
to_scan_result_read (r, p) = record {
  id = r.id;
  package_id = r.package_id;
  package_name = p.name;
  latest_version = r.latest_version;
  previous_version = r.previous_version;
  status = status_value r.status;
  score = r.score;
  risk_level = r.risk_level;
  error_message = r.error_message;
  started_at = r.started_at;
  finished_at = r.finished_at;
  created_at = r.created_at;
}

-- `_apply_scan_filters`
unfoldable pub apply_scan_filters : ScanResultFilters → ScanResultModel × PackageModel → Bool
unfolding ilike status_value
apply_scan_filters filters (r, p) =
    if_given filters.status (λ status. str_eq (status_value r.status) status)
    && (if_given filters.risk_level (λ level. str_eq r.risk_level level)
        && if_given filters.package_name (λ name. ilike p.name (like_pattern name)))

unfoldable pub list_scan_results : ScanResultFilters → Pagination → Db → List ScanResultRead × ℕ
unfolding join select_rows count_rows order_by page apply_scan_filters to_scan_result_read
list_scan_results filters pagination db =
    let rows = join (λ r. has_package_id r.package_id) db.scan_results db.packages in
    (
      map to_scan_result_read (
          page pagination.limit pagination.offset (
            order_by (λ a b. started_after a.0 b.0)
              (select_rows (apply_scan_filters filters) rows))),
      count_rows (apply_scan_filters filters) rows,
    )

-- `ORDER BY created_at DESC, id DESC`
abbrev pub created_after : FindingModel → FindingModel → Bool
created_after a b = ltb b.created_at a.created_at || a.created_at == b.created_at && ltb b.id a.id

unfoldable pub to_finding_read : FindingModel × (ScanResultModel × PackageModel) → FindingRead
to_finding_read (f, (r, p)) = record {
  id = f.id;
  scan_result_id = f.scan_result_id;
  package_id = r.package_id;
  package_name = p.name;
  finding = f.finding;
  created_at = f.created_at;
}

unfoldable pub finding_condition :
    FindingFilters → FindingModel × (ScanResultModel × PackageModel) → Bool
unfolding ilike
finding_condition filters (f, (r, p)) =
    if_given filters.severity (λ severity. str_eq f.finding.severity severity)
    && (if_given filters.finding_type (λ type. str_eq f.finding.finding_type type)
        && if_given filters.package_name (λ name. ilike p.name (like_pattern name)))

-- The two joins, the second one first.
unfoldable pub list_findings : FindingFilters → Pagination → Db → List FindingRead × ℕ
unfolding join select_rows count_rows order_by page finding_condition to_finding_read
list_findings filters pagination db =
    let scans = join (λ r. has_package_id r.package_id) db.scan_results db.packages in
    let rows = join (λ f x. has_scan_id f.scan_result_id x.0) db.findings scans in
    (
      map to_finding_read (
          page pagination.limit pagination.offset (
            order_by (λ a b. created_after a.0 b.0)
              (select_rows (finding_condition filters) rows))),
      count_rows (finding_condition filters) rows,
    )
