-- ===== src/Db/Queries/Packages.antt =====
-- The queries of app/infrastructure/db/repositories.py on packages and on the versions of one.
pub mod Recency
pub mod Listed
pub mod Details
pub mod Names
pub mod Versions
pub mod Stored
mod Tests
use npm_sentinel.Base.{
  ℕ, String, Bool, true, false, not, ◌&&◌, ◌||◌, Option, none, some, List, [], ◌∷◌, map, ltb, ◌==◌,
  if◌then◌else◌, is_empty, str_eq, any,
}
use npm_sentinel.Db.Models.{Db, PackageModel, PackageVersionModel, ScanResultModel, FindingModel}
use npm_sentinel.Db.Table.{select_rows, some_row, find_row}
use npm_sentinel.Db.Select.{count_rows, order_by, page, join, outer_join}
use npm_sentinel.Db.Select.Like.{ilike}
use npm_sentinel.Db.Session.{has_scan_id}
use npm_sentinel.Db.Packages.{get_by_name}
use npm_sentinel.Db.Reads.{
  Pagination, PackageListFilters, PackageListItem, PackageDetail, PackageVersionRead,
  ScanResultRead, if_given,
}
use npm_sentinel.Db.Queries.{like_pattern, latest_scan_subquery, to_scan_result_read}

-- `DESC NULLS LAST`, and `tie` where both are none or the same.
abbrev pub newest_first : Option ℕ → Option ℕ → Bool → Bool
newest_first none none tie = tie
newest_first none (some b) tie = false
newest_first (some a) none tie = true
newest_first (some a) (some b) tie = ltb b a || a == b && tie

-- `ORDER BY last_scanned_at DESC NULLS LAST, name ASC`, for the order of texts that the database has.
abbrev pub scanned_after : (String → String → Bool) → PackageModel → PackageModel → Bool
scanned_after text_before a b =
    newest_first a.last_scanned_at b.last_scanned_at (text_before a.name b.name)

abbrev pub of_package : ℕ → ScanResultModel → Bool
of_package package_id r = r.package_id == package_id

-- `if filters.risk_level`: the level that is asked for, if it is.
abbrev pub given : Option String → Option String
given none = none
given (some text) = if is_empty text then none else some text

abbrev pub has_level : String → ScanResultModel → Bool
has_level level r = str_eq r.risk_level level

abbrev pub level_of : Option ScanResultModel → Option String
level_of none = none
level_of (some r) = some r.risk_level

unfoldable pub to_list_item : PackageModel × Option ScanResultModel → PackageListItem
to_list_item (p, latest) = record {
  id = p.id;
  name = p.name;
  latest_scanned_version = p.latest_scanned_version;
  last_scanned_at = p.last_scanned_at;
  latest_scan_risk_level = level_of latest;
}

-- The join with the latest completed scans, and the condition on their level.
unfoldable pub with_level :
    Option String
    → Db
    → List (PackageModel × Option ScanResultModel)
    → List (PackageModel × Option ScanResultModel)
unfolding join select_rows latest_scan_subquery
with_level none db rows = rows
with_level (some level) db rows =
    map (λ x. x.0)
      (select_rows (λ x. has_level level x.1)
        (join (λ row. of_package row.0.id) rows (latest_scan_subquery true db)))

-- The condition on the level in the count: `id IN (SELECT package_id …)`.
unfoldable pub counts_level : Option String → Db → PackageModel → Bool
unfolding some_row latest_scan_subquery
counts_level none db p = true
counts_level (some level) db p =
    some_row (of_package p.id) (select_rows (has_level level) (latest_scan_subquery true db))

abbrev pub has_name_like : PackageListFilters → PackageModel → Bool
has_name_like filters p = if_given filters.name_query (λ text. ilike p.name (like_pattern text))

unfoldable pub list_packages :
    (String → String → Bool) → PackageListFilters → Pagination → Db → List PackageListItem × ℕ
unfolding outer_join latest_scan_subquery with_level counts_level select_rows count_rows order_by
    page to_list_item ilike
list_packages text_before filters pagination db =
    let level = given filters.risk_level in
    let rows = outer_join (λ p. of_package p.id) db.packages (latest_scan_subquery false db) in
    (
      map to_list_item (
          page pagination.limit pagination.offset (
            order_by (λ a b. scanned_after text_before a.0 b.0)
              (select_rows (λ row. has_name_like filters row.0) (with_level level db rows)))),
      count_rows (λ p. has_name_like filters p && counts_level level db p) db.packages,
    )

abbrev pub version_of : ℕ → PackageVersionModel → Bool
version_of package_id v = v.package_id == package_id

-- `one_or_none`, of a query that gives one row at most.
abbrev pub first_row : List ScanResultModel → Option ScanResultModel
first_row [] = none
first_row (r ∷ rs) = some r

abbrev pub read_latest : PackageModel → Option ScanResultModel → Option ScanResultRead
read_latest p none = none
read_latest p (some r) = some (to_scan_result_read (r, p))

unfoldable pub detail_of : PackageModel → Db → PackageDetail
unfolding join select_rows count_rows latest_scan_subquery to_scan_result_read
detail_of p db = record {
  id = p.id;
  name = p.name;
  latest_scanned_version = p.latest_scanned_version;
  last_scanned_at = p.last_scanned_at;
  latest_scan =
      read_latest p (first_row (select_rows (of_package p.id) (latest_scan_subquery false db)));
  versions_count = count_rows (version_of p.id) db.versions;
  findings_count =
      count_rows (λ x. of_package p.id x.1)
        (join (λ f. has_scan_id f.scan_result_id) db.findings db.scan_results);
}

-- `if package is None: return None`
abbrev pub detail_if_any : Option PackageModel → Db → Option PackageDetail
detail_if_any none db = none
detail_if_any (some p) db = some (detail_of p db)

unfoldable pub get_package_detail : String → Db → Option PackageDetail
unfolding get_by_name detail_of find_row
get_package_detail name db = detail_if_any (get_by_name name db) db

-- `ORDER BY published_at DESC NULLS LAST, id DESC`
abbrev pub published_after : PackageVersionModel → PackageVersionModel → Bool
published_after a b = newest_first a.metadata.published_at b.metadata.published_at (ltb b.id a.id)

unfoldable pub to_version_read : PackageModel → PackageVersionModel → PackageVersionRead
to_version_read p v = record {
  id = v.id;
  package_id = v.package_id;
  package_name = p.name;
  version = v.version;
  metadata = v.metadata;
  created_at = v.created_at;
}

-- `if package is None: return [], 0`
abbrev pub versions_of :
    Option PackageModel → Pagination → List PackageVersionModel → List PackageVersionRead × ℕ
versions_of none pagination rows = ([], 0)
versions_of (some p) pagination rows = (
  map (to_version_read p) (
      page pagination.limit pagination.offset
        (order_by published_after (select_rows (version_of p.id) rows))),
  count_rows (version_of p.id) rows,
)

unfoldable pub list_package_versions : String → Pagination → Db → List PackageVersionRead × ℕ
unfolding get_by_name find_row select_rows count_rows order_by page to_version_read
list_package_versions package_name pagination db =
    versions_of (get_by_name package_name db) pagination db.versions
