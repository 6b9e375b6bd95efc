-- ===== src/Db/Queries/Listings.antt =====
-- What `list_scan_results` of app/infrastructure/db/repositories.py returns, without its join and its sort.
pub mod Findings
use mathlib.Core.Path.{fun_ext}
use std.Path.{subst}
use npm_sentinel.Base.{
  String, ◌≡◌, refl, Bool, true, false, ◌&&◌, ◌||◌, Option, none, some, arith, is_empty, str_eq, ℕ,
  ltb, ◌==◌, if◌then◌else◌,
}
use npm_sentinel.Db.Models.{Db, ScanStatus, PackageModel, ScanResultModel, FindingModel}
use npm_sentinel.Db.Table.{find_row, Unique}
use npm_sentinel.Db.Select.Like.{ilike}
use npm_sentinel.Db.Select.Order.{Apart-of_Unique}
use npm_sentinel.Db.Select.Joins.{
  attach, wanted, read, join-eq-attach, Unique-attach, and_attached, find_row-attach,
}
use npm_sentinel.Db.Select.Listing.{Ranked, Ranked-page}
use npm_sentinel.Db.Session.{has_package_id, has_scan_id}
use npm_sentinel.Db.Reads.{
  Pagination, ScanResultFilters, FindingFilters, ScanResultRead, FindingRead, if_given,
}
use npm_sentinel.Db.Queries.{
  status_value, like_pattern, started_after, to_scan_result_read, apply_scan_filters,
  list_scan_results, created_after, to_finding_read, finding_condition, list_findings,
}

-- A filter that is none or empty wants every row.
abbrev pub wants : Option String → String → Bool
wants none actual = true
wants (some text) actual = is_empty text || str_eq actual text

abbrev pub wants_like : Option String → String → Bool
wants_like none actual = true
wants_like (some text) actual = is_empty text || ilike actual (like_pattern text)

-- Of two rows with a time and a key, the one of the later time comes first, and at the same time that of the greater
-- key.
abbrev pub newer : ℕ → ℕ → ℕ → ℕ → Bool
newer time key other_time other_key =
    if time == other_time then ltb other_key key else ltb other_time time

-- The texts that a status is asked for by, and read as.
abbrev pub status_text : ScanStatus → String
status_text ScanStatus.queued = "queued"
status_text ScanStatus.running = "running"
status_text ScanStatus.completed = "completed"
status_text ScanStatus.failed = "failed"

abbrev pub package_of : Db → ScanResultModel → Option PackageModel
package_of db r = find_row (has_package_id r.package_id) db.packages

-- The scan has a package, and is what each of the three filters asks for.
abbrev pub scan_wanted : ScanResultFilters → ScanResultModel × PackageModel → Bool
scan_wanted filters (r, p) =
    wants_like filters.package_name p.name
    && (wants filters.status (status_text r.status) && wants filters.risk_level r.risk_level)

-- What is read of a scan, with the name of its package.
abbrev pub scan_row : ScanResultModel × PackageModel → ScanResultRead
scan_row (r, p) = record {
  id = r.id;
  package_id = r.package_id;
  package_name = p.name;
  latest_version = r.latest_version;
  previous_version = r.previous_version;
  status = status_text r.status;
  score = r.score;
  risk_level = r.risk_level;
  error_message = r.error_message;
  started_at = r.started_at;
  finished_at = r.finished_at;
  created_at = r.created_at;
}

status_value-eq : (s : ScanStatus) → status_value s ≡ status_text s
unfolding status_value
status_value-eq ScanStatus.queued = refl
status_value-eq ScanStatus.running = refl
status_value-eq ScanStatus.completed = refl
status_value-eq ScanStatus.failed = refl

to_scan_result_read-eq : (x : ScanResultModel × PackageModel) → to_scan_result_read x ≡ scan_row x
unfolding to_scan_result_read
to_scan_result_read-eq (r, p) = rw (status_value-eq r.status) refl

scan_newer : (a b : ScanResultModel) → started_after a b ≡ newer a.started_at a.id b.started_at b.id
scan_newer a b = ground arith

pub if_given-wants :
    (o : Option String) (actual : String) → if_given o (λ text. str_eq actual text) ≡ wants o actual
if_given-wants none actual = refl
if_given-wants (some String.[]) actual = refl
if_given-wants (some (String.◌∷◌ c s)) actual = refl

pub if_given-like :
    (o : Option String) (actual : String)
    → if_given o (λ text. ilike actual (like_pattern text)) ≡ wants_like o actual
if_given-like none actual = refl
if_given-like (some String.[]) actual = refl
if_given-like (some (String.◌∷◌ c s)) actual = refl

pub and_rotate : (a b c : Bool) → (a && (b && c)) ≡ (c && (a && b))
and_rotate a b c = ground arith

pub started_after_asym :
    (a b : ScanResultModel) → started_after a b ≡ true → started_after b a ≡ false
started_after_asym a b h = ground arith

pub started_after_trans :
    (a b c : ScanResultModel)
    → started_after a b ≡ true
    → started_after b c ≡ true
    → started_after a c ≡ true
started_after_trans a b c h k = ground arith

pub started_after_separates :
    (a b : ScanResultModel) → started_after a b ≡ false → started_after b a ≡ false → a.id ≡ b.id
started_after_separates a b h k = ground arith

apply_scan_filters-eq :
    (filters : ScanResultFilters) (x : ScanResultModel × PackageModel)
    → apply_scan_filters filters x ≡ scan_wanted filters x
unfolding apply_scan_filters
apply_scan_filters-eq filters (r, p) =
    rw
      (
        status_value-eq r.status,
        if_given-wants filters.status (status_text r.status),
        if_given-wants filters.risk_level r.risk_level,
        if_given-like filters.package_name p.name,
      )
      (and_rotate (wants filters.status (status_text r.status))
        (wants filters.risk_level r.risk_level) (wants_like filters.package_name p.name))

scans_by_query :
    (filters : ScanResultFilters) (pagination : Pagination) (db : Db)
    → Unique (λ p. p.id) db.packages
    → Unique (λ r. r.id) db.scan_results
    → Ranked started_after
        (wanted (package_of db) (scan_wanted filters))
        (read (package_of db) to_scan_result_read)
        pagination.limit
        pagination.offset
        db.scan_results
        (list_scan_results filters pagination db)
unfolding list_scan_results
scans_by_query filters pagination db u v =
    rw
      (
        join-eq-attach (λ p. p.id) (λ r. r.package_id) db.scan_results db.packages u,
        fun_ext (apply_scan_filters-eq filters),
      )
      (Ranked-page started_after started_after_asym started_after_trans (package_of db)
        (scan_wanted filters) to_scan_result_read pagination.limit pagination.offset db.scan_results
        (Apart-of_Unique started_after (λ r. r.id) started_after_separates db.scan_results v))

-- If packages have different keys and scans have different keys: the total is the number of scans that have a
-- package and are what the filters ask for; the page is as long as the limit and these allow; and such a scan stands
-- on the page, each field as it is stored and with its package's name, at the number of such scans that started after it, or at the same time with
-- a greater key, less the offset, if that place is on the page.
pub list_scan_results-Ranked :
    (filters : ScanResultFilters) (pagination : Pagination) (db : Db)
    → Unique (λ p. p.id) db.packages
    → Unique (λ r. r.id) db.scan_results
    → Ranked
        (λ a b. newer a.started_at a.id b.started_at b.id)
        (wanted (package_of db) (scan_wanted filters))
        (read (package_of db) scan_row)
        pagination.limit
        pagination.offset
        db.scan_results
        (list_scan_results filters pagination db)
list_scan_results-Ranked filters pagination db u v =
    subst
      (λ (view : ScanResultModel × PackageModel → ScanResultRead).
        Ranked (λ a b. newer a.started_at a.id b.started_at b.id)
          (wanted (package_of db) (scan_wanted filters)) (read (package_of db) view)
          pagination.limit pagination.offset db.scan_results
          (list_scan_results filters pagination db))
      (fun_ext to_scan_result_read-eq)
      (subst
        (λ (before : ScanResultModel → ScanResultModel → Bool).
          Ranked before (wanted (package_of db) (scan_wanted filters))
            (read (package_of db) to_scan_result_read) pagination.limit pagination.offset
            db.scan_results (list_scan_results filters pagination db))
        (fun_ext (λ (a : ScanResultModel). fun_ext (scan_newer a)))
        (scans_by_query filters pagination db u v))
