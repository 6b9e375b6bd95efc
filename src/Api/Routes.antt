-- ===== src/Api/Routes.antt =====
-- app/api/routes.py. An offset below 0 is refused by its type.
pub mod Enqueue
pub mod Batches
pub mod Listed
use npm_sentinel.Base.{
  ℕ, zero, String, Bool, true, false, not, ◌&&◌, ◌||◌, ◌==◌, Option, none, some, List, [], ◌∷◌, leb,
  strip, is_empty, str_eq, if◌then◌else◌, one_of,
}
use npm_sentinel.Core.Exceptions.{
  Exception, Result, ok, err, value_error, queue_publish_error, is_instance,
}
use npm_sentinel.Db.Models.{Db}
use npm_sentinel.Db.Scans.{risk_levels, severities}
use npm_sentinel.Db.Reads.{
  PackageListItem, PackageVersionRead, ScanResultRead, FindingRead, PackageDetail,
}
use npm_sentinel.UseCases.EnqueueScan.{ScanJobQueue, Surroundings, enqueue_scan}
use npm_sentinel.UseCases.TopPackagesBatch.{EnqueueTopPackagesBatchResult, enqueue_batch}
use npm_sentinel.UseCases.Lists.{
  list_findings_use_case, list_packages_use_case, list_scans_use_case,
  list_package_versions_use_case, get_package_details_use_case,
}
use npm_sentinel.Api.Schemas.{
  Http, responded, http_exception, unprocessable, unhandled, EnqueueScanResponse, ScanBatchRequest,
  ScanBatchResponse, ListResponse, accepts_batch, accepts_limit, accepts_literal,
}

-- `reason.strip() or default`
unfoldable pub stripped_or : String → String → String
stripped_or default reason =
    let stripped = strip reason in if is_empty stripped then default else stripped

abbrev pub enqueue_failure : Exception → Http EnqueueScanResponse
enqueue_failure e =
    if is_instance e.class value_error
    then http_exception 400 e.message
    else if is_instance e.class queue_publish_error
    then http_exception 503 "scan queue unavailable"
    else unhandled e

abbrev pub enqueue_answer : String → String → Result String × Db → Http EnqueueScanResponse × Db
enqueue_answer package_name reason (ok _, db) =
    (responded 202 (record { status = "queued"; package_name = package_name; reason = reason }), db)
enqueue_answer package_name reason (err e, db) = (enqueue_failure e, db)

-- `POST /scans/{package_name}`
unfoldable pub enqueue_scan_route :
    ScanJobQueue → Surroundings → String → String → Db → Http EnqueueScanResponse × Db
unfolding stripped_or
enqueue_scan_route queue around package_name reason db =
    let normalized_package_name = strip package_name in
    let normalized_reason = stripped_or "manual" reason in
    enqueue_answer normalized_package_name normalized_reason
      (enqueue_scan queue around normalized_package_name normalized_reason db)

abbrev pub batch_answer :
    ScanBatchRequest
    → String
    → Result EnqueueTopPackagesBatchResult × Db
    → Http ScanBatchResponse × Db
batch_answer payload reason (ok r, db) = (
  responded 202 (record {
    status = "queued";
    source = payload.source;
    requested = r.requested;
    enqueued = r.enqueued;
    skipped = r.skipped;
    reason = reason;
  }),
  db,
)
batch_answer payload reason (err e, db) = (
  if is_instance e.class queue_publish_error
      then http_exception 503 "scan queue unavailable"
      else unhandled e,
  db,
)

-- The body of `enqueue_scan_batch`; `load` is what the source of the list returns for a limit.
unfoldable pub enqueue_scan_batch :
    ScanJobQueue
    → (ℕ → Surroundings)
    → (ℕ → Result (List String))
    → ScanBatchRequest
    → Db
    → Http ScanBatchResponse × Db
unfolding stripped_or
enqueue_scan_batch queue arounds load payload db =
    if not (str_eq payload.source "top_packages")
    then (http_exception 400 "unsupported scan source", db)
    else (let normalized_reason = stripped_or "manual_batch" payload.reason in
        batch_answer payload normalized_reason
          (enqueue_batch queue arounds normalized_reason (load payload.limit) db))

-- `POST /scan-batches`: FastAPI checks the body first.
unfoldable pub scan_batches_route :
    ScanJobQueue
    → (ℕ → Surroundings)
    → (ℕ → Result (List String))
    → ScanBatchRequest
    → Db
    → Http ScanBatchResponse × Db
unfolding accepts_batch
scan_batches_route queue arounds load payload db =
    if accepts_batch payload
    then enqueue_scan_batch queue arounds load payload db
    else (unprocessable, db)

-- `limit or get_settings().top_package_limit`
abbrev pub limit_or : ℕ → Option ℕ → ℕ
limit_or default none = default
limit_or default (some n) = if n == 0 then default else n

abbrev pub accepts_optional_limit : Option ℕ → Bool
accepts_optional_limit none = true
accepts_optional_limit (some n) = leb 1 n && leb n 1000

-- `POST /scans/top-packages`: the payload is built in the route, so what its class refuses is raised there.
unfoldable pub enqueue_top_packages_compat :
    ScanJobQueue
    → (ℕ → Surroundings)
    → (ℕ → Result (List String))
    → ℕ
    → Option ℕ
    → String
    → Db
    → Http ScanBatchResponse × Db
unfolding accepts_batch
enqueue_top_packages_compat queue arounds load top_package_limit limit reason db =
    let payload : ScanBatchRequest = record {
      source = "top_packages";
      limit = limit_or top_package_limit limit;
      reason = reason;
    } in
    if not (accepts_optional_limit limit)
    then (unprocessable, db)
    else if accepts_batch payload
    then enqueue_scan_batch queue arounds load payload db
    else (unhandled (record { class = value_error; message = "validation error" }), db)

abbrev pub listed : {A : Type 0} → ℕ → ℕ → List A × ℕ → Http (ListResponse A)
listed limit offset (items, total) =
    responded 200 (record { items = items; total = total; limit = limit; offset = offset })

-- `GET /packages`
unfoldable pub list_packages_route :
    (String → String → Bool)
    → ℕ
    → ℕ
    → Option String
    → Option String
    → Db
    → Http (ListResponse PackageListItem)
unfolding one_of list_packages_use_case
list_packages_route text_before limit offset risk_level name db =
    if accepts_limit limit && accepts_literal risk_levels risk_level
    then listed limit offset (list_packages_use_case text_before limit offset risk_level name db)
    else unprocessable

-- `if total == 0: raise HTTPException(404)`
abbrev pub found_versions :
    ℕ → ℕ → List PackageVersionRead × ℕ → Http (ListResponse PackageVersionRead)
found_versions limit offset (items, total) =
    if total == 0
    then http_exception 404 "package not found"
    else listed limit offset (items, total)

-- `GET /package-versions/{package_name}`
unfoldable pub list_package_versions_route :
    String → ℕ → ℕ → Db → Http (ListResponse PackageVersionRead)
unfolding list_package_versions_use_case
list_package_versions_route package_name limit offset db =
    if accepts_limit limit
    then found_versions limit offset
        (list_package_versions_use_case (strip package_name) limit offset db)
    else unprocessable

abbrev pub found_detail : Option PackageDetail → Http PackageDetail
found_detail none = http_exception 404 "package not found"
found_detail (some detail) = responded 200 detail

-- `GET /packages/{package_name}`
unfoldable pub get_package_detail_route : String → Db → Http PackageDetail
unfolding get_package_details_use_case
get_package_detail_route package_name db =
    found_detail (get_package_details_use_case (strip package_name) db)

abbrev pub statuses : List String
statuses = "queued" ∷ "running" ∷ "completed" ∷ "failed" ∷ []

-- `GET /scans`
unfoldable pub list_scans_route :
    ℕ → ℕ → Option String → Option String → Option String → Db → Http (ListResponse ScanResultRead)
unfolding one_of list_scans_use_case
list_scans_route limit offset status risk_level package_name db =
    if accepts_limit limit
      && (accepts_literal statuses status && accepts_literal risk_levels risk_level)
    then listed limit offset (list_scans_use_case limit offset status risk_level package_name db)
    else unprocessable

-- `GET /findings`
unfoldable pub list_findings_route :
    ℕ → ℕ → Option String → Option String → Option String → Db → Http (ListResponse FindingRead)
unfolding one_of list_findings_use_case
list_findings_route limit offset severity type_filter package_name db =
    if accepts_limit limit && accepts_literal severities severity
    then listed limit offset
        (list_findings_use_case limit offset severity type_filter package_name db)
    else unprocessable
