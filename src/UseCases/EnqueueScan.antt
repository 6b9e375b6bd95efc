-- ===== src/UseCases/EnqueueScan.antt =====
-- app/application/use_cases/enqueue_scan.py: a scan is recorded, then published.
pub mod Recorded
pub mod Refused
pub mod Outcome
pub mod OtherJobs
use npm_sentinel.Base.{ℕ, String, true, false, not, none, some, if◌then◌else◌, is_empty, strip}
use npm_sentinel.Core.Exceptions.{
  Exception, Result, ok, err, raise, value_error, queue_publish_error, is_instance,
}
use npm_sentinel.Db.Models.{Db, ScanResultModel, ScanStatus}
use npm_sentinel.Db.Session.{Repo}
use npm_sentinel.Db.Packages.{upsert_package}
use npm_sentinel.Db.Scans.{create_scan_result, mark_scan_failed}
use npm_sentinel.Db.Jobs.{create_queue_job, mark_queue_job_failed}
use npm_sentinel.Db.Monad.{pure, ◌>>=◌, ◌>>◌}
use npm_sentinel.Db.UnitOfWork.{transact}
use npm_sentinel.UseCases.PackageName.{is_valid_package_name}

-- `ScanJobQueue` of app/application/ports/queue.py: publishing a scan, which may raise.
pub record ScanJobQueue : Type 0 where
  pub enqueue_scan_package : String → String → String → Result (Unit {0})

-- What one call is given by its surroundings: the times of its two transactions, the keys of new rows, the
-- fresh identifier of `uuid4`.
pub record Surroundings : Type 0 where
  pub now : ℕ
  pub later : ℕ
  pub new_package_id : ℕ
  pub new_scan_id : ℕ
  pub task_id : String

-- `reason.strip() or "manual"`
unfoldable pub normalize_reason : String → String
normalize_reason reason =
    let stripped = strip reason in if is_empty stripped then "manual" else stripped

-- The first transaction.
unfoldable pub record_scan : Surroundings → String → String → Repo ScanResultModel
record_scan around name reason = do
  package_row ← upsert_package around.now around.new_package_id name
  scan ← create_scan_result around.now around.new_scan_id package_row.id none none ScanStatus.queued
  create_queue_job around.now around.task_id "scan_package" (some name) reason
  pure scan

-- The transaction after a failure to publish.
unfoldable pub record_unpublished : Surroundings → ℕ → Repo (Unit {0})
record_unpublished around scan_result_id = do
  mark_queue_job_failed around.later around.task_id "scan queue unavailable"
  mark_scan_failed around.later scan_result_id "scan queue unavailable"

-- An exception of the handler takes the place of the one that is handled.
abbrev pub raise_after : Exception → Result (Unit {0}) × Db → Result String × Db
raise_after e (ok _, db) = (err e, db)
raise_after e (err f, db) = (err f, db)

abbrev pub published : Surroundings → ℕ → Db → Result (Unit {0}) → Result String × Db
published around scan_result_id db (ok _) = (ok around.task_id, db)
published around scan_result_id db (err e) = elim (is_instance e.class queue_publish_error) [
  | true ↦ raise_after e (transact (record_unpublished around scan_result_id) db)
  | false ↦ (err e, db)
]

abbrev pub publish :
    ScanJobQueue → Surroundings → String → String → Result ScanResultModel × Db → Result String × Db
publish queue around name reason (ok scan, db) =
    published around scan.id db (queue.enqueue_scan_package name reason around.task_id)
publish queue around name reason (err e, db) = (err e, db)

-- `EnqueueScanUseCase.execute`
unfoldable pub enqueue_scan :
    ScanJobQueue → Surroundings → String → String → Db → Result String × Db
enqueue_scan queue around package_name reason db =
    let name = strip package_name in
    let why = normalize_reason reason in
    if not (is_valid_package_name name)
    then (raise value_error "invalid package name", db)
    else publish queue around name why (transact (record_scan around name why) db)
