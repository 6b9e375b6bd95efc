-- ===== src/UseCases/EnqueueScan/Outcome.antt =====
-- What `EnqueueScanUseCase.execute` returns or raises, and what it leaves in the tables then.
use npm_sentinel.UseCases.EnqueueScan.Refused.{record_scan-RaisesOnly}
use npm_sentinel.Db.Raises.{RaisesOnly}
use npm_sentinel.Base.{
  String, ◌≡◌, refl, ◌⊎◌, inl, inr, true, false, if◌then◌else◌, Bool-cases, strip,
}
use npm_sentinel.Core.Exceptions.{
  Result, ok, err, queue_publish_error, is_instance, Exception, value_error, database_error,
}
use npm_sentinel.Db.Models.{Db, ScanResultModel}
use npm_sentinel.Db.Table.{some_row}
use npm_sentinel.Db.Holds.{Holds}
use npm_sentinel.Db.Jobs.{has_task_id}
use npm_sentinel.Db.UnitOfWork.{commit_or_rollback, transact}
use npm_sentinel.UseCases.PackageName.{is_valid_package_name}
use npm_sentinel.UseCases.EnqueueScan.{
  ScanJobQueue, Surroundings, normalize_reason, record_scan, published, publish, enqueue_scan,
}
use npm_sentinel.UseCases.EnqueueScan.Recorded.{
  Recorded, queued_job, unpublished_job, Stored, Stored-record_scan, Recorded-record_unpublished,
}

-- A name that is no package name, or a value that the database refuses.
abbrev pub Refused : String → Exception → Type 0
Refused name e =
    ((is_valid_package_name name ≡ false)
      × (e ≡ record { class = value_error; message = "invalid package name" }))
    ⊎ ((is_valid_package_name name ≡ true) × (e.class ≡ database_error))

-- A return: the scan is recorded and published. A raise: nothing is changed, or the queue raised; then the
-- job is recorded as failed where the queue raised a `QueuePublishError`, and as queued otherwise.
abbrev pub Outcome :
    ScanJobQueue → Surroundings → String → String → Db → Result String × Db → Type 0
Outcome queue around name why before (ok task_id, after) =
    (task_id ≡ around.task_id)
    × (is_valid_package_name name ≡ true)
    × (queue.enqueue_scan_package name why around.task_id ≡ ok tt)
    × Recorded around name (queued_job around name why) after
Outcome queue around name why before (err e, after) =
    ((after ≡ before) × Refused name e)
    ⊎ ((queue.enqueue_scan_package name why around.task_id ≡ err e)
        × Recorded around name
            (if is_instance e.class queue_publish_error
              then unpublished_job around name why
              else queued_job around name why)
            after)

Outcome-published :
    (queue : ScanJobQueue) (around : Surroundings) (name why : String) (before db : Db)
    → is_valid_package_name name ≡ true
    → Recorded around name (queued_job around name why) db
    → (q : Result (Unit {0})) → queue.enqueue_scan_package name why around.task_id ≡ q
    → Outcome queue around name why before (published around around.new_scan_id db q)
Outcome-published queue around name why before db valid stored (ok _) e = (refl, valid, e, stored)
Outcome-published queue around name why before db valid stored (err x) e =
    elim (Bool-cases (is_instance x.class queue_publish_error)) [
      | inl lost ↦
          let (after, step, unpublished) = Recorded-record_unpublished around name why db stored in
          rw (lost, published, step) (inr (e, rw lost unpublished))
      | inr other ↦ rw (other, published) (inr (e, rw other stored))
    ]

Outcome-publish :
    (queue : ScanJobQueue) (around : Surroundings) (name why : String) (before : Db)
    → is_valid_package_name name ≡ true
    → (r : Result (ScanResultModel × Db)) → Holds (Stored around name why) r
    → RaisesOnly database_error r
    → Outcome queue around name why before
        (publish queue around name why (commit_or_rollback before r))
unfolding commit_or_rollback
Outcome-publish queue around name why before valid (ok (s, db)) (key, stored) h = rw key (
    Outcome-published queue around name why before db valid stored
      (queue.enqueue_scan_package name why around.task_id) refl)
Outcome-publish queue around name why before valid (err e) h raised =
    inl (refl, inr (valid, raised))

-- If the fresh identifier of the task is not that of a job already there, then: if the use case returns, it
-- returns that identifier, the stripped name is a package name, the queue took the scan, and the tables hold
-- the package under that name, a queued scan of it and a queued job. If it raises, either nothing is changed, and
-- the name is no package name or the database refused a value, or the exception is that of the queue, the scan is recorded, and it waits as queued; its job is then failed
-- if the exception is a `QueuePublishError`, and queued otherwise.
pub enqueue_scan-Outcome :
    (queue : ScanJobQueue) (around : Surroundings) (package_name reason : String) (db : Db)
    → some_row (has_task_id around.task_id) db.queue_jobs ≡ false
    → Outcome queue around
        (strip package_name)
        (normalize_reason reason)
        db
        (enqueue_scan queue around package_name reason db)
unfolding enqueue_scan transact
enqueue_scan-Outcome queue around package_name reason db new =
    elim (Bool-cases (is_valid_package_name (strip package_name))) [
      | inl valid ↦
          rw (valid, enqueue_scan)
            (Outcome-publish queue around (strip package_name) (normalize_reason reason) db valid
              (record_scan around (strip package_name) (normalize_reason reason) db)
              (Stored-record_scan around (strip package_name) (normalize_reason reason) db new)
              (record_scan-RaisesOnly around (strip package_name) (normalize_reason reason) db))
      | inr invalid ↦ rw (invalid, enqueue_scan) (inl (refl, inl (invalid, refl)))
    ]
