-- ===== src/UseCases/EnqueueScan/Recorded.antt =====
-- What `EnqueueScanUseCase.execute` leaves in the tables, whichever way it ends.
use npm_sentinel.Base.{String, ◌≡◌, refl, true, false, none, some}
use npm_sentinel.Core.Exceptions.{ok}
use npm_sentinel.Db.Models.{
  Db, PackageModel, ScanResultModel, ScanStatus, QueueJobModel, QueueJobStatus, may_end,
}
use npm_sentinel.Db.Table.{some_row, update_where}
use npm_sentinel.Db.Holds.{Holds, Holds-with_result}
use npm_sentinel.Db.Effects.{
  Upserted, Upserted-upsert_package, Created, Created-create_scan_result, Queued, new_job,
  Queued-create_queue_job, update_jobs-hit, update_scans-idle,
}
use npm_sentinel.Db.Packages.{get_by_name, upsert_package}
use npm_sentinel.Db.Scans.{get_scan, create_scan_result, mark_scan_failed, running_scan}
use npm_sentinel.Db.Jobs.{get_job, create_queue_job, mark_queue_job_failed, has_task_id, job_in}
use npm_sentinel.Db.UnitOfWork.{commit_or_rollback, transact}
use npm_sentinel.UseCases.EnqueueScan.{Surroundings, record_scan, record_unpublished}

-- The package is there, with a scan under the new key that is queued and not running, and the job.
abbrev pub Recorded : Surroundings → String → QueueJobModel → Db → Type 0
Recorded around name job db =
    (p : PackageModel) × (s : ScanResultModel) × (get_by_name name db ≡ some p)
    × (s.package_id ≡ p.id)
    × (s.status ≡ ScanStatus.queued)
    × (get_scan around.new_scan_id db ≡ some s)
    × (some_row (running_scan around.new_scan_id) db.scan_results ≡ false)
    × (get_job around.task_id db ≡ some job)

abbrev pub queued_job : Surroundings → String → String → QueueJobModel
queued_job around name why = new_job around.now around.task_id "scan_package" (some name) why

-- The job of a scan that could not be published.
abbrev pub unpublished_job : Surroundings → String → String → QueueJobModel
unpublished_job around name why = record (queued_job around name why) {
  status = QueueJobStatus.failed;
  error_message = some "scan queue unavailable";
  finished_at = some around.later;
}

-- What the first transaction returns and leaves.
abbrev pub Stored : Surroundings → String → String → ScanResultModel → Db → Type 0
Stored around name why s db =
    (s.id ≡ around.new_scan_id) × Recorded around name (queued_job around name why) db

pub Stored-record_scan :
    (around : Surroundings) (name why : String) (db : Db)
    → some_row (has_task_id around.task_id) db.queue_jobs ≡ false
    → Holds (Stored around name why) (record_scan around name why db)
unfolding record_scan get_by_name get_scan
Stored-record_scan around name why db new =
    Holds-with_result (Upserted name db) (Stored around name why) _
      (upsert_package around.now around.new_package_id name db)
      (Upserted-upsert_package around.now around.new_package_id name db)
      λ p db1 (named, scans1, jobs1).
        Holds-with_result (Created around.new_scan_id p.id ScanStatus.queued db1)
          (Stored around name why) _
          (create_scan_result around.now around.new_scan_id p.id none none ScanStatus.queued db1)
          (Created-create_scan_result around.now around.new_scan_id p.id none none ScanStatus.queued
            db1)
          λ s db2 (key, of_package, waits, there, idle, packages2, jobs2).
            Holds-with_result (Queued (queued_job around name why) db2) (Stored around name why) _
              (create_queue_job around.now around.task_id "scan_package" (some name) why db2)
              (Queued-create_queue_job around.now around.task_id "scan_package" (some name) why db2
                (rw (jobs2, jobs1) new))
              λ _ db3 (job, packages3, scans3). (
                key,
                (
                  p,
                  s,
                  rw (packages3, packages2) named,
                  of_package,
                  waits,
                  rw scans3 there,
                  rw scans3 idle,
                  job,
                ),
              )

-- What that transaction does to the job, and what it would do to a scan that runs.
abbrev fail_job : Surroundings → QueueJobModel → QueueJobModel
fail_job around j = record j {
  status = QueueJobStatus.failed;
  error_message = some "scan queue unavailable";
  finished_at = some around.later;
}

abbrev fail_scan : Surroundings → ScanResultModel → ScanResultModel
fail_scan around s = record s {
  status = ScanStatus.failed;
  error_message = some "scan queue unavailable";
  finished_at = some around.later;
}

-- The transaction after a failure to publish returns: the job is failed, and the scan waits still.
pub Recorded-record_unpublished :
    (around : Surroundings) (name why : String) (db : Db)
    → Recorded around name (queued_job around name why) db
    → (after : Db) × (transact (record_unpublished around around.new_scan_id) db ≡ (ok tt, after))
      × Recorded around name (unpublished_job around name why) after
unfolding record_unpublished transact mark_queue_job_failed mark_scan_failed get_by_name get_scan
    commit_or_rollback
Recorded-record_unpublished around name why db (p, s, named, of_package, waits, there, idle, job) =
    let after : Db = record db {
      queue_jobs = update_where (job_in may_end around.task_id) (fail_job around) db.queue_jobs;
    } in
    let (step, found) =
      update_jobs-hit may_end around.task_id (fail_job around) db {j = queued_job around name why}
        (λ a. refl) job refl in
    let rest =
      update_scans-idle around.new_scan_id true (fail_scan around) after {s = s} there idle in
    (
      after,
      rw (step, rest, mark_queue_job_failed, mark_scan_failed) refl,
      (p, s, named, of_package, waits, there, idle, found),
    )
