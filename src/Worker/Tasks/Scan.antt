-- ===== src/Worker/Tasks/Scan.antt =====
-- `scan_package` of app/worker/tasks.py: a scan, in the frame of its job.
pub mod Whole
use npm_sentinel.Base.{ℕ, String, ◌≡◌, refl, ap, ◌∙◌, some}
use npm_sentinel.Core.Exceptions.{ExceptionClass, Result, ok, err}
use npm_sentinel.Db.Models.{Db}
use npm_sentinel.Db.Table.{find_row}
use npm_sentinel.Db.Jobs.{get_job, has_task_id}
use npm_sentinel.Db.Scans.{mark_scan_failed}
use npm_sentinel.Db.UnitOfWork.{transact}
use npm_sentinel.UseCases.ScanPackage.{Ports, Clock, begin_scan, record_versions, complete_scan}
use npm_sentinel.UseCases.ScanPackage.Run.{
  and_then, safe_error_message, inspect, scan_steps, on_failure, execute,
}
use npm_sentinel.UseCases.ScanPackage.Jobs.{
  SameJobs-begin_scan, SameJobs-record_versions, SameJobs-complete_scan, SameJobs-mark_scan_failed,
  SameJobs-transact,
}
use npm_sentinel.Worker.Tasks.{run_task}
use npm_sentinel.Worker.Tasks.Jobs.{Startable}
use npm_sentinel.Worker.Tasks.Outcome.{JobEnded, run_task-JobEnded}

and_then_keeps :
    {A B : Type 0} (before : Db) (r : Result A × Db) (f : A → Db → Result B × Db)
    → r.1.queue_jobs ≡ before.queue_jobs
    → ((a : A) (db : Db) → (f a db).1.queue_jobs ≡ db.queue_jobs)
    → (and_then r f).1.queue_jobs ≡ before.queue_jobs
unfolding and_then
and_then_keeps before (ok a, db) f same next = next a db ∙ same
and_then_keeps before (err e, db) f same next = same

module _ {Archive Root : Type 0} (ports : Ports Archive Root) (class_name : ExceptionClass → String)
    (clock : Clock) (package_name : String) where
  scan_steps_keeps :
      (p i : ℕ) (db : Db)
      → (scan_steps ports clock package_name p i db).1.queue_jobs ≡ db.queue_jobs
  unfolding scan_steps
  scan_steps_keeps p i db =
      and_then_keeps db (ports.fetch_metadata package_name, db) _ refl
        λ metadata db1.
          and_then_keeps db1 (transact (record_versions clock p i metadata) db1) _
            (SameJobs-transact (record_versions clock p i metadata) db1
              (SameJobs-record_versions clock p i metadata db1))
            λ _ db2.
              and_then_keeps db2 (inspect ports metadata, db2) _ refl
                λ findings db3.
                  SameJobs-transact
                    (complete_scan clock p i metadata.latest_version.version findings) db3
                    (SameJobs-complete_scan clock p i metadata.latest_version.version findings db3)

  on_failure_keeps :
      (i : ℕ) (before : Db) (r : Result (Unit {0}) × Db)
      → r.1.queue_jobs ≡ before.queue_jobs
      → (on_failure class_name clock i r).1.queue_jobs ≡ before.queue_jobs
  unfolding on_failure
  on_failure_keeps i before (ok _, db) same = same
  on_failure_keeps i before (err e, db) same =
      SameJobs-transact (mark_scan_failed clock.failed_at i (safe_error_message class_name e)) db
        (SameJobs-mark_scan_failed clock.failed_at i (safe_error_message class_name e) db)
      ∙ same

  execute_keeps :
      (db : Db) → (execute ports class_name clock package_name db).1.queue_jobs ≡ db.queue_jobs
  unfolding execute
  execute_keeps db =
      and_then_keeps db (transact (begin_scan clock package_name) db) _
        (SameJobs-transact (begin_scan clock package_name) db
          (SameJobs-begin_scan clock package_name db))
        λ keys db1.
          on_failure_keeps keys.1 db1 (scan_steps ports clock package_name keys.0 keys.1 db1)
            (scan_steps_keeps keys.0 keys.1 db1)

  pub execute-get_job :
      (t : String) (db : Db)
      → get_job t (execute ports class_name clock package_name db).1 ≡ get_job t db
  unfolding get_job
  execute-get_job t db = ap (find_row (has_task_id t)) (execute_keeps db)

  unfoldable pub scan_package : ℕ → ℕ → String → String → Db → Result (Unit {0}) × Db
  scan_package started_at ended_at task_id reason =
      run_task class_name ended_at task_id started_at "scan_package" (some package_name) reason
        (execute ports class_name clock package_name)

  -- If the task has no job or one that is not completed, then the task of a scan returns with its job
  -- completed; or it raises, with every table as it was, or with its job failed and the message in it. The
  -- scan itself never touches the job.
  pub scan_package-JobEnded :
      (started_at ended_at : ℕ) (task_id reason : String) (db : Db)
      → Startable task_id db
      → JobEnded class_name ended_at task_id db (scan_package started_at ended_at task_id reason db)
  unfolding scan_package
  scan_package-JobEnded started_at ended_at task_id reason db startable =
      run_task-JobEnded class_name ended_at task_id started_at "scan_package" (some package_name)
        reason (execute ports class_name clock package_name) db (execute-get_job task_id) startable
