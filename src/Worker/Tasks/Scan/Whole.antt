-- ===== src/Worker/Tasks/Scan/Whole.antt =====
-- The job of a scan and the scan itself, at the end of the task.
use npm_sentinel.Base.{ℕ, String, ap, ◌⊎◌, inl, inr, some, List}
use npm_sentinel.Core.Exceptions.{ExceptionClass, Result, ok, err}
use npm_sentinel.Db.Models.{Db, QueueJobModel}
use npm_sentinel.Db.Lifecycle.{UniqueScans}
use npm_sentinel.Db.Packages.{get_by_name}
use npm_sentinel.Db.Scans.{get_scan}
use npm_sentinel.UseCases.ScanPackage.{Ports, Clock}
use npm_sentinel.UseCases.ScanPackage.Claimed.{Taken}
use npm_sentinel.UseCases.ScanPackage.Transactions.{Failed}
use npm_sentinel.UseCases.ScanPackage.Outcome.{Done, Ended, execute-Ended}
use npm_sentinel.UseCases.ScanPackage.Run.{safe_error_message, execute}
use npm_sentinel.Worker.Tasks.Jobs.{Startable}
use npm_sentinel.Worker.Tasks.Outcome.{JobEnded}
use npm_sentinel.Worker.Tasks.Aside.{JobsAside, LeftBy, LeftBy-run_task}
use npm_sentinel.Worker.Tasks.Scan.{scan_package, scan_package-JobEnded, execute-get_job}

module _ {Archive Root : Type 0} (ports : Ports Archive Root) (class_name : ExceptionClass → String)
    (clock : Clock) (name : String) where
  -- A return: the scan that was to be taken is completed. An exception: no scan was taken, and only jobs are changed,
  -- or that scan is failed with the message.
  abbrev pub ScanEnded : Db → Result (Unit {0}) → Db → Type 0
  ScanEnded before (ok _) after =
      (p : ℕ) × (i : ℕ) × Taken clock name before p i × Done ports class_name clock name p i after
  ScanEnded before (err e) after =
      JobsAside before e after
      ⊎ ((p : ℕ) × (i : ℕ) × Taken clock name before p i
          × Failed p i (safe_error_message class_name e) after)

  ScanEnded-aside :
      (before : Db) (r : Result (Unit {0})) (db : Db) (jobs : List QueueJobModel)
      → ScanEnded before r db
      → ScanEnded before r (record db { queue_jobs = jobs })
  unfolding get_scan
  ScanEnded-aside before (ok _) db jobs ended = ended
  ScanEnded-aside before (err e) db jobs (inl (old, same)) =
      inl (jobs, ap (λ (d : Db). record d { queue_jobs = jobs }) same)
  ScanEnded-aside before (err e) db jobs (inr failed) = inr failed

  ScanEnded-of_Ended :
      (before : Db) (jobs : List QueueJobModel) (r : Result (Unit {0}) × Db)
      → Ended ports class_name clock name (record before { queue_jobs = jobs }) r
      → ScanEnded before r.0 r.1
  unfolding get_by_name get_scan
  ScanEnded-of_Ended before jobs (ok _, after) ended = ended
  ScanEnded-of_Ended before jobs (err e, after) (inl same) = inl (jobs, same)
  ScanEnded-of_Ended before jobs (err e, after) (inr failed) = inr failed

  -- If no two scan results have the same key, and the task has no job or one that is not completed, then: if the task
  -- returns, its job is completed, and the oldest waiting scan of the package, or a new one where none waits, is
  -- completed as the registry and the analysis imply. If it raises, then every table is as it was, or its job is
  -- failed with the message of the exception; and every table is as it was, or nothing but jobs is changed, or that
  -- scan is failed with the safe message.
  pub scan_package-ScanEnded :
      (started_at ended_at : ℕ) (task_id reason : String) (db : Db)
      → UniqueScans db
      → Startable task_id db
      → JobEnded class_name ended_at task_id db
          (scan_package ports class_name clock name started_at ended_at task_id reason db)
        × LeftBy
            (ScanEnded db)
            db
            (scan_package ports class_name clock name started_at ended_at task_id reason db)
  unfolding scan_package
  scan_package-ScanEnded started_at ended_at task_id reason db u startable = (
    scan_package-JobEnded ports class_name clock name started_at ended_at task_id reason db
        startable,
    LeftBy-run_task class_name ended_at task_id (ScanEnded db) (ScanEnded-aside db) started_at
        "scan_package" (some name) reason (execute ports class_name clock name) db
        (execute-get_job ports class_name clock name task_id) startable
        λ jobs.
          ScanEnded-of_Ended db jobs
            (execute ports class_name clock name (record db { queue_jobs = jobs }))
            (execute-Ended ports class_name clock name (record db { queue_jobs = jobs }) u),
  )
