-- ===== src/Worker/Tasks/Outcome.antt =====
-- How a task of app/worker/tasks.py ends, and what its job says then.
use npm_sentinel.Base.{ℕ, String, ◌≡◌, refl, ◌∙◌, ◌⊎◌, inl, inr, Option, none, some}
use npm_sentinel.Core.Exceptions.{ExceptionClass, Result, ok, err}
use npm_sentinel.Db.Models.{Db, QueueJobModel, QueueJobStatus, may_end}
use npm_sentinel.Db.Holds.{Holds}
use npm_sentinel.Db.Effects.{update_jobs-hit}
use npm_sentinel.Db.Jobs.{get_job, mark_queue_job_completed, mark_queue_job_failed}
use npm_sentinel.Db.UnitOfWork.{transact, commit_or_rollback}
use npm_sentinel.UseCases.ScanPackage.Run.{and_then}
use npm_sentinel.Worker.Tasks.{mark_running, message_or_class, after_use_case, run_task}
use npm_sentinel.Worker.Tasks.Jobs.{Startable, Open, Open-mark_running}

abbrev complete_job : ℕ → QueueJobModel → QueueJobModel
complete_job ended_at j = record j {
  status = QueueJobStatus.completed;
  error_message = none;
  finished_at = some ended_at;
}

abbrev fail_job : ℕ → String → QueueJobModel → QueueJobModel
fail_job ended_at message j = record j {
  status = QueueJobStatus.failed;
  error_message = some message;
  finished_at = some ended_at;
}

module _ {A : Type 0} (class_name : ExceptionClass → String) (ended_at : ℕ) (task_id : String) where
  -- A return: the job is completed. A raise: nothing is changed, or the job is failed with the message.
  abbrev pub JobEnded : Db → Result A × Db → Type 0
  JobEnded before (ok _, after) =
      (j : QueueJobModel) × (get_job task_id after ≡ some j) × (j.status ≡ QueueJobStatus.completed)
  JobEnded before (err e, after) =
      (after ≡ before)
      ⊎ ((j : QueueJobModel) × (get_job task_id after ≡ some j)
          × (j.status ≡ QueueJobStatus.failed)
          × (j.error_message ≡ some (message_or_class class_name e)))

  -- The same, where the job was open.
  abbrev pub JobClosed : Result A × Db → Type 0
  JobClosed (ok _, after) =
      (j : QueueJobModel) × (get_job task_id after ≡ some j) × (j.status ≡ QueueJobStatus.completed)
  JobClosed (err e, after) =
      (j : QueueJobModel) × (get_job task_id after ≡ some j)
      × (j.status ≡ QueueJobStatus.failed)
      × (j.error_message ≡ some (message_or_class class_name e))

  JobEnded-of_JobClosed : (before : Db) (r : Result A × Db) → JobClosed r → JobEnded before r
  JobEnded-of_JobClosed before (ok a, db) closed = closed
  JobEnded-of_JobClosed before (err e, db) closed = inr closed

  pub JobClosed-after_use_case :
      (r : Result A × Db)
      → Open task_id r.1
      → JobClosed (after_use_case class_name ended_at task_id r)
  unfolding after_use_case and_then transact commit_or_rollback mark_queue_job_completed
      mark_queue_job_failed
  JobClosed-after_use_case (ok a, db) (j, there, may) =
      let (step, found) =
        update_jobs-hit may_end task_id (complete_job ended_at) db {j = j} (λ a. refl) there may in
      rw step (complete_job ended_at j, found, refl)
  JobClosed-after_use_case (err e, db) (j, there, may) =
      let (step, found) =
        update_jobs-hit may_end task_id (fail_job ended_at (message_or_class class_name e)) db
          {j = j} (λ a. refl) there may in
      rw step (fail_job ended_at (message_or_class class_name e) j, found, refl, refl)

  JobEnded-started :
      (use_case : Db → Result A × Db)
      → ((db : Db) → get_job task_id (use_case db).1 ≡ get_job task_id db)
      → (before : Db) (r : Result (Unit {0} × Db)) → Holds (λ _ after. Open task_id after) r
      → JobEnded before (
          and_then
            (commit_or_rollback before r)
            λ _ db1. after_use_case class_name ended_at task_id (use_case db1))
  unfolding and_then commit_or_rollback
  JobEnded-started use_case keeps before (ok (_, db)) (j, there, may) =
      JobEnded-of_JobClosed before (after_use_case class_name ended_at task_id (use_case db))
        (JobClosed-after_use_case (use_case db) (j, keeps db ∙ there, may))
  JobEnded-started use_case keeps before (err e) h = inl refl

  -- If the use case leaves the task's job alone, and the task has no job or one that is not completed, then
  -- the task returns with its job completed; or it raises, with every table as it was, or with its job failed
  -- and the message of the exception, or the name of its class where the message is empty, in it.
  pub run_task-JobEnded :
      (started_at : ℕ) (job_type : String) (package_name : Option String) (reason : String)
      (use_case : Db → Result A × Db) (db : Db)
      → ((d : Db) → get_job task_id (use_case d).1 ≡ get_job task_id d)
      → Startable task_id db
      → JobEnded db
          (run_task class_name ended_at task_id started_at job_type package_name reason use_case db)
  unfolding run_task transact
  run_task-JobEnded started_at job_type package_name reason use_case db keeps startable =
      JobEnded-started use_case keeps db
        (mark_running started_at task_id job_type package_name reason db)
        (Open-mark_running started_at task_id job_type package_name reason db startable)
