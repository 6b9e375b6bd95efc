-- ===== src/Worker/Tasks/Aside.antt =====
-- What a task leaves of the tables beside the jobs of the queue.
use std.Path.{subst}
use npm_sentinel.Base.{
  ℕ, String, ◌≡◌, refl, sym, ap, ◌∙◌, ◌⊎◌, inl, inr, Bool, ◌&&◌, Option, none, some, List,
  Bool-cases, one_of,
}
use npm_sentinel.Core.Exceptions.{ExceptionClass, Result, ok, err, value_error, is_instance}
use npm_sentinel.Db.Models.{Db, QueueJobModel, QueueJobStatus, may_start, may_end}
use npm_sentinel.Db.Table.{some_row, update_where}
use npm_sentinel.Db.Session.{fits, fits_opt}
use npm_sentinel.Db.Holds.{Holds, Holds-check, Holds-with_result, Holds-weaken, Holds-both}
use npm_sentinel.Db.Monad.{with_result, on_value_error}
use npm_sentinel.Db.Effects.{update_jobs-hit}
use npm_sentinel.Db.Jobs.{
  get_job, has_task_id, job_in, job_types, create_queue_job, update_jobs, mark_queue_job_running,
  mark_queue_job_completed, mark_queue_job_failed,
}
use npm_sentinel.Db.UnitOfWork.{transact, commit_or_rollback}
use npm_sentinel.UseCases.ScanPackage.Run.{and_then}
use npm_sentinel.Worker.Tasks.{mark_running, message_or_class, after_use_case, run_task}
use npm_sentinel.Worker.Tasks.Jobs.{Startable, Open, Open-mark_running}

-- The tables are the same, the jobs of the queue aside.
abbrev pub JobsAside : {A : Type 0} → Db → A → Db → Type 0
JobsAside before _ after =
    (jobs : List QueueJobModel) × (after ≡ record before { queue_jobs = jobs })

JobsAside-then :
    {A B : Type 0} (before : Db) (f : A → Db → Result (B × Db)) (r : Result (A × Db))
    → Holds (JobsAside before) r
    → ((a : A) (db : Db) → Holds (JobsAside db) (f a db))
    → Holds (JobsAside before) (with_result f r)
JobsAside-then before f r h next =
    Holds-with_result (JobsAside before) (JobsAside before) f r h λ a db (jobs, same).
      Holds-weaken (JobsAside db) (JobsAside before) (f a db) (next a db)
        λ b after (jobs_after, same_after).
          (jobs_after, same_after ∙ ap (λ (d : Db). record d { queue_jobs = jobs_after }) same)

pub JobsAside-create_queue_job :
    (now : ℕ) (t job_type : String) (name : Option String) (reason : String) (db : Db)
    → Holds (JobsAside db) (create_queue_job now t job_type name reason db)
unfolding create_queue_job
JobsAside-create_queue_job now t job_type name reason db =
    Holds-check (JobsAside db)
      (fits 64 t && (one_of job_types job_type && (fits_opt 255 name && fits 64 reason))) _
      λ _. elim (Bool-cases (some_row (has_task_id t) db.queue_jobs)) [
        | inl there ↦ rw (there, create_queue_job) (db.queue_jobs, refl)
        | inr new ↦ rw (new, create_queue_job) (_, refl)
      ]

JobsAside-update_jobs :
    (allowed : QueueJobStatus → Bool) (t : String) (f : QueueJobModel → QueueJobModel) (db : Db)
    → Holds (JobsAside db) (update_jobs allowed t f db)
unfolding update_jobs
JobsAside-update_jobs allowed t f db =
    elim (Bool-cases (some_row (job_in allowed t) db.queue_jobs)) [
      | inl hit ↦ rw (hit, update_jobs) (update_where (job_in allowed t) f db.queue_jobs, refl)
      | inr miss ↦ elim (Bool-cases (some_row (has_task_id t) db.queue_jobs)) [
        | inl there ↦ rw (miss, there, update_jobs) (db.queue_jobs, refl)
        | inr gone ↦ rw (miss, gone, update_jobs) tt
      ]
    ]

JobsAside-on_value_error :
    {A : Type 0} (before : Db) (r handled : Result (A × Db))
    → Holds (JobsAside before) r
    → Holds (JobsAside before) handled
    → Holds (JobsAside before) (on_value_error r handled)
JobsAside-on_value_error before (ok (a, db)) handled h k = h
JobsAside-on_value_error before (err e) handled h k =
    elim (Bool-cases (is_instance e.class value_error)) [
      | inl caught ↦ rw (caught, on_value_error) k
      | inr other ↦ rw (other, on_value_error) tt
    ]

pub JobsAside-mark_running :
    (now : ℕ) (t job_type : String) (name : Option String) (reason : String) (db : Db)
    → Holds (JobsAside db) (mark_running now t job_type name reason db)
unfolding mark_running mark_queue_job_running
JobsAside-mark_running now t job_type name reason db =
    JobsAside-on_value_error db (mark_queue_job_running now t db) _
      (JobsAside-update_jobs may_start t _ db)
      (JobsAside-then db _ (create_queue_job now t job_type name reason db)
        (JobsAside-create_queue_job now t job_type name reason db)
        λ _ db1. JobsAside-update_jobs may_start t _ db1)

-- A return of the use case or its exception, with what it has left; or the tables are unchanged.
abbrev pub LeftBy : {A : Type 0} → (Result A → Db → Type 0) → Db → Result A × Db → Type 0
LeftBy Q before (ok a, after) = Q (ok a) after
LeftBy Q before (err e, after) = (after ≡ before) ⊎ Q (err e) after

module _ {A : Type 0} (class_name : ExceptionClass → String) (ended_at : ℕ) (task_id : String)
    (Q : Result A → Db → Type 0)
    (aside : (r : Result A) (db : Db) (jobs : List QueueJobModel)
      → Q r db
      → Q r (record db { queue_jobs = jobs })) where
  LeftBy-of_left : (before : Db) (r : Result A × Db) → Q r.0 r.1 → LeftBy Q before r
  LeftBy-of_left before (ok a, db) left = left
  LeftBy-of_left before (err e, db) left = inr left

  pub Left-after_use_case :
      (r : Result A × Db)
      → Open task_id r.1
      → Q r.0 r.1
      → Q
          (after_use_case class_name ended_at task_id r).0
          (after_use_case class_name ended_at task_id r).1
  unfolding after_use_case and_then transact commit_or_rollback mark_queue_job_completed
      mark_queue_job_failed
  Left-after_use_case (ok a, db) (j, there, may) left =
      let (step, _) =
        update_jobs-hit may_end task_id
          (λ (k : QueueJobModel). record k {
            status = QueueJobStatus.completed;
            error_message = none;
            finished_at = some ended_at;
          })
          db {j = j} (λ a. refl) there may in
      rw step (aside (ok a) db _ left)
  Left-after_use_case (err e, db) (j, there, may) left =
      let (step, _) =
        update_jobs-hit may_end task_id
          (λ (k : QueueJobModel). record k {
            status = QueueJobStatus.failed;
            error_message = some (message_or_class class_name e);
            finished_at = some ended_at;
          })
          db {j = j} (λ a. refl) there may in
      rw step (aside (err e) db _ left)

  LeftBy-started :
      (use_case : Db → Result A × Db)
      → ((db : Db) → get_job task_id (use_case db).1 ≡ get_job task_id db)
      → (before : Db)
      → ((jobs : List QueueJobModel)
          → Q
              (use_case (record before { queue_jobs = jobs })).0
              (use_case (record before { queue_jobs = jobs })).1)
      → (r : Result (Unit {0} × Db))
      → Holds (λ u after. Open task_id after × JobsAside before u after) r
      → LeftBy Q before (
          and_then
            (commit_or_rollback before r)
            λ _ db1. after_use_case class_name ended_at task_id (use_case db1))
  unfolding and_then commit_or_rollback
  LeftBy-started use_case keeps before left (ok (_, db)) ((j, there, may), (jobs, same)) =
      LeftBy-of_left before (after_use_case class_name ended_at task_id (use_case db)) (
        Left-after_use_case (use_case db) (j, keeps db ∙ there, may)
          (subst (λ (d : Db). Q (use_case d).0 (use_case d).1) (sym same) (left jobs)))
  LeftBy-started use_case keeps before left (err e) h = inl refl

  -- If the use case leaves the task's job alone, and the task has no job or one that is not completed, then what the
  -- use case leaves, whatever jobs there are, is what the task leaves; or the task raises, and nothing is changed.
  pub LeftBy-run_task :
      (started_at : ℕ) (job_type : String) (package_name : Option String) (reason : String)
      (use_case : Db → Result A × Db) (db : Db)
      → ((d : Db) → get_job task_id (use_case d).1 ≡ get_job task_id d)
      → Startable task_id db
      → ((jobs : List QueueJobModel)
          → Q
              (use_case (record db { queue_jobs = jobs })).0
              (use_case (record db { queue_jobs = jobs })).1)
      → LeftBy Q db
          (run_task class_name ended_at task_id started_at job_type package_name reason use_case db)
  unfolding run_task transact
  LeftBy-run_task started_at job_type package_name reason use_case db keeps startable left =
      LeftBy-started use_case keeps db left
        (mark_running started_at task_id job_type package_name reason db)
        (Holds-both (λ _ after. Open task_id after) (JobsAside db)
          (mark_running started_at task_id job_type package_name reason db)
          (Open-mark_running started_at task_id job_type package_name reason db startable)
          (JobsAside-mark_running started_at task_id job_type package_name reason db))
