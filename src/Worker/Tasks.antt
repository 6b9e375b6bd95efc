-- ===== src/Worker/Tasks.antt =====
-- app/worker/tasks.py: a task around a use case, with the queue's job marked before and after it.
pub mod Retries
pub mod Scan
pub mod Batch
pub mod Outcome
pub mod Jobs
pub mod Aside
use npm_sentinel.Base.{
  ℕ, String, Bool, not, ◌&&◌, Option, none, some, List, [], ◌∷◌, ltb, if◌then◌else◌, is_empty,
}
use npm_sentinel.Core.Exceptions.{
  ExceptionClass, npm_package_not_found_error, npm_registry_timeout_error,
  npm_registry_malformed_response_error, tarball_download_error, tarball_size_limit_exceeded_error,
  tarball_integrity_error, tarball_extract_error, scanner_limit_exceeded_error, is_instance_of_any,
  Exception, Result, ok, err,
}
use npm_sentinel.Db.Models.{Db}
use npm_sentinel.Db.Session.{Repo}
use npm_sentinel.Db.Jobs.{
  create_queue_job, mark_queue_job_running, mark_queue_job_completed, mark_queue_job_failed,
}
use npm_sentinel.Db.Monad.{◌>>◌, on_value_error}
use npm_sentinel.Db.UnitOfWork.{transact}
use npm_sentinel.UseCases.ScanPackage.Run.{and_then}

-- The decorator's `autoretry_for` and `dont_autoretry_for`.
abbrev pub autoretry_for : List ExceptionClass
autoretry_for = npm_registry_timeout_error ∷ tarball_download_error ∷ []

abbrev pub dont_autoretry_for : List ExceptionClass
dont_autoretry_for =
    npm_package_not_found_error ∷ npm_registry_malformed_response_error
    ∷ scanner_limit_exceeded_error ∷ tarball_extract_error ∷ tarball_integrity_error
    ∷ tarball_size_limit_exceeded_error ∷ []

abbrev pub max_retries : ℕ
max_retries = 3

-- Whether the queue runs a task again that failed after `retries` retries: for an exception of the first list that is
-- none of the second, while the retries are not used up.
unfoldable pub is_retried : ℕ → ExceptionClass → Bool
unfolding is_instance_of_any
is_retried retries c =
    ltb retries max_retries
    && (not (is_instance_of_any dont_autoretry_for c) && is_instance_of_any autoretry_for c)

-- `_mark_queue_job_running` and `_mark_batch_job_running`
unfoldable pub mark_running : ℕ → String → String → Option String → String → Repo (Unit {0})
mark_running now task_id job_type package_name reason db =
    on_value_error (mark_queue_job_running now task_id db) (
      (create_queue_job now task_id job_type package_name reason
          >> mark_queue_job_running now task_id)
        db)

-- `task_id or getattr(self.request, "id", None) or uuid4().hex`
abbrev pub or_text : Option String → String → String
or_text none t = t
or_text (some s) t = if is_empty s then t else s

abbrev pub queue_task_id : Option String → Option String → String → String
queue_task_id task_id request_id fresh = or_text task_id (or_text request_id fresh)

-- `str(exc) or exc.__class__.__name__`
abbrev pub message_or_class : (ExceptionClass → String) → Exception → String
message_or_class class_name e = if is_empty e.message then class_name e.class else e.message

-- The exception of the use case is raised again, unless marking the job raises one.
abbrev pub raise_again : {A : Type 0} → Exception → Result (Unit {0}) × Db → Result A × Db
raise_again e (ok _, db) = (err e, db)
raise_again e (err f, db) = (err f, db)

module _ {A : Type 0} (class_name : ExceptionClass → String) (ended_at : ℕ) (task_id : String) where
  unfoldable pub after_use_case : Result A × Db → Result A × Db
  after_use_case (ok a, db) =
      and_then (transact (mark_queue_job_completed ended_at task_id) db) λ _ db1. (ok a, db1)
  after_use_case (err e, db) =
      raise_again e
        (transact (mark_queue_job_failed ended_at task_id (message_or_class class_name e)) db)

  -- The body of `scan_package` and of `enqueue_top_packages`, around their use case.
  unfoldable pub run_task :
      ℕ → String → Option String → String → (Db → Result A × Db) → Db → Result A × Db
  run_task started_at job_type package_name reason use_case db =
      and_then (transact (mark_running started_at task_id job_type package_name reason) db)
        λ _ db1. after_use_case (use_case db1)
