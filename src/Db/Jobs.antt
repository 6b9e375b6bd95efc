-- ===== src/Db/Jobs.antt =====
-- The operations of app/infrastructure/db/repositories.py on the queue's jobs.
use npm_sentinel.Base.{
  ℕ, String, Bool, ◌&&◌, Option, none, some, List, [], ◌∷◌, ◌++◌, if◌then◌else◌, str_eq, one_of,
}
use npm_sentinel.Core.Exceptions.{value_error, ok, ◌>>◌, raise}
use npm_sentinel.Db.Models.{Db, QueueJobModel, QueueJobStatus, may_start, may_end}
use npm_sentinel.Db.Table.{find_row, update_where, some_row}
use npm_sentinel.Db.Session.{Repo, fits, fits_opt, check}

abbrev pub has_task_id : String → QueueJobModel → Bool
has_task_id t r = str_eq r.task_id t

-- `session.get(QueueJobModel, …)`
unfoldable pub get_job : String → Db → Option QueueJobModel
get_job task_id db = find_row (has_task_id task_id) db.queue_jobs

abbrev pub job_types : List String
job_types = "scan_package" ∷ "top_packages_batch" ∷ []

-- `ON CONFLICT DO NOTHING` on the task's key.
unfoldable pub create_queue_job : ℕ → String → String → Option String → String → Repo (Unit {0})
unfolding some_row one_of
create_queue_job now task_id job_type package_name reason db = do
  check (
      fits 64 task_id
      && (one_of job_types job_type && (fits_opt 255 package_name && fits 64 reason)))
  let created : QueueJobModel = record {
    task_id = task_id;
    job_type = job_type;
    package_name = package_name;
    reason = reason;
    status = QueueJobStatus.queued;
    error_message = none;
    started_at = none;
    finished_at = none;
    created_at = now;
  }
  if some_row (has_task_id task_id) db.queue_jobs
      then ok (tt, db)
      else ok (tt, record db { queue_jobs = db.queue_jobs ++ created ∷ [] })

abbrev pub job_in : (QueueJobStatus → Bool) → String → QueueJobModel → Bool
job_in allowed task_id r = str_eq r.task_id task_id && allowed r.status

unfoldable pub update_jobs :
    (QueueJobStatus → Bool) → String → (QueueJobModel → QueueJobModel) → Repo (Unit {0})
unfolding some_row update_where
update_jobs allowed task_id f db =
    if some_row (job_in allowed task_id) db.queue_jobs
    then ok (tt, record db { queue_jobs = update_where (job_in allowed task_id) f db.queue_jobs })
    else if some_row (has_task_id task_id) db.queue_jobs
    then ok (tt, db)
    else raise value_error "queue job not found"

unfoldable pub mark_queue_job_running : ℕ → String → Repo (Unit {0})
unfolding update_jobs
mark_queue_job_running now task_id = update_jobs may_start task_id λ j. record j {
  status = QueueJobStatus.running;
  error_message = none;
  started_at = some now;
  finished_at = none;
}

unfoldable pub mark_queue_job_completed : ℕ → String → Repo (Unit {0})
unfolding update_jobs
mark_queue_job_completed now task_id = update_jobs may_end task_id λ j. record j {
  status = QueueJobStatus.completed;
  error_message = none;
  finished_at = some now;
}

unfoldable pub mark_queue_job_failed : ℕ → String → String → Repo (Unit {0})
unfolding update_jobs
mark_queue_job_failed now task_id error_message = update_jobs may_end task_id λ j. record j {
  status = QueueJobStatus.failed;
  error_message = some error_message;
  finished_at = some now;
}
