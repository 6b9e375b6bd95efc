-- ===== src/Worker/Tasks/Jobs.antt =====
-- The job of the queue while its task runs, and when it has ended.
use npm_sentinel.Base.{
  ℕ, String, ◌≡◌, refl, ◌⊎◌, inl, inr, Bool, true, false, Option, none, some, arith, Bool-cases,
  and_true, str_eq,
}
use npm_sentinel.Core.Exceptions.{raise, is_instance, same_class, index, ok, value_error}
use npm_sentinel.Db.Models.{Db, QueueJobModel, QueueJobStatus, may_start, may_end}
use npm_sentinel.Db.Table.{
  some_row, update_where, some_row-eq-find_row, find_row-update_where, find_row-meets,
  some_row_of_find_row,
}
use npm_sentinel.Db.Table.Order.{some_row-weaken}
use npm_sentinel.Db.Holds.{Holds, Holds-with_result}
use npm_sentinel.Db.Effects.{Queued, new_job, Queued-create_queue_job, update_jobs-hit}
use npm_sentinel.Db.Jobs.{
  get_job, has_task_id, job_in, create_queue_job, update_jobs, mark_queue_job_running,
}
use npm_sentinel.Worker.Tasks.{mark_running}

abbrev pub is_completed : QueueJobStatus → Bool
is_completed QueueJobStatus.completed = true
is_completed _ = false

-- The task has no job yet, or one that is not completed.
abbrev pub Startable : String → Db → Type 0
Startable t db =
    (get_job t db ≡ none)
    ⊎ ((j : QueueJobModel) × (get_job t db ≡ some j) × (is_completed j.status ≡ false))

-- The task has a job that may still end.
abbrev pub Open : String → Db → Type 0
Open t db = (j : QueueJobModel) × (get_job t db ≡ some j) × (may_end j.status ≡ true)

abbrev start_job : ℕ → QueueJobModel → QueueJobModel
start_job now j = record j {
  status = QueueJobStatus.running;
  error_message = none;
  started_at = some now;
  finished_at = none;
}

-- Marking the job as running returns, and leaves it open.
abbrev pub Marks : ℕ → String → Db → Type 0
Marks now t db = (after : Db) × (mark_queue_job_running now t db ≡ ok (tt, after)) × Open t after

pub Marks-queued :
    (now : ℕ) (t : String) (db : Db) {j : QueueJobModel}
    → get_job t db ≡ some j
    → may_start j.status ≡ true
    → Marks now t db
unfolding mark_queue_job_running
Marks-queued now t db {j} there may =
    let (step, found) =
      update_jobs-hit may_start t (start_job now) db {j = j} (λ a. refl) there may in
    (_, step, (start_job now j, found, refl))

-- A job that runs already stays as it is.
Marks-running :
    (now : ℕ) (t : String) (db : Db) {j : QueueJobModel}
    → get_job t db ≡ some j
    → may_start j.status ≡ false
    → may_end j.status ≡ true
    → Marks now t db
unfolding mark_queue_job_running update_jobs get_job
Marks-running now t db {j} there idle may =
    let kept =
      find_row-update_where (has_task_id t) (job_in may_start t) (start_job now) db.queue_jobs
        (λ a. refl) in
    let apart : job_in may_start t j ≡ false = ground (arith, idle) in
    let named = find_row-meets (has_task_id t) {r = j} db.queue_jobs there in
    elim (Bool-cases (some_row (job_in may_start t) db.queue_jobs)) [
      | inl hit ↦ (
        record db { queue_jobs = update_where (job_in may_start t) (start_job now) db.queue_jobs },
        rw (hit, update_jobs) refl,
        (j, rw (kept, there, apart) refl, may),
      )
      | inr miss ↦ (
        db,
        rw
            (
              miss,
              some_row_of_find_row (has_task_id t) (has_task_id t) {r = j} db.queue_jobs there
                  named,
              update_jobs,
            )
            refl,
        (j, there, may),
      )
    ]

runs_on : (s : QueueJobStatus) → may_start s ≡ false → is_completed s ≡ false → may_end s ≡ true
runs_on QueueJobStatus.queued h k = cc
runs_on QueueJobStatus.running h k = refl
runs_on QueueJobStatus.completed h k = cc
runs_on QueueJobStatus.failed h k = cc

no_row :
    (t : String) (db : Db) → get_job t db ≡ none → some_row (has_task_id t) db.queue_jobs ≡ false
unfolding get_job
no_row t db none_there = rw (some_row-eq-find_row (has_task_id t) db.queue_jobs, none_there) refl

mark_running_missing :
    (now : ℕ) (t : String) (db : Db)
    → get_job t db ≡ none
    → mark_queue_job_running now t db ≡ raise value_error "queue job not found"
unfolding mark_queue_job_running update_jobs get_job
mark_running_missing now t db none_there =
    let unknown : some_row (has_task_id t) db.queue_jobs ≡ false = no_row t db none_there in
    let idle =
      some_row-weaken (has_task_id t) (job_in may_start t) db.queue_jobs
        (λ a m. (and_true (str_eq a.task_id t) (may_start a.status) m).0) unknown in
    rw (idle, unknown, update_jobs) refl

Open-of_new :
    (now : ℕ) (t kind : String) (p : Option String) (reason : String) (db : Db)
    → get_job t db ≡ none
    → Holds (λ _ after. Open t after) (mark_running now t kind p reason db)
unfolding mark_running is_instance same_class index
Open-of_new now t kind p reason db none_there = rw (mark_running_missing now t db none_there) (
    Holds-with_result (Queued (new_job now t kind p reason) db) (λ _ after. Open t after) _
      (create_queue_job now t kind p reason db)
      (Queued-create_queue_job now t kind p reason db (no_row t db none_there))
      λ _ db1 (there, _, _).
        let (after, step, opened) =
          Marks-queued now t db1 {j = new_job now t kind p reason} there refl in
        rw step opened)

Open-of_Marks :
    (now : ℕ) (t kind : String) (p : Option String) (reason : String) (db : Db)
    → Marks now t db
    → Holds (λ _ after. Open t after) (mark_running now t kind p reason db)
unfolding mark_running
Open-of_Marks now t kind p reason db (after, step, opened) = rw step opened

pub Open-mark_running :
    (now : ℕ) (t kind : String) (p : Option String) (reason : String) (db : Db)
    → Startable t db
    → Holds (λ _ after. Open t after) (mark_running now t kind p reason db)
Open-mark_running now t kind p reason db (inl new) = Open-of_new now t kind p reason db new
Open-mark_running now t kind p reason db (inr (j, there, unfinished)) =
    elim (Bool-cases (may_start j.status)) [
      | inl may ↦ Open-of_Marks now t kind p reason db (Marks-queued now t db {j = j} there may)
      | inr idle ↦
          Open-of_Marks now t kind p reason db
            (Marks-running now t db {j = j} there idle (runs_on j.status idle unfinished))
    ]
