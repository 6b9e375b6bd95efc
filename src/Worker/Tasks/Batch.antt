-- ===== src/Worker/Tasks/Batch.antt =====
-- `enqueue_top_packages` of app/worker/tasks.py: a batch, in the frame of its job.
use npm_sentinel.Base.{
  ℕ, suc, ◌+◌, ◌≤◌, String, ◌≡◌, refl, ◌∙◌, inl, inr, false, Option, none, some, List, [], ◌∷◌,
  arith, Bool-cases, str_eq, is_empty, strip, append, length,
}
use npm_sentinel.Core.Exceptions.{
  ExceptionClass, Exception, Result, ok, err, value_error, is_instance,
}
use npm_sentinel.Db.Models.{Db}
use npm_sentinel.Db.Jobs.{get_job, mark_queue_job_completed, mark_queue_job_failed}
use npm_sentinel.Db.UnitOfWork.{transact}
use npm_sentinel.PackageList.{Outcome, load_package_names}
use npm_sentinel.PackageList.Names.{load_package_names-NameIn}
use npm_sentinel.Producer.{Broker, celery_scan_job_queue}
use npm_sentinel.UseCases.EnqueueScan.{ScanJobQueue, Surroundings, enqueue_scan}
use npm_sentinel.UseCases.EnqueueScan.OtherJobs.{enqueue_scan-get_job}
use npm_sentinel.UseCases.TopPackagesBatch.{
  EnqueueTopPackagesBatchResult, Counters, enqueue_one, counted, enqueue_all, next, with_requested,
  enqueue_batch,
}
use npm_sentinel.UseCases.TopPackagesBatch.Counts.{Counts, enqueue_batch-Counts}
use npm_sentinel.UseCases.ScanPackage.Run.{and_then}
use npm_sentinel.Worker.Tasks.{
  or_text, message_or_class, raise_again, mark_running, after_use_case, run_task,
}
use npm_sentinel.Worker.Tasks.Jobs.{Startable}
use npm_sentinel.Worker.Tasks.Outcome.{JobEnded, run_task-JobEnded}

-- `task_id or "batch-" + uuid4().hex`
abbrev pub batch_task_id : Option String → String → String
batch_task_id task_id fresh = or_text task_id (append "batch-" fresh)

-- `_build_top_packages_use_case`, and its `execute`; `outcome` is what the request for the list comes to.
unfoldable pub top_packages_use_case :
    (String → String)
    → Outcome
    → Broker
    → (ℕ → Surroundings)
    → ℕ
    → String
    → Db
    → Result EnqueueTopPackagesBatchResult × Db
unfolding load_package_names enqueue_batch
top_packages_use_case unquote outcome broker arounds limit reason =
    enqueue_batch (celery_scan_job_queue broker) arounds reason
      (load_package_names unquote outcome (some limit))

module _ (t : String) where
  after_counted :
      (c : Counters) (r : Result String × Db) → get_job t (counted c r).1 ≡ get_job t r.1
  after_counted c (ok _, db) = refl
  after_counted c (err e, db) = elim (Bool-cases (is_instance e.class value_error)) [
    | inl invalid ↦ rw (invalid, counted) refl
    | inr other ↦ rw (other, counted) refl
  ]

  after_next :
      (rest : Counters → Db → Result Counters × Db) (r : Result Counters × Db)
      → ((c : Counters) (db : Db) → get_job t (rest c db).1 ≡ get_job t db)
      → get_job t (next rest r).1 ≡ get_job t r.1
  after_next rest (ok c, db) same = same c db
  after_next rest (err e, db) same = refl

  after_requested :
      (n : ℕ) (r : Result Counters × Db) → get_job t (with_requested n r).1 ≡ get_job t r.1
  after_requested n (ok c, db) = refl
  after_requested n (err e, db) = refl

module _ (t : String) (queue : ScanJobQueue) (arounds : ℕ → Surroundings)
    (apart : (i : ℕ) → str_eq (arounds i).task_id t ≡ false) where
  enqueue_one-get_job :
      (i : ℕ) (reason n : String) (c : Counters) (db : Db)
      → get_job t (enqueue_one queue (arounds i) reason n c db).1 ≡ get_job t db
  unfolding enqueue_one
  enqueue_one-get_job i reason n c db = elim (Bool-cases (is_empty (strip n))) [
    | inl blank ↦ rw (blank, enqueue_one) refl
    | inr named ↦
        rw (named, enqueue_one)
          (after_counted t c (enqueue_scan queue (arounds i) (strip n) reason db)
            ∙ enqueue_scan-get_job (arounds i) t (apart i) queue (strip n) reason db)
  ]

  enqueue_all-get_job :
      (i : ℕ) (reason : String) (ns : List String) (c : Counters) (db : Db)
      → get_job t (enqueue_all queue arounds i reason ns c db).1 ≡ get_job t db
  unfolding enqueue_all
  enqueue_all-get_job i reason [] c db = refl
  enqueue_all-get_job i reason (n ∷ ns) c db =
      after_next t (enqueue_all queue arounds (suc i) reason ns)
        (enqueue_one queue (arounds i) reason n c db) (enqueue_all-get_job (suc i) reason ns)
      ∙ enqueue_one-get_job i reason n c db

  enqueue_batch-get_job :
      (reason : String) (loaded : Result (List String)) (db : Db)
      → get_job t (enqueue_batch queue arounds reason loaded db).1 ≡ get_job t db
  unfolding enqueue_batch
  enqueue_batch-get_job reason (err e) db = refl
  enqueue_batch-get_job reason (ok ns) db =
      after_requested t (length ns)
        (enqueue_all queue arounds 0 reason ns (record { enqueued = 0; skipped = 0 }) db)
      ∙ enqueue_all-get_job 0 reason ns (record { enqueued = 0; skipped = 0 }) db

-- Each name of the list is counted once, and there are at most as many as the limit.
abbrev pub Tally : ℕ → Result EnqueueTopPackagesBatchResult × Db → Type 0
Tally limit (ok r, _) = (r.enqueued + r.skipped ≡ r.requested) × (r.requested ≤ limit)
Tally limit (err e, _) = Unit

Tally-Counts :
    (limit : ℕ) (ns : List String) (r : Result EnqueueTopPackagesBatchResult × Db)
    → Counts ns r
    → length ns ≤ limit
    → Tally limit r
Tally-Counts limit ns (ok r, db) (all_there, sum) few = (sum, omega (arith, all_there, few))
Tally-Counts limit ns (err e, db) h few = tt

few_names :
    (unquote : String → String) (outcome : Outcome) (limit : ℕ) (ns : List String)
    → load_package_names unquote outcome (some limit) ≡ ok ns
    → length ns ≤ limit
few_names unquote outcome limit ns h =
    let (_, _, _, _, (_, few, _, _)) =
      load_package_names-NameIn unquote outcome (some limit) {names = ns} h in
    few

Tally-enqueue_batch :
    (queue : ScanJobQueue) (arounds : ℕ → Surroundings) (limit : ℕ) (reason : String)
    (loaded : Result (List String)) (db : Db)
    → ((ns : List String) → loaded ≡ ok ns → length ns ≤ limit)
    → Tally limit (enqueue_batch queue arounds reason loaded db)
unfolding enqueue_batch
Tally-enqueue_batch queue arounds limit reason (err e) db few = tt
Tally-enqueue_batch queue arounds limit reason (ok ns) db few =
    Tally-Counts limit ns (enqueue_batch queue arounds reason (ok ns) db)
      (enqueue_batch-Counts queue arounds reason ns db) (few ns refl)

module _ (class_name : ExceptionClass → String) (ended_at : ℕ) (task_id : String) (limit : ℕ) where
  Tally-raise_again : (e : Exception) (r : Result (Unit {0}) × Db) → Tally limit (raise_again e r)
  Tally-raise_again e (ok _, db) = tt
  Tally-raise_again e (err f, db) = tt

  Tally-and_then :
      {A : Type 0} (r : Result A × Db) (next : A → Db → Result EnqueueTopPackagesBatchResult × Db)
      → ((a : A) (db : Db) → Tally limit (next a db))
      → Tally limit (and_then r next)
  unfolding and_then
  Tally-and_then (ok a, db) next h = h a db
  Tally-and_then (err e, db) next h = tt

  Tally-after_use_case :
      (r : Result EnqueueTopPackagesBatchResult × Db)
      → Tally limit r
      → Tally limit (after_use_case class_name ended_at task_id r)
  unfolding after_use_case
  Tally-after_use_case (ok a, db) h =
      Tally-and_then (transact (mark_queue_job_completed ended_at task_id) db) _ λ _ db1. h
  Tally-after_use_case (err e, db) h =
      Tally-raise_again e
        (transact (mark_queue_job_failed ended_at task_id (message_or_class class_name e)) db)

module _ (class_name : ExceptionClass → String) (unquote : String → String) (outcome : Outcome)
    (broker : Broker) (arounds : ℕ → Surroundings) (limit : ℕ) (reason : String) where
  unfoldable pub enqueue_top_packages :
      ℕ → ℕ → String → Db → Result EnqueueTopPackagesBatchResult × Db
  unfolding top_packages_use_case run_task
  enqueue_top_packages started_at ended_at task_id =
      run_task class_name ended_at task_id started_at "top_packages_batch" none reason
        (top_packages_use_case unquote outcome broker arounds limit reason)

  -- If the task has no job or one that is not completed, and no scan gets the task's own identifier, then the task
  -- of a batch returns with its job completed, each name of the list counted once, as enqueued or as skipped, and
  -- at most as many as the limit; or it raises, with every table as it was, or with its job failed and the message
  -- in it.
  pub enqueue_top_packages-JobEnded :
      (started_at ended_at : ℕ) (task_id : String) (db : Db)
      → Startable task_id db
      → ((i : ℕ) → str_eq (arounds i).task_id task_id ≡ false)
      → JobEnded class_name ended_at task_id db
          (enqueue_top_packages started_at ended_at task_id db)
        × Tally limit (enqueue_top_packages started_at ended_at task_id db)
  unfolding enqueue_top_packages run_task top_packages_use_case
  enqueue_top_packages-JobEnded started_at ended_at task_id db startable apart = (
    run_task-JobEnded class_name ended_at task_id started_at "top_packages_batch" none reason
        (top_packages_use_case unquote outcome broker arounds limit reason) db
        (enqueue_batch-get_job task_id (celery_scan_job_queue broker) arounds apart reason
          (load_package_names unquote outcome (some limit)))
        startable,
    Tally-and_then class_name ended_at task_id limit
        (transact (mark_running started_at task_id "top_packages_batch" none reason) db) _
        λ _ db1.
          Tally-after_use_case class_name ended_at task_id limit
            (top_packages_use_case unquote outcome broker arounds limit reason db1)
            (Tally-enqueue_batch (celery_scan_job_queue broker) arounds limit reason
              (load_package_names unquote outcome (some limit)) db1
              (few_names unquote outcome limit)),
  )
