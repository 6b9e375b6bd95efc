-- ===== src/UseCases/EnqueueScan/OtherJobs.antt =====
-- Enqueueing a scan leaves the jobs of other tasks as they are.
use npm_sentinel.Base.{
  ℕ, String, ◌≡◌, refl, ap, ◌∙◌, inl, inr, Bool, true, false, ◌&&◌, Option, none, some, List, arith,
  Bool-cases, Option-cases, str_eq, str_eq_iff, one_of, strip, if◌then◌else◌,
}
use npm_sentinel.Core.Exceptions.{Exception, Result, ok, err, queue_publish_error, is_instance}
use npm_sentinel.Db.Models.{Db, ScanResultModel, ScanStatus, QueueJobModel, QueueJobStatus, may_end}
use npm_sentinel.Db.Table.{
  find_row, some_row, map_row, or_row-none, find_row-update_where, find_row-append, find_row-meets,
}
use npm_sentinel.Db.Session.{fits, fits_opt}
use npm_sentinel.Db.Holds.{Holds, Holds-check, Holds-with_result, Holds-weaken}
use npm_sentinel.Db.Effects.{Created, Created-create_scan_result}
use npm_sentinel.Db.Packages.{upsert_package}
use npm_sentinel.Db.Scans.{create_scan_result, mark_scan_failed}
use npm_sentinel.Db.Jobs.{
  get_job, has_task_id, job_in, job_types, create_queue_job, update_jobs, mark_queue_job_failed,
}
use npm_sentinel.Db.Monad.{with_result}
use npm_sentinel.Db.UnitOfWork.{transact, commit_or_rollback}
use npm_sentinel.UseCases.PackageName.{is_valid_package_name}
use npm_sentinel.UseCases.EnqueueScan.{
  ScanJobQueue, Surroundings, record_scan, record_unpublished, raise_after, published, publish,
  enqueue_scan, normalize_reason,
}
use npm_sentinel.UseCases.ScanPackage.Jobs.{
  SameJobs, SameJobs-upsert_package, SameJobs-mark_scan_failed,
}

-- The job of the task is what it was.
abbrev pub SameJob : {A : Type 0} → String → Db → A → Db → Type 0
SameJob t before _ after = get_job t after ≡ get_job t before

SameJob-then :
    {A B : Type 0} (t : String) (before : Db) (f : A → Db → Result (B × Db)) (r : Result (A × Db))
    → Holds (SameJob t before) r
    → ((a : A) (db : Db) → Holds (SameJob t db) (f a db))
    → Holds (SameJob t before) (with_result f r)
SameJob-then t before f r h next =
    Holds-with_result (SameJob t before) (SameJob t before) f r h λ a db same.
      Holds-weaken (SameJob t db) (SameJob t before) (f a db) (next a db)
        λ b after same_after. same_after ∙ same

get_job-ap :
    (t : String) (before after : Db)
    → after.queue_jobs ≡ before.queue_jobs
    → get_job t after ≡ get_job t before
unfolding get_job
get_job-ap t before after same = ap (find_row (has_task_id t)) same

SameJob-of_SameJobs :
    {A : Type 0} (t : String) (db : Db) (r : Result (A × Db))
    → Holds (SameJobs db) r
    → Holds (SameJob t db) r
SameJob-of_SameJobs t db r h =
    Holds-weaken (SameJobs db) (SameJob t db) r h λ a after same. get_job-ap t db after same

task_apart :
    (s t : String) (j : QueueJobModel)
    → str_eq s t ≡ false
    → has_task_id t j ≡ true
    → has_task_id s j ≡ false
task_apart s t j apart h =
    ground (arith, str_eq_iff j.task_id s, str_eq_iff j.task_id t, str_eq_iff s t)

module _ (s t : String) (apart : str_eq s t ≡ false) where
  SameJob-create_queue_job :
      (now : ℕ) (job_type : String) (name : Option String) (reason : String) (db : Db)
      → Holds (SameJob t db) (create_queue_job now s job_type name reason db)
  unfolding create_queue_job get_job find_row
  SameJob-create_queue_job now job_type name reason db =
      Holds-check (SameJob t db)
        (fits 64 s && (one_of job_types job_type && (fits_opt 255 name && fits 64 reason))) _
        λ _. elim (Bool-cases (some_row (has_task_id s) db.queue_jobs)) [
          | inl there ↦ rw (there, create_queue_job) refl
          | inr new ↦
              rw (new, create_queue_job)
                (find_row-append (has_task_id t) db.queue_jobs _
                  ∙ rw apart (or_row-none (find_row (has_task_id t) db.queue_jobs)))
        ]

  updated_same :
      (allowed : QueueJobStatus → Bool) (f : QueueJobModel → QueueJobModel)
      (jobs : List QueueJobModel)
      → map_row (λ j. if job_in allowed s j then f j else j) (find_row (has_task_id t) jobs)
        ≡ find_row (has_task_id t) jobs
  updated_same allowed f jobs = elim (Option-cases (find_row (has_task_id t) jobs)) [
    | inl gone ↦ rw gone refl
    | inr (j, found) ↦
        rw (found, task_apart s t j apart (find_row-meets (has_task_id t) {r = j} jobs found)) refl
  ]

  SameJob-update_jobs :
      (allowed : QueueJobStatus → Bool) (f : QueueJobModel → QueueJobModel) (db : Db)
      → ((a : QueueJobModel) → (f a).task_id ≡ a.task_id)
      → Holds (SameJob t db) (update_jobs allowed s f db)
  unfolding update_jobs get_job
  SameJob-update_jobs allowed f db same =
      elim (Bool-cases (some_row (job_in allowed s) db.queue_jobs)) [
        | inl hit ↦
            rw (hit, update_jobs)
              (find_row-update_where (has_task_id t) (job_in allowed s) f db.queue_jobs
                  (λ a. rw (same a) refl)
                ∙ updated_same allowed f db.queue_jobs)
        | inr miss ↦ elim (Bool-cases (some_row (has_task_id s) db.queue_jobs)) [
          | inl there ↦ rw (miss, there, update_jobs) refl
          | inr gone ↦ rw (miss, gone, update_jobs) tt
        ]
      ]

module _ (around : Surroundings) (t : String) (apart : str_eq around.task_id t ≡ false) where
  SameJob-record_scan :
      (name why : String) (db : Db) → Holds (SameJob t db) (record_scan around name why db)
  unfolding record_scan
  SameJob-record_scan name why db =
      SameJob-then t db _ (upsert_package around.now around.new_package_id name db)
        (SameJob-of_SameJobs t db (upsert_package around.now around.new_package_id name db)
          (SameJobs-upsert_package around.now around.new_package_id name db))
        λ p db1.
          SameJob-then t db1 _
            (create_scan_result around.now around.new_scan_id p.id none none ScanStatus.queued db1)
            (Holds-weaken (Created around.new_scan_id p.id ScanStatus.queued db1) (SameJob t db1)
              (create_scan_result around.now around.new_scan_id p.id none none ScanStatus.queued
                db1)
              (Created-create_scan_result around.now around.new_scan_id p.id none none
                ScanStatus.queued db1)
              λ s after (_, _, _, _, _, _, same). get_job-ap t db1 after same)
            λ s db2.
              SameJob-then t db2 _
                (create_queue_job around.now around.task_id "scan_package" (some name) why db2)
                (SameJob-create_queue_job around.task_id t apart around.now "scan_package"
                  (some name) why db2)
                λ _ db3. refl

  SameJob-record_unpublished :
      (i : ℕ) (db : Db) → Holds (SameJob t db) (record_unpublished around i db)
  unfolding record_unpublished mark_queue_job_failed
  SameJob-record_unpublished i db =
      SameJob-then t db _
        (mark_queue_job_failed around.later around.task_id "scan queue unavailable" db)
        (SameJob-update_jobs around.task_id t apart may_end _ db (λ a. refl))
        λ _ db1.
          SameJob-of_SameJobs t db1 (mark_scan_failed around.later i "scan queue unavailable" db1)
            (SameJobs-mark_scan_failed around.later i "scan queue unavailable" db1)

  SameJob-commit :
      {A : Type 0} (before : Db) (r : Result (A × Db))
      → Holds (SameJob t before) r
      → get_job t (commit_or_rollback before r).1 ≡ get_job t before
  unfolding commit_or_rollback
  SameJob-commit before (ok (a, after)) h = h
  SameJob-commit before (err e) h = refl

  raised_after :
      (e : Exception) (r : Result (Unit {0}) × Db) → get_job t (raise_after e r).1 ≡ get_job t r.1
  raised_after e (ok _, db) = refl
  raised_after e (err f, db) = refl

  SameJob-published :
      (i : ℕ) (db : Db) (q : Result (Unit {0}))
      → get_job t (published around i db q).1 ≡ get_job t db
  unfolding transact
  SameJob-published i db (ok _) = refl
  SameJob-published i db (err e) = elim (Bool-cases (is_instance e.class queue_publish_error)) [
    | inl lost ↦
        rw (lost, published)
          (raised_after e (transact (record_unpublished around i) db)
            ∙ SameJob-commit db (record_unpublished around i db) (SameJob-record_unpublished i db))
    | inr other ↦ rw (other, published) refl
  ]

  SameJob-publish :
      (queue : ScanJobQueue) (name why : String) (r : Result ScanResultModel × Db)
      → get_job t (publish queue around name why r).1 ≡ get_job t r.1
  SameJob-publish queue name why (ok s, db) =
      SameJob-published s.id db (queue.enqueue_scan_package name why around.task_id)
  SameJob-publish queue name why (err e, db) = refl

  -- Enqueueing a scan under another identifier leaves the job of the task as it is, whether it returns or raises.
  pub enqueue_scan-get_job :
      (queue : ScanJobQueue) (package_name reason : String) (db : Db)
      → get_job t (enqueue_scan queue around package_name reason db).1 ≡ get_job t db
  unfolding enqueue_scan transact
  enqueue_scan-get_job queue package_name reason db =
      elim (Bool-cases (is_valid_package_name (strip package_name))) [
        | inl valid ↦
            rw (valid, enqueue_scan)
              (SameJob-publish queue (strip package_name) (normalize_reason reason)
                  (transact (record_scan around (strip package_name) (normalize_reason reason)) db)
                ∙ SameJob-commit db
                    (record_scan around (strip package_name) (normalize_reason reason) db)
                    (SameJob-record_scan (strip package_name) (normalize_reason reason) db))
        | inr invalid ↦ rw (invalid, enqueue_scan) refl
      ]
