-- ===== src/Db/Effects.antt =====
-- What the operations that record a scan leave in the tables.
use npm_sentinel.Base.{
  ℕ, String, ◌≡◌, refl, ◌∙◌, inl, inr, Bool, true, false, not, ◌&&◌, ◌||◌, Option, none, some, List,
  [], ◌∷◌, ◌++◌, arith, ◌==◌, Option-cases, and_true, str_eq_refl, one_of,
}
use npm_sentinel.Core.Exceptions.{ok}
use npm_sentinel.Db.Models.{
  Db, PackageModel, ScanResultModel, ScanStatus, QueueJobModel, QueueJobStatus, is_running,
}
use npm_sentinel.Db.Table.{
  find_row, some_row, find_row-update_where, find_row-append, some_row-append, update_where,
  some_row_of_find_row, find_row-meets,
}
use npm_sentinel.Db.Table.Order.{some_row-weaken}
use npm_sentinel.Db.Session.{fits, fits_opt, has_scan_id, has_package_id}
use npm_sentinel.Db.Holds.{Holds, Holds-check}
use npm_sentinel.Db.Packages.{get_by_name, upsert_package, has_package_name}
use npm_sentinel.Db.Scans.{get_scan, create_scan_result, update_scans, running_scan}
use npm_sentinel.Db.Jobs.{get_job, create_queue_job, update_jobs, job_types, has_task_id, job_in}

-- The row that an insertion adds.
find_row-append_new :
    {A : Type 0} (p : A → Bool) (rs : List A) (r : A)
    → some_row p rs ≡ false
    → p r ≡ true
    → find_row p (rs ++ r ∷ []) ≡ some r
unfolding find_row some_row
find_row-append_new p [] r new h = rw h refl
find_row-append_new p (s ∷ rs) r new h = ground (arith, find_row-append_new p rs r)

or_nothing : (b : Bool) → (b || false) ≡ b
or_nothing true = refl
or_nothing false = refl

some_row-append_new :
    {A : Type 0} (p q : A → Bool) (rs : List A) (r : A)
    → some_row p rs ≡ false
    → ((a : A) → q a ≡ true → p a ≡ true)
    → some_row q (rs ++ r ∷ []) ≡ q r
unfolding some_row
some_row-append_new p q rs r new imp =
    rw (some_row-append q rs (r ∷ []), some_row-weaken p q rs imp new) (or_nothing (q r))

-- The package is found under its name; scans and jobs are as they were.
abbrev pub Upserted : String → Db → PackageModel → Db → Type 0
Upserted name before p after =
    (get_by_name name after ≡ some p)
    × (after.scan_results ≡ before.scan_results)
    × (after.queue_jobs ≡ before.queue_jobs)

pub Upserted-upsert_package :
    (now i : ℕ) (name : String) (db : Db) → Holds (Upserted name db) (upsert_package now i name db)
unfolding upsert_package get_by_name find_row
Upserted-upsert_package now i name db = Holds-check (Upserted name db) (fits 255 name) _ λ _.
    elim (Option-cases (get_by_name name db)) [
      | inl new ↦
          rw (new, upsert_package)
            (Holds-check (Upserted name db) (not (some_row (has_package_id i) db.packages)) _ λ _. (
              rw (find_row-append (has_package_name name) db.packages, new, str_eq_refl name) refl,
              refl,
              refl,
            ))
      | inr (p, old) ↦
          rw (old, upsert_package)
            (let named = find_row-meets (has_package_name name) {r = p} db.packages old in
              (
                rw
                    (
                      find_row-update_where (has_package_name name) (has_package_name name)
                          (λ (r : PackageModel). record r { updated_at = now }) db.packages
                          (λ a. refl),
                      old,
                      named,
                    )
                    refl,
                refl,
                refl,
              ))
    ]

-- A scan of the package is found under the new key, with the status, and none with that key runs.
abbrev pub Created : ℕ → ℕ → ScanStatus → Db → ScanResultModel → Db → Type 0
Created i p status before s after =
    (s.id ≡ i)
    × (s.package_id ≡ p)
    × (s.status ≡ status)
    × (get_scan i after ≡ some s)
    × (some_row (running_scan i) after.scan_results ≡ is_running status)
    × (after.packages ≡ before.packages)
    × (after.queue_jobs ≡ before.queue_jobs)

pub Created-create_scan_result :
    (now i p : ℕ) (latest previous : Option String) (status : ScanStatus) (db : Db)
    → Holds (Created i p status db) (create_scan_result now i p latest previous status db)
unfolding create_scan_result get_scan some_row find_row
Created-create_scan_result now i p latest previous status db =
    Holds-check (Created i p status db) (fits_opt 128 latest && fits_opt 128 previous) _ λ _.
      Holds-check (Created i p status db) (some_row (has_package_id p) db.packages) _ λ _.
        Holds-check (Created i p status db) (not (some_row (has_scan_id i) db.scan_results)) _
          λ fresh. (
            refl,
            refl,
            refl,
            find_row-append_new (has_scan_id i) db.scan_results _ (ground arith) (ground arith),
            some_row-append_new (has_scan_id i) (running_scan i) db.scan_results _ (ground arith)
                  (λ a m. (and_true (a.id == i) (is_running a.status) m).0)
                ∙ ground arith,
            refl,
            refl,
          )

-- A new job is found under its key; packages and scans are as they were.
abbrev pub new_job : ℕ → String → String → Option String → String → QueueJobModel
new_job now task_id job_type package_name reason = record {
  task_id = task_id;
  job_type = job_type;
  package_name = package_name;
  reason = reason;
  status = QueueJobStatus.queued;
  error_message = none;
  started_at = none;
  finished_at = none;
  created_at = now;
}

abbrev pub Queued : QueueJobModel → Db → Unit {0} → Db → Type 0
Queued job before _ after =
    (get_job job.task_id after ≡ some job)
    × (after.packages ≡ before.packages)
    × (after.scan_results ≡ before.scan_results)

pub Queued-create_queue_job :
    (now : ℕ) (t j : String) (p : Option String) (r : String) (db : Db)
    → some_row (has_task_id t) db.queue_jobs ≡ false
    → Holds (Queued (new_job now t j p r) db) (create_queue_job now t j p r db)
unfolding create_queue_job get_job find_row
Queued-create_queue_job now t j p r db new =
    Holds-check (Queued (new_job now t j p r) db)
      (fits 64 t && (one_of job_types j && (fits_opt 255 p && fits 64 r))) _
      λ _.
        rw (new, create_queue_job)
          (
            find_row-append_new (has_task_id t) db.queue_jobs (new_job now t j p r) new
                (str_eq_refl t),
            refl,
            refl,
          )

-- An update of a job that is there, in a status that the update allows.
pub update_jobs-hit :
    (allowed : QueueJobStatus → Bool) (t : String) (f : QueueJobModel → QueueJobModel) (db : Db)
    {j : QueueJobModel}
    → ((a : QueueJobModel) → (f a).task_id ≡ a.task_id)
    → get_job t db ≡ some j
    → allowed j.status ≡ true
    → (update_jobs allowed t f db
        ≡ ok (tt, record db { queue_jobs = update_where (job_in allowed t) f db.queue_jobs }))
      × (get_job t (record db { queue_jobs = update_where (job_in allowed t) f db.queue_jobs })
          ≡ some (f j))
unfolding update_jobs get_job
update_jobs-hit allowed t f db {j} same there may =
    let named = find_row-meets (has_task_id t) {r = j} db.queue_jobs there in
    let hit : job_in allowed t j ≡ true = rw (named, may) refl in
    (
      rw
          (
            some_row_of_find_row (has_task_id t) (job_in allowed t) {r = j} db.queue_jobs there hit,
            update_jobs,
          )
          refl,
      rw
          (
            find_row-update_where (has_task_id t) (job_in allowed t) f db.queue_jobs
                (λ a. rw (same a) refl),
            there,
            hit,
          )
          refl,
    )

-- The end of a scan that no row has running leaves everything as it is.
pub update_scans-idle :
    (i : ℕ) (accepted : Bool) (f : ScanResultModel → ScanResultModel) (db : Db)
    {s : ScanResultModel}
    → get_scan i db ≡ some s
    → some_row (running_scan i) db.scan_results ≡ false
    → update_scans i accepted f db ≡ ok (tt, db)
unfolding update_scans get_scan
update_scans-idle i accepted f db {s} there idle =
    let named = find_row-meets (has_scan_id i) {r = s} db.scan_results there in
    rw
      (
        idle,
        some_row_of_find_row (has_scan_id i) (has_scan_id i) {r = s} db.scan_results there named,
        update_scans,
      )
      refl
