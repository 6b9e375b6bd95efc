-- ===== src/Db/Lifecycle/Runs.antt =====
-- Scan results under any sequence of calls, each in a transaction of its own.
use npm_sentinel.Base.{
  ℕ, String, ◌≡◌, refl, inl, inr, Bool, not, ◌&&◌, Option, some, List, [], ◌∷◌, ◌==◌, Bool-cases,
  Option-cases, all, one_of,
}
use npm_sentinel.Db.Models.{
  Db, ScanResultModel, PackageVersionMetadata, FindingCreate, QueueJobModel, QueueJobStatus,
}
use npm_sentinel.Db.Table.{find_row, some_row}
use npm_sentinel.Db.Session.{has_package_id, fits, fits_opt, fits_int}
use npm_sentinel.Db.Packages.{
  upsert_package, upsert_package_version, mark_package_scanned, get_by_name, has_version,
}
use npm_sentinel.Db.Scans.{
  get_scan, create_scan_result, claim_next_queued_scan, set_scan_versions, mark_scan_completed,
  mark_scan_failed, replace_findings, add_findings, fits_finding, references_scan,
}
use npm_sentinel.Db.Jobs.{
  update_jobs, create_queue_job, mark_queue_job_running, mark_queue_job_completed,
  mark_queue_job_failed, job_types, has_task_id, job_in,
}
use npm_sentinel.Db.Calls.{
  Call, upsert_package_call, upsert_package_version_call, mark_package_scanned_call,
  create_scan_result_call, claim_next_queued_scan_call, set_scan_versions_call,
  mark_scan_completed_call, mark_scan_failed_call, replace_findings_call, create_queue_job_call,
  mark_queue_job_running_call, mark_queue_job_completed_call, mark_queue_job_failed_call, perform,
  run_calls,
}
use npm_sentinel.Db.Lifecycle.{
  Keeps, Keeps-refl, Keeps-trans, Keeps-of_same, Keeps-transact, Kept, UniqueScans, After,
  After-check,
}
use npm_sentinel.Db.Lifecycle.Scans.{
  After-mark_scan_completed, After-mark_scan_failed, After-claim, After-set_scan_versions,
  After-create_scan_result,
}

After-upsert_package :
    (now i : ℕ) (name : String) (db : Db) → UniqueScans db → After db (upsert_package now i name db)
unfolding upsert_package
After-upsert_package now i name db u = After-check db (fits 255 name) _ λ _.
    elim (Option-cases (get_by_name name db)) [
      | inl new ↦
          rw (new, upsert_package)
            (After-check db (not (some_row (has_package_id i) db.packages)) _
              λ _. Keeps-of_same db _ u refl)
      | inr (p, old) ↦ rw (old, upsert_package) (Keeps-of_same db _ u refl)
    ]

After-upsert_package_version :
    (now i p : ℕ) (v : String) (m : PackageVersionMetadata) (db : Db)
    → UniqueScans db
    → After db (upsert_package_version now i p v m db)
unfolding upsert_package_version
After-upsert_package_version now i p v m db u =
    After-check db (fits 128 v && (fits_int m.unpacked_size && fits_int m.file_count)) _ λ _.
      After-check db (some_row (has_package_id p) db.packages) _ λ _.
        elim (Option-cases (find_row (has_version p v) db.versions)) [
          | inl new ↦
              rw (new, upsert_package_version)
                (After-check db (not (some_row (λ w. w.id == i) db.versions)) _
                  λ _. Keeps-of_same db _ u refl)
          | inr (p, old) ↦ rw (old, upsert_package_version) (Keeps-of_same db _ u refl)
        ]

After-mark_package_scanned :
    (now p : ℕ) (v : String) (db : Db) → UniqueScans db → After db (mark_package_scanned now p v db)
unfolding mark_package_scanned
After-mark_package_scanned now p v db u =
    elim (Bool-cases (some_row (has_package_id p) db.packages)) [
      | inl there ↦
          rw (there, mark_package_scanned)
            (After-check db (fits 128 v) _ λ _. Keeps-of_same db _ u refl)
      | inr gone ↦ rw (gone, mark_package_scanned) tt
    ]

After-replace_findings :
    (now : ℕ) (ids : ℕ → ℕ) (i : ℕ) (fs : List FindingCreate) (db : Db)
    → UniqueScans db
    → After db (replace_findings now ids i fs db)
unfolding replace_findings add_findings
After-replace_findings now ids i fs db u =
    After-check db (all fits_finding fs) _
      λ _. After-check db (references_scan i fs _) _ λ _. Keeps-of_same db _ u refl

After-update_jobs :
    (allowed : QueueJobStatus → Bool) (t : String) (f : QueueJobModel → QueueJobModel) (db : Db)
    → UniqueScans db
    → After db (update_jobs allowed t f db)
unfolding update_jobs
After-update_jobs allowed t f db u = elim (Bool-cases (some_row (job_in allowed t) db.queue_jobs)) [
  | inl hit ↦ rw (hit, update_jobs) (Keeps-of_same db _ u refl)
  | inr miss ↦ elim (Bool-cases (some_row (has_task_id t) db.queue_jobs)) [
    | inl there ↦ rw (miss, there, update_jobs) (Keeps-refl db u)
    | inr gone ↦ rw (miss, gone, update_jobs) tt
  ]
]

After-create_queue_job :
    (now : ℕ) (t j : String) (p : Option String) (r : String) (db : Db)
    → UniqueScans db
    → After db (create_queue_job now t j p r db)
unfolding create_queue_job
After-create_queue_job now t j p r db u =
    After-check db (fits 64 t && (one_of job_types j && (fits_opt 255 p && fits 64 r))) _ λ _.
      elim (Bool-cases (some_row (has_task_id t) db.queue_jobs)) [
        | inl there ↦ rw (there, create_queue_job) (Keeps-refl db u)
        | inr new ↦ rw (new, create_queue_job) (Keeps-of_same db _ u refl)
      ]

perform-Keeps : (c : Call) (db : Db) → UniqueScans db → Keeps db (perform c db)
unfolding perform mark_queue_job_running mark_queue_job_completed mark_queue_job_failed
perform-Keeps (upsert_package_call now i name) db u =
    Keeps-transact (upsert_package now i name) db u (After-upsert_package now i name db u)
perform-Keeps (upsert_package_version_call now i p v m) db u =
    Keeps-transact (upsert_package_version now i p v m) db u
      (After-upsert_package_version now i p v m db u)
perform-Keeps (mark_package_scanned_call now p v) db u =
    Keeps-transact (mark_package_scanned now p v) db u (After-mark_package_scanned now p v db u)
perform-Keeps (create_scan_result_call now i p l v s) db u =
    Keeps-transact (create_scan_result now i p l v s) db u
      (After-create_scan_result now i p l v s db u)
perform-Keeps (claim_next_queued_scan_call locked now p) db u =
    Keeps-transact (claim_next_queued_scan locked now p) db u (After-claim locked now p db u)
perform-Keeps (set_scan_versions_call i l v) db u =
    Keeps-transact (set_scan_versions i l v) db u (After-set_scan_versions i l v db u)
perform-Keeps (mark_scan_completed_call now i s r) db u =
    Keeps-transact (mark_scan_completed now i s r) db u (After-mark_scan_completed now i s r db u)
perform-Keeps (mark_scan_failed_call now i e) db u =
    Keeps-transact (mark_scan_failed now i e) db u (After-mark_scan_failed now i e db u)
perform-Keeps (replace_findings_call now ids i fs) db u =
    Keeps-transact (replace_findings now ids i fs) db u (After-replace_findings now ids i fs db u)
perform-Keeps (create_queue_job_call now t j p r) db u =
    Keeps-transact (create_queue_job now t j p r) db u (After-create_queue_job now t j p r db u)
perform-Keeps (mark_queue_job_running_call now t) db u =
    Keeps-transact (mark_queue_job_running now t) db u (After-update_jobs _ t _ db u)
perform-Keeps (mark_queue_job_completed_call now t) db u =
    Keeps-transact (mark_queue_job_completed now t) db u (After-update_jobs _ t _ db u)
perform-Keeps (mark_queue_job_failed_call now t e) db u =
    Keeps-transact (mark_queue_job_failed now t e) db u (After-update_jobs _ t _ db u)

-- If no two scan results have the same key, then after any sequence of calls, in any order and with any
-- arguments, no two have; and a scan result that had a key is found under it still, for the same package,
-- with a status that has not gone back, and unchanged in every field if it was completed or failed.
pub run_calls-keeps :
    (calls : List Call) (db : Db)
    → UniqueScans db
    → UniqueScans (run_calls calls db)
      × ((i : ℕ) (r : ScanResultModel) → get_scan i db ≡ some r → Kept i r (run_calls calls db))
unfolding run_calls
run_calls-keeps [] db u = Keeps-refl db u
run_calls-keeps (c ∷ cs) db u =
    let first = perform-Keeps c db u in
    Keeps-trans db (perform c db) (run_calls cs (perform c db)) first
      (run_calls-keeps cs (perform c db) first.0)
