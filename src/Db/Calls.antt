-- ===== src/Db/Calls.antt =====
-- The calls of the repository that change rows, each in a transaction of its own, and runs of them.
use npm_sentinel.Base.{ℕ, String, Bool, Option, List, [], ◌∷◌}
use npm_sentinel.Base.Int.{ℤ}
use npm_sentinel.Db.Models.{Db, ScanStatus, PackageVersionMetadata, FindingCreate}
use npm_sentinel.Db.Packages.{upsert_package, upsert_package_version, mark_package_scanned}
use npm_sentinel.Db.Scans.{
  create_scan_result, claim_next_queued_scan, set_scan_versions, mark_scan_completed,
  mark_scan_failed, replace_findings,
}
use npm_sentinel.Db.Jobs.{
  create_queue_job, mark_queue_job_running, mark_queue_job_completed, mark_queue_job_failed,
}
use npm_sentinel.Db.UnitOfWork.{transact}

-- A call with its arguments, and with what the database supplies to it.
pub data Call : Type 0 where
  upsert_package_call : ℕ → ℕ → String → Call
  upsert_package_version_call : ℕ → ℕ → ℕ → String → PackageVersionMetadata → Call
  mark_package_scanned_call : ℕ → ℕ → String → Call
  create_scan_result_call : ℕ → ℕ → ℕ → Option String → Option String → ScanStatus → Call
  claim_next_queued_scan_call : (ℕ → Bool) → ℕ → ℕ → Call
  set_scan_versions_call : ℕ → String → Option String → Call
  mark_scan_completed_call : ℕ → ℕ → ℤ → String → Call
  mark_scan_failed_call : ℕ → ℕ → String → Call
  replace_findings_call : ℕ → (ℕ → ℕ) → ℕ → List FindingCreate → Call
  create_queue_job_call : ℕ → String → String → Option String → String → Call
  mark_queue_job_running_call : ℕ → String → Call
  mark_queue_job_completed_call : ℕ → String → Call
  mark_queue_job_failed_call : ℕ → String → String → Call

unfoldable pub perform : Call → Db → Db
perform (upsert_package_call now i name) db = (transact (upsert_package now i name) db).1
perform (upsert_package_version_call now i p v m) db =
    (transact (upsert_package_version now i p v m) db).1
perform (mark_package_scanned_call now p v) db = (transact (mark_package_scanned now p v) db).1
perform (create_scan_result_call now i p l v s) db =
    (transact (create_scan_result now i p l v s) db).1
perform (claim_next_queued_scan_call locked now p) db =
    (transact (claim_next_queued_scan locked now p) db).1
perform (set_scan_versions_call i l v) db = (transact (set_scan_versions i l v) db).1
perform (mark_scan_completed_call now i s r) db = (transact (mark_scan_completed now i s r) db).1
perform (mark_scan_failed_call now i e) db = (transact (mark_scan_failed now i e) db).1
perform (replace_findings_call now ids i fs) db = (transact (replace_findings now ids i fs) db).1
perform (create_queue_job_call now t j p r) db = (transact (create_queue_job now t j p r) db).1
perform (mark_queue_job_running_call now t) db = (transact (mark_queue_job_running now t) db).1
perform (mark_queue_job_completed_call now t) db = (transact (mark_queue_job_completed now t) db).1
perform (mark_queue_job_failed_call now t e) db = (transact (mark_queue_job_failed now t e) db).1

-- Any interleaving of the calls of any number of workers, of the API and of the scheduler.
unfoldable pub run_calls : List Call → Db → Db
run_calls [] db = db
run_calls (c ∷ cs) db = run_calls cs (perform c db)
