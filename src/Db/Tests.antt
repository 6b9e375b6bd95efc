-- ===== src/Db/Tests.antt =====
-- Runs of the repository, and its theorems at concrete tables.
use npm_sentinel.Db.UnitOfWork.{transact}
use npm_sentinel.Base.{ℕ, ◌≡◌, refl, ◌⊎◌, false, none, some, List, [], ◌∷◌, map}
use npm_sentinel.Base.Int.{pos}
use npm_sentinel.Core.Exceptions.{ok}
use npm_sentinel.Db.Models.{Db, ScanResultModel, ScanStatus, FindingCreate}
use npm_sentinel.Db.Table.{some_row, find_row}
use npm_sentinel.Db.Holds.{Holds}
use npm_sentinel.Db.Scans.{
  get_scan, claim_next_queued_scan, claimable, claimed, replace_findings, mark_scan_failed,
  mark_scan_completed,
}
use npm_sentinel.Db.Calls.{
  Call, claim_next_queued_scan_call, mark_scan_completed_call, mark_scan_failed_call, run_calls,
  perform,
}
use npm_sentinel.Db.Lifecycle.{UniqueScans, Kept}
use npm_sentinel.Db.Lifecycle.Runs.{run_calls-keeps}
use npm_sentinel.Db.Claims.{Oldest, with_claimed, claim_next_queued_scan-Oldest}
use npm_sentinel.Db.Findings.{Replaced, Replaced-replace_findings}

abbrev scan : ℕ → ScanStatus → ℕ → ScanResultModel
scan i status created = record {
  id = i;
  package_id = 7;
  latest_version = none;
  previous_version = none;
  status = status;
  score = none;
  risk_level = "unknown";
  error_message = none;
  started_at = created;
  finished_at = none;
  created_at = created;
}

-- A package with a scan that failed and two that wait, the older one behind the other.
abbrev three_scans : Db
three_scans = record {
  packages = [];
  versions = [];
  scan_results =
      scan 1 ScanStatus.failed 10 ∷ scan 2 ScanStatus.queued 12 ∷ scan 3 ScanStatus.queued 11 ∷ [];
  findings = [];
  queue_jobs = [];
}

three_scans-UniqueScans : UniqueScans three_scans
unfolding some_row
three_scans-UniqueScans = (refl, (refl, (refl, tt)))

abbrev calls : List Call
calls =
    claim_next_queued_scan_call (λ i. false) 20 7
    ∷ mark_scan_completed_call 21 3 (pos 26) "low"
    ∷ mark_scan_failed_call 22 3 "late"
    ∷ mark_scan_failed_call 22 1 "late"
    ∷ []

-- The oldest waiting scan is taken, and what is ended stays as it is.
calls_tests :
    (map (λ r. r.status) (run_calls calls three_scans).scan_results
      ≡ ScanStatus.failed ∷ ScanStatus.queued ∷ ScanStatus.completed ∷ [])
    × (get_scan 1 (run_calls calls three_scans) ≡ some (scan 1 ScanStatus.failed 10))
unfolding run_calls get_scan perform transact mark_scan_failed mark_scan_completed
    claim_next_queued_scan find_row
calls_tests = (refl, refl)

run_calls-keeps_example :
    UniqueScans (run_calls calls three_scans)
    × ((i : ℕ) (r : ScanResultModel)
        → get_scan i three_scans ≡ some r
        → Kept i r (run_calls calls three_scans))
run_calls-keeps_example = run_calls-keeps calls three_scans three_scans-UniqueScans

claim_next_queued_scan-Oldest_example :
    ((claim_next_queued_scan (λ i. false) 20 7 three_scans ≡ ok (none, three_scans))
      × (some_row (claimable (λ i. false) 7) three_scans.scan_results ≡ false))
    ⊎ ((r : ScanResultModel) × Oldest (λ i. false) 7 three_scans r
        × (claim_next_queued_scan (λ i. false) 20 7 three_scans
            ≡ ok (some (claimed 20 r), with_claimed 20 r.id three_scans))
        × (get_scan r.id (with_claimed 20 r.id three_scans) ≡ some (claimed 20 r)))
claim_next_queued_scan-Oldest_example =
    claim_next_queued_scan-Oldest (λ i. false) 20 7 three_scans three_scans-UniqueScans

abbrev hook : FindingCreate
hook = record {
  finding_type = "INSTALL_HOOK_ADDED";
  severity = "high";
  category = "scripts";
  description = "added";
  file_path = none;
  evidence = some "install";
}

Replaced-replace_findings_example :
    Holds
      (Replaced 20 (λ i. i) 3 (hook ∷ []) three_scans)
      (replace_findings 20 (λ i. i) 3 (hook ∷ []) three_scans)
Replaced-replace_findings_example = Replaced-replace_findings 20 (λ i. i) 3 (hook ∷ []) three_scans
