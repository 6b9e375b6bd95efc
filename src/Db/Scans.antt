-- ===== src/Db/Scans.antt =====
-- The operations of app/infrastructure/db/repositories.py on scan results and their findings.
use npm_sentinel.Base.{
  ℕ, suc, String, Bool, true, not, ◌&&◌, ◌||◌, Option, none, some, List, [], ◌∷◌, ◌++◌, ltb, ◌==◌,
  if◌then◌else◌, all, one_of,
}
use npm_sentinel.Core.Exceptions.{value_error, ok, ◌>>◌, raise}
use npm_sentinel.Base.Int.{ℤ}
use npm_sentinel.Db.Models.{
  Db, ScanResultModel, ScanStatus, FindingModel, FindingCreate, is_running, is_queued,
}
use npm_sentinel.Db.Table.{find_row, update_where, delete_where, some_row, first_by}
use npm_sentinel.Db.Session.{Repo, fits, fits_opt, fits_int, check, has_package_id, has_scan_id}

-- `session.get(ScanResultModel, …)`
unfoldable pub get_scan : ℕ → Db → Option ScanResultModel
get_scan i db = find_row (has_scan_id i) db.scan_results

unfoldable pub create_scan_result :
    ℕ → ℕ → ℕ → Option String → Option String → ScanStatus → Repo ScanResultModel
unfolding some_row
create_scan_result now new_id package_id latest_version previous_version status db = do
  check (fits_opt 128 latest_version && fits_opt 128 previous_version)
  check (some_row (has_package_id package_id) db.packages)
  check (not (some_row (has_scan_id new_id) db.scan_results))
  let created : ScanResultModel = record {
    id = new_id;
    package_id = package_id;
    latest_version = latest_version;
    previous_version = previous_version;
    status = status;
    score = none;
    risk_level = "unknown";
    error_message = none;
    started_at = now;
    finished_at = none;
    created_at = now;
  }
  ok (created, record db { scan_results = db.scan_results ++ created ∷ [] })

-- `ORDER BY created_at ASC, id ASC`
abbrev pub created_before : ScanResultModel → ScanResultModel → Bool
created_before a b = ltb a.created_at b.created_at || a.created_at == b.created_at && ltb a.id b.id

abbrev pub claimable : (ℕ → Bool) → ℕ → ScanResultModel → Bool
claimable locked package_id r =
    r.package_id == package_id && (is_queued r.status && not (locked r.id))

abbrev pub claimed : ℕ → ScanResultModel → ScanResultModel
claimed now r = record r {
  status = ScanStatus.running;
  error_message = none;
  started_at = now;
  finished_at = none;
}

-- `locked` are the rows that other transactions hold, which are skipped.
unfoldable pub claim_next_queued_scan : (ℕ → Bool) → ℕ → ℕ → Repo (Option ScanResultModel)
unfolding first_by update_where
claim_next_queued_scan locked now package_id db =
    elim (first_by created_before (claimable locked package_id) db.scan_results) [
      | none ↦ ok (none, db)
      | some r ↦ ok (
        some (claimed now r),
        record db { scan_results = update_where (has_scan_id r.id) (claimed now) db.scan_results },
      )
    ]

unfoldable pub set_scan_versions : ℕ → String → Option String → Repo (Unit {0})
unfolding get_scan find_row update_where
set_scan_versions scan_result_id latest_version previous_version db =
    elim (get_scan scan_result_id db) [
      | none ↦ raise value_error "scan result not found"
      | some r ↦ if not (is_running r.status) then ok (tt, db) else (do
        check (fits 128 latest_version && fits_opt 128 previous_version)
        ok (
          tt,
          record db {
            scan_results =
                update_where (has_scan_id scan_result_id)
                  (λ s. record s {
                    latest_version = some latest_version;
                    previous_version = previous_version;
                  })
                  db.scan_results;
          },
        ))
    ]

abbrev pub running_scan : ℕ → ScanResultModel → Bool
running_scan scan_result_id r = r.id == scan_result_id && is_running r.status

-- `rowcount == 0 and get(…) is None`: the row does not exist.
unfoldable pub update_scans : ℕ → Bool → (ScanResultModel → ScanResultModel) → Repo (Unit {0})
unfolding some_row update_where
update_scans scan_result_id accepted f db =
    if some_row (running_scan scan_result_id) db.scan_results
    then (do
      check accepted
      ok (
        tt,
        record db { scan_results = update_where (running_scan scan_result_id) f db.scan_results },
      ))
    else if some_row (has_scan_id scan_result_id) db.scan_results
    then ok (tt, db)
    else raise value_error "scan result not found"

abbrev pub risk_levels : List String
risk_levels = "low" ∷ "medium" ∷ "high" ∷ "unknown" ∷ []

unfoldable pub mark_scan_completed : ℕ → ℕ → ℤ → String → Repo (Unit {0})
unfolding update_scans one_of
mark_scan_completed now scan_result_id score risk_level =
    update_scans scan_result_id (fits_int (some score) && one_of risk_levels risk_level) λ s.
      record s {
        status = ScanStatus.completed;
        score = some score;
        risk_level = risk_level;
        error_message = none;
        finished_at = some now;
      }

unfoldable pub mark_scan_failed : ℕ → ℕ → String → Repo (Unit {0})
unfolding update_scans
mark_scan_failed now scan_result_id error_message = update_scans scan_result_id true λ s. record s {
  status = ScanStatus.failed;
  error_message = some error_message;
  finished_at = some now;
}

abbrev pub severities : List String
severities = "low" ∷ "medium" ∷ "high" ∷ "critical" ∷ []

-- The rows of new findings; `new_id i` is the key of the one at place `i`.
unfoldable pub finding_rows : ℕ → (ℕ → ℕ) → ℕ → ℕ → List FindingCreate → List FindingModel
finding_rows now new_id place scan_result_id [] = []
finding_rows now new_id place scan_result_id (f ∷ fs) =
    record { id = new_id place; scan_result_id = scan_result_id; finding = f; created_at = now }
    ∷ finding_rows now new_id (suc place) scan_result_id fs

abbrev pub fits_finding : FindingCreate → Bool
fits_finding f = fits 128 f.finding_type && (one_of severities f.severity && fits 128 f.category)

-- The foreign key: rows are added only to a scan that exists.
unfoldable pub references_scan : ℕ → List FindingCreate → Db → Bool
unfolding some_row
references_scan scan_result_id [] db = true
references_scan scan_result_id (f ∷ fs) db = some_row (has_scan_id scan_result_id) db.scan_results

unfoldable pub add_findings : ℕ → (ℕ → ℕ) → ℕ → List FindingCreate → Repo (Unit {0})
unfolding finding_rows references_scan one_of
add_findings now new_id scan_result_id findings db = do
  check (all fits_finding findings)
  check (references_scan scan_result_id findings db)
  ok (tt, record db { findings = db.findings ++ finding_rows now new_id 0 scan_result_id findings })

abbrev pub of_scan : ℕ → FindingModel → Bool
of_scan scan_result_id r = r.scan_result_id == scan_result_id

unfoldable pub replace_findings : ℕ → (ℕ → ℕ) → ℕ → List FindingCreate → Repo (Unit {0})
unfolding delete_where add_findings
replace_findings now new_id scan_result_id findings db =
    add_findings now new_id scan_result_id findings
      (record db { findings = delete_where (of_scan scan_result_id) db.findings })

unfoldable pub has_running_scan : ℕ → Db → Bool
unfolding some_row
has_running_scan package_id db =
    some_row (λ r. r.package_id == package_id && is_running r.status) db.scan_results
