-- ===== src/UseCases/ScanPackage/Outcome.antt =====
-- How `ScanPackageUseCase.execute` ends, and what it leaves of the scan then.
use npm_sentinel.Base.{ℕ, String, ◌≡◌, refl, ◌⊎◌, inl, inr, List}
use npm_sentinel.Core.Exceptions.{ExceptionClass, Result, ok, err}
use npm_sentinel.Domain.Findings.{Finding}
use npm_sentinel.Domain.Scoring.{calculate_score, finding_types}
use npm_sentinel.Db.Models.{Db}
use npm_sentinel.Db.Holds.{Holds, Holds-both}
use npm_sentinel.Db.Lifecycle.{UniqueScans}
use npm_sentinel.Db.UnitOfWork.{transact, commit_or_rollback}
use npm_sentinel.UseCases.ScanPackage.{
  Ports, Clock, PackageRegistryMetadata, begin_scan, record_versions, complete_scan,
}
use npm_sentinel.UseCases.ScanPackage.Transactions.{Running, Completed, Failed}
use npm_sentinel.UseCases.ScanPackage.Claimed.{Taken, Taken-begin_scan}
use npm_sentinel.UseCases.ScanPackage.Steps.{
  Saved, Running-begin_scan, Running-record_versions, Completed-complete_scan,
  Failed-mark_scan_failed,
}
use npm_sentinel.UseCases.ScanPackage.Run.{
  and_then, safe_error_message, inspect, scan_steps, on_failure, execute,
}

module _ {Archive Root : Type 0} (ports : Ports Archive Root) (class_name : ExceptionClass → String)
    (clock : Clock) (name : String) where
  -- What the registry and the analysis of the archives gave, and the scan as they imply it.
  abbrev pub Done : ℕ → ℕ → Db → Type 0
  Done p i after =
      (metadata : PackageRegistryMetadata) × (findings : List Finding) × (ports.fetch_metadata name
        ≡ ok metadata)
      × (inspect ports metadata ≡ ok findings)
      × Completed p i (calculate_score (finding_types findings)) after
      × Saved clock.completed_at clock.new_finding_id i findings after

  abbrev Steps : ℕ → ℕ → Result (Unit {0}) × Db → Type 0
  Steps p i (ok _, after) = Done p i after
  Steps p i (err e, after) = Running p i after

  complete_step :
      (p i : ℕ) (metadata : PackageRegistryMetadata) (findings : List Finding) (db : Db)
      → ports.fetch_metadata name ≡ ok metadata
      → inspect ports metadata ≡ ok findings
      → Running p i db
      → (r : Result (Unit {0} × Db))
      → Holds
          (λ _ after.
            Completed p i (calculate_score (finding_types findings)) after
            × Saved clock.completed_at clock.new_finding_id i findings after)
          r
      → Steps p i (commit_or_rollback db r)
  unfolding commit_or_rollback
  complete_step p i metadata findings db fetched inspected run (ok (_, after)) (done, saved) =
      (metadata, findings, fetched, inspected, done, saved)
  complete_step p i metadata findings db fetched inspected run (err e) h = run

  inspect_step :
      (p i : ℕ) (metadata : PackageRegistryMetadata) (db : Db)
      → ports.fetch_metadata name ≡ ok metadata
      → Running p i db
      → (r : Result (List Finding)) → inspect ports metadata ≡ r
      → Steps p i (
          and_then
            (r, db)
            λ findings db3.
              transact (complete_scan clock p i metadata.latest_version.version findings) db3)
  unfolding and_then transact
  inspect_step p i metadata db fetched run (ok findings) inspected =
      complete_step p i metadata findings db fetched inspected run
        (complete_scan clock p i metadata.latest_version.version findings db)
        (Completed-complete_scan clock p i metadata.latest_version.version findings db run)
  inspect_step p i metadata db fetched run (err e) inspected = run

  versions_step :
      (p i : ℕ) (metadata : PackageRegistryMetadata) (db : Db)
      → ports.fetch_metadata name ≡ ok metadata
      → Running p i db
      → (r : Result (Unit {0} × Db)) → Holds (λ _ after. Running p i after) r
      → Steps p i (
          and_then (commit_or_rollback db r) λ _ db2.
            and_then
              (inspect ports metadata, db2)
              λ findings db3.
                transact (complete_scan clock p i metadata.latest_version.version findings) db3)
  unfolding and_then commit_or_rollback
  versions_step p i metadata db fetched run (ok (_, after)) h =
      inspect_step p i metadata after fetched h (inspect ports metadata) refl
  versions_step p i metadata db fetched run (err e) h = run

  fetch_step :
      (p i : ℕ) (db : Db) (r : Result PackageRegistryMetadata)
      → ports.fetch_metadata name ≡ r
      → Running p i db
      → Steps p i (
          and_then
            (r, db)
            λ metadata db1. and_then (transact (record_versions clock p i metadata) db1) λ _ db2.
              and_then
                (inspect ports metadata, db2)
                λ findings db3.
                  transact (complete_scan clock p i metadata.latest_version.version findings) db3)
  unfolding and_then transact
  fetch_step p i db (ok metadata) fetched run =
      versions_step p i metadata db fetched run (record_versions clock p i metadata db)
        (Running-record_versions clock p i metadata db run)
  fetch_step p i db (err e) fetched run = run

  Steps-scan_steps :
      (p i : ℕ) (db : Db) → Running p i db → Steps p i (scan_steps ports clock name p i db)
  unfolding scan_steps
  Steps-scan_steps p i db run = fetch_step p i db (ports.fetch_metadata name) refl run

  -- A return: the scan that was to be taken is completed as the registry and the analysis imply. A raise: nothing
  -- is changed, or that scan is failed, with the message of the exception.
  abbrev pub Ended : Db → Result (Unit {0}) × Db → Type 0
  Ended before (ok _, after) = (p : ℕ) × (i : ℕ) × Taken clock name before p i × Done p i after
  Ended before (err e, after) =
      (after ≡ before)
      ⊎ ((p : ℕ) × (i : ℕ) × Taken clock name before p i
          × Failed p i (safe_error_message class_name e) after)

  -- The same, where the scan was taken.
  abbrev pub Settled : Db → Result (Unit {0}) × Db → Type 0
  Settled before (ok _, after) = (p : ℕ) × (i : ℕ) × Taken clock name before p i × Done p i after
  Settled before (err e, after) =
      (p : ℕ) × (i : ℕ) × Taken clock name before p i
      × Failed p i (safe_error_message class_name e) after

  Ended-of_Settled : (before : Db) (r : Result (Unit {0}) × Db) → Settled before r → Ended before r
  Ended-of_Settled before (ok _, after) settled = settled
  Ended-of_Settled before (err e, after) settled = inr settled

  Settled-on_failure :
      (p i : ℕ) (before : Db) (r : Result (Unit {0}) × Db)
      → Taken clock name before p i
      → Steps p i r
      → Settled before (on_failure class_name clock i r)
  unfolding on_failure
  Settled-on_failure p i before (ok _, after) taken done = (p, i, taken, done)
  Settled-on_failure p i before (err e, after) taken run = (
    p,
    i,
    taken,
    Failed-mark_scan_failed clock.failed_at p i (safe_error_message class_name e) after run,
  )

  Ended-begin :
      (before : Db) (r : Result ((ℕ × ℕ) × Db))
      → Holds (λ keys after. Running keys.0 keys.1 after × Taken clock name before keys.0 keys.1) r
      → Ended before (
          and_then (commit_or_rollback before r) λ keys db1.
            on_failure class_name clock keys.1 (scan_steps ports clock name keys.0 keys.1 db1))
  unfolding and_then commit_or_rollback
  Ended-begin before (ok ((p, i), db)) (run, taken) =
      Ended-of_Settled before (on_failure class_name clock i (scan_steps ports clock name p i db)) (
        Settled-on_failure p i before (scan_steps ports clock name p i db) taken
          (Steps-scan_steps p i db run))
  Ended-begin before (err e) h = inl refl

  -- If no two scan results have the same key, then the scan that is to be taken is the oldest of the package of that
  -- name that waits unlocked, or a new one where none waits. If the use case returns, the registry answered and the
  -- analysis gave findings, that scan is completed with the score and the level of these findings and no error, and
  -- the findings that the tables have for it are these. If it raises, either every table is as it was, or that scan is
  -- failed with the safe message of the exception.
  pub execute-Ended : (db : Db) → UniqueScans db → Ended db (execute ports class_name clock name db)
  unfolding execute transact
  execute-Ended db u = Ended-begin db (begin_scan clock name db) (
      Holds-both (λ keys after. Running keys.0 keys.1 after)
        (λ keys after. Taken clock name db keys.0 keys.1) (begin_scan clock name db)
        (Running-begin_scan clock name db u) (Taken-begin_scan clock name db u))

  Settled-begin :
      (before : Db) (r : Result ((ℕ × ℕ) × Db)) {keys : ℕ × ℕ} {db : Db}
      → r ≡ ok (keys, db)
      → Holds (λ keys after. Running keys.0 keys.1 after × Taken clock name before keys.0 keys.1) r
      → Settled before (
          and_then (commit_or_rollback before r) λ keys db1.
            on_failure class_name clock keys.1 (scan_steps ports clock name keys.0 keys.1 db1))
  unfolding and_then commit_or_rollback
  Settled-begin before (ok ((p, i), db)) began (run, taken) =
      Settled-on_failure p i before (scan_steps ports clock name p i db) taken
        (Steps-scan_steps p i db run)
  Settled-begin before (err e) began h = absurd (cc began)

  -- Where the first transaction returns, the scan that was to be taken is completed or failed.
  pub Settled-execute :
      (db : Db) {keys : ℕ × ℕ} {after : Db}
      → UniqueScans db
      → begin_scan clock name db ≡ ok (keys, after)
      → Settled db (execute ports class_name clock name db)
  unfolding execute transact
  Settled-execute db {keys} {after} u began =
      Settled-begin db (begin_scan clock name db) {keys = keys} {db = after} began (
        Holds-both (λ keys after. Running keys.0 keys.1 after)
          (λ keys after. Taken clock name db keys.0 keys.1) (begin_scan clock name db)
          (Running-begin_scan clock name db u) (Taken-begin_scan clock name db u))
