-- ===== src/UseCases/ScanPackage/Steps.antt =====
-- The three transactions of a scan, and the one after a failure, as steps of its row.
use npm_sentinel.Base.{
  ℕ, String, ◌≡◌, refl, ap, ◌∙◌, inl, inr, Bool, ◌&&◌, Option, none, some, List, map, arith,
  Bool-cases, one_of,
}
use npm_sentinel.Base.Int.{ℤ}
use npm_sentinel.Domain.Findings.{Finding}
use npm_sentinel.Domain.Scoring.{calculate_score, calculate_risk_level, finding_types}
use npm_sentinel.Db.Models.{Db, ScanResultModel, ScanStatus}
use npm_sentinel.Db.Table.{some_row, select_rows}
use npm_sentinel.Db.Session.{fits, fits_int, has_package_id}
use npm_sentinel.Db.Holds.{Holds, Holds-check, Holds-with_result, Holds-weaken}
use npm_sentinel.Db.Effects.{Upserted, Upserted-upsert_package, Created, Created-create_scan_result}
use npm_sentinel.Db.Findings.{RowsOf, Replaced, Replaced-replace_findings}
use npm_sentinel.Db.UnitOfWork.{transact, commit_or_rollback}
use npm_sentinel.Db.Claims.{claim_next_queued_scan-Oldest}
use npm_sentinel.Db.Lifecycle.{UniqueScans}
use npm_sentinel.Db.Packages.{upsert_package, upsert_package_version, mark_package_scanned}
use npm_sentinel.Db.Scans.{
  get_scan, create_scan_result, claim_next_queued_scan, update_scans, mark_scan_completed,
  mark_scan_failed, replace_findings, of_scan, risk_levels,
}
use npm_sentinel.UseCases.ScanPackage.{
  Clock, RegistryVersionMetadata, PackageRegistryMetadata, to_repository_metadata,
  to_finding_create, claim_or_create, begin_scan, upsert_previous, record_versions, complete_scan,
  version_of,
}
use npm_sentinel.UseCases.ScanPackage.Transactions.{
  Running, SameScans, Running-same, SameScans-upsert_package_version, get_scan-with_scan,
  some_row-running, Running-set_scan_versions, Completed, Failed,
}

-- The claim leaves everything as it is, or returns a scan of the package that now runs.
unfoldable Claimed : ℕ → Db → Option ScanResultModel → Db → Type 0
Claimed p before none after = after ≡ before
Claimed p before (some s) after =
    (get_scan s.id after ≡ some s) × (s.package_id ≡ p) × (s.status ≡ ScanStatus.running)

Claimed-claim_next_queued_scan :
    (locked : ℕ → Bool) (now p : ℕ) (db : Db)
    → UniqueScans db
    → Holds (Claimed p db) (claim_next_queued_scan locked now p db)
unfolding Claimed
Claimed-claim_next_queued_scan locked now p db u =
    elim (claim_next_queued_scan-Oldest locked now p db u) [
      | inl (nothing, _) ↦ rw nothing refl
      | inr (r, (may, _, _), result, there) ↦ rw result (there, ground arith, refl)
    ]

Running-claim_or_create :
    (clock : Clock) (p : ℕ) (queued : Option ScanResultModel) (before db : Db)
    → Claimed p before queued db
    → Holds (λ s after. Running p s.id after) (claim_or_create clock p queued db)
unfolding claim_or_create Claimed
Running-claim_or_create clock p none before db h =
    Holds-weaken (Created clock.new_scan_id p ScanStatus.running db)
      (λ s after. Running p s.id after)
      (create_scan_result clock.claimed_at clock.new_scan_id p none none ScanStatus.running db)
      (Created-create_scan_result clock.claimed_at clock.new_scan_id p none none ScanStatus.running
        db)
      λ s after (key, of_package, runs, there, _, _, _).
        (s, ap (λ i. get_scan i after) key ∙ there, of_package, runs)
Running-claim_or_create clock p (some s) before db (there, of_package, runs) =
    (s, there, of_package, runs)

-- The keys that the first transaction returns are of a package under the name, and of a scan of it that runs.
pub Running-begin_scan :
    (clock : Clock) (name : String) (db : Db)
    → UniqueScans db
    → Holds (λ keys after. Running keys.0 keys.1 after) (begin_scan clock name db)
unfolding begin_scan
Running-begin_scan clock name db u =
    let P : ℕ × ℕ → Db → Type 0 = λ keys after. Running keys.0 keys.1 after in
    Holds-with_result (Upserted name db) P _
      (upsert_package clock.claimed_at clock.new_package_id name db)
      (Upserted-upsert_package clock.claimed_at clock.new_package_id name db)
      λ p db1 (named, scans1, jobs1).
        Holds-with_result (Claimed p.id db1) P _
          (claim_next_queued_scan clock.locked clock.claimed_at p.id db1)
          (Claimed-claim_next_queued_scan clock.locked clock.claimed_at p.id db1 (rw scans1 u))
          λ queued db2 claim.
            Holds-with_result (λ s after. Running p.id s.id after) P _
              (claim_or_create clock p.id queued db2)
              (Running-claim_or_create clock p.id queued db1 db2 claim) λ s db3 runs. runs

SameScans-upsert_previous :
    (clock : Clock) (p : ℕ) (previous : Option RegistryVersionMetadata) (db : Db)
    → Holds (SameScans db) (upsert_previous clock p previous db)
unfolding upsert_previous
SameScans-upsert_previous clock p none db = refl
SameScans-upsert_previous clock p (some v) db =
    Holds-with_result (SameScans db) (SameScans db) _
      (upsert_package_version clock.versions_at clock.new_previous_id p v.version
        (to_repository_metadata v) db)
      (SameScans-upsert_package_version clock.versions_at clock.new_previous_id p v.version
        (to_repository_metadata v) db)
      λ _ after same. same

-- The second transaction leaves the scan running.
pub Running-record_versions :
    (clock : Clock) (p i : ℕ) (metadata : PackageRegistryMetadata) (db : Db)
    → Running p i db
    → Holds (λ _ after. Running p i after) (record_versions clock p i metadata db)
unfolding record_versions
Running-record_versions clock p i metadata db run =
    let latest = metadata.latest_version in
    Holds-with_result (SameScans db) (λ _ after. Running p i after) _
      (upsert_package_version clock.versions_at clock.new_latest_id p latest.version
        (to_repository_metadata latest) db)
      (SameScans-upsert_package_version clock.versions_at clock.new_latest_id p latest.version
        (to_repository_metadata latest) db)
      λ _ db1 same1.
        Holds-with_result (SameScans db1) (λ _ after. Running p i after) _
          (upsert_previous clock p metadata.previous_version db1)
          (SameScans-upsert_previous clock p metadata.previous_version db1)
          λ _ db2 same2.
            Running-set_scan_versions p i latest.version (version_of metadata.previous_version) db2
              (Running-same p i db1 db2 same2 (Running-same p i db db1 same1 run))

Unchanged-mark_package_scanned :
    (now p : ℕ) (v : String) (db : Db)
    → Holds
        (λ _ after. (after.scan_results ≡ db.scan_results) × (after.findings ≡ db.findings))
        (mark_package_scanned now p v db)
unfolding mark_package_scanned
Unchanged-mark_package_scanned now p v db =
    elim (Bool-cases (some_row (has_package_id p) db.packages)) [
      | inl there ↦
          rw (there, mark_package_scanned)
            (Holds-check
              (λ _ after. (after.scan_results ≡ db.scan_results) × (after.findings ≡ db.findings))
              (fits 128 v) _ λ _. (refl, refl))
      | inr gone ↦ rw (gone, mark_package_scanned) tt
    ]

Completed-mark_scan_completed :
    (now p i : ℕ) (score : ℤ) (db : Db)
    → Running p i db
    → Holds
        (λ _ after. Completed p i score after × (after.findings ≡ db.findings))
        (mark_scan_completed now i score (calculate_risk_level score) db)
unfolding mark_scan_completed update_scans
Completed-mark_scan_completed now p i score db (s, there, of_package, runs) =
    let f : ScanResultModel → ScanResultModel = λ r. record r {
      status = ScanStatus.completed;
      score = some score;
      risk_level = calculate_risk_level score;
      error_message = none;
      finished_at = some now;
    } in
    rw (some_row-running i db s there (rw runs refl), update_scans)
      (Holds-check (λ _ after. Completed p i score after × (after.findings ≡ db.findings))
        (fits_int (some score) && one_of risk_levels (calculate_risk_level score)) _
        λ _. (
          (
            f s,
            get_scan-with_scan i db f (λ a. refl) s there (rw runs refl),
            of_package,
            refl,
            refl,
            refl,
            refl,
          ),
          refl,
        ))

-- The transaction after a failure returns, and the scan is failed.
pub Failed-mark_scan_failed :
    (now p i : ℕ) (message : String) (db : Db)
    → Running p i db
    → Failed p i message (transact (mark_scan_failed now i message) db).1
unfolding mark_scan_failed update_scans transact commit_or_rollback
Failed-mark_scan_failed now p i message db (s, there, of_package, runs) =
    let f : ScanResultModel → ScanResultModel = λ r. record r {
      status = ScanStatus.failed;
      error_message = some message;
      finished_at = some now;
    } in
    rw (some_row-running i db s there (rw runs refl), update_scans)
      (f s, get_scan-with_scan i db f (λ a. refl) s there (rw runs refl), of_package, refl, refl)

-- The findings of the scan are those given, and no others.
abbrev pub Saved : ℕ → (ℕ → ℕ) → ℕ → List Finding → Db → Type 0
Saved now ids i findings db =
    RowsOf now ids i (map to_finding_create findings) (select_rows (of_scan i) db.findings)

-- The third transaction, if it returns, has completed the scan and saved its findings.
pub Completed-complete_scan :
    (clock : Clock) (p i : ℕ) (version : String) (findings : List Finding) (db : Db)
    → Running p i db
    → Holds
        (λ _ after.
          Completed p i (calculate_score (finding_types findings)) after
          × Saved clock.completed_at clock.new_finding_id i findings after)
        (complete_scan clock p i version findings db)
unfolding complete_scan get_scan
Completed-complete_scan clock p i version findings db run =
    let now = clock.completed_at in
    let ids = clock.new_finding_id in
    let rows = map to_finding_create findings in
    let score = calculate_score (finding_types findings) in
    let P : Unit {0} → Db → Type 0 =
      λ _ after. Completed p i score after × Saved now ids i findings after in
    Holds-with_result (Replaced now ids i rows db) P _ (replace_findings now ids i rows db)
      (Replaced-replace_findings now ids i rows db)
      λ _ db1 (same, saved, _).
        Holds-with_result (λ _ after. Completed p i score after × (after.findings ≡ db1.findings)) P
          _ (mark_scan_completed now i score (calculate_risk_level score) db1)
          (Completed-mark_scan_completed now p i score db1 (Running-same p i db db1 same run))
          λ _ db2 ((s, there, a, b, c, d, e), kept).
            Holds-weaken
              (λ _ after. (after.scan_results ≡ db2.scan_results) × (after.findings ≡ db2.findings))
              P (mark_package_scanned now p version db2)
              (Unchanged-mark_package_scanned now p version db2)
              λ _ db3 (scans3, findings3).
                ((s, rw scans3 there, a, b, c, d, e), rw (findings3, kept) saved)
