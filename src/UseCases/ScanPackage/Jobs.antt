-- ===== src/UseCases/ScanPackage/Jobs.antt =====
-- A scan leaves the jobs of the queue alone.
use npm_sentinel.Base.{
  ℕ, String, ◌≡◌, refl, ◌∙◌, inl, inr, Bool, not, ◌&&◌, Option, none, some, List, map, ◌==◌,
  Bool-cases, Option-cases, all, true,
}
use npm_sentinel.Core.Exceptions.{Result, ok, err}
use npm_sentinel.Domain.Findings.{Finding}
use npm_sentinel.Domain.Scoring.{calculate_score, calculate_risk_level, finding_types}
use npm_sentinel.Db.Models.{
  Db, PackageVersionMetadata, FindingCreate, ScanResultModel, ScanStatus, is_running,
}
use npm_sentinel.Db.Table.{find_row, some_row, first_by}
use npm_sentinel.Db.Session.{Repo, fits, fits_opt, fits_int, has_scan_id, has_package_id}
use npm_sentinel.Db.Holds.{Holds, Holds-check, Holds-with_result, Holds-weaken}
use npm_sentinel.Db.Effects.{Upserted, Upserted-upsert_package, Created, Created-create_scan_result}
use npm_sentinel.Db.Packages.{
  upsert_package, upsert_package_version, mark_package_scanned, has_version,
}
use npm_sentinel.Db.Scans.{
  get_scan, create_scan_result, claim_next_queued_scan, set_scan_versions, update_scans,
  running_scan, mark_scan_completed, replace_findings, add_findings, fits_finding, references_scan,
  claimable, created_before, mark_scan_failed,
}
use npm_sentinel.Db.Monad.{with_result}
use npm_sentinel.Db.UnitOfWork.{transact, commit_or_rollback}
use npm_sentinel.UseCases.ScanPackage.{
  Clock, RegistryVersionMetadata, PackageRegistryMetadata, to_repository_metadata,
  to_finding_create, claim_or_create, begin_scan, upsert_previous, record_versions, complete_scan,
  version_of,
}

abbrev pub SameJobs : {A : Type 0} → Db → A → Db → Type 0
SameJobs before _ after = after.queue_jobs ≡ before.queue_jobs

-- Operations, one after the other, each of which leaves the jobs alone.
SameJobs-then :
    {A B : Type 0} (before : Db) (f : A → Db → Result (B × Db)) (r : Result (A × Db))
    → Holds (SameJobs before) r
    → ((a : A) (db : Db) → Holds (SameJobs db) (f a db))
    → Holds (SameJobs before) (with_result f r)
SameJobs-then before f r h next =
    Holds-with_result (SameJobs before) (SameJobs before) f r h λ a db same.
      Holds-weaken (SameJobs db) (SameJobs before) (f a db) (next a db)
        λ b after same_after. same_after ∙ same

pub SameJobs-upsert_package :
    (now i : ℕ) (name : String) (db : Db) → Holds (SameJobs db) (upsert_package now i name db)
SameJobs-upsert_package now i name db =
    Holds-weaken (Upserted name db) (SameJobs db) (upsert_package now i name db)
      (Upserted-upsert_package now i name db) λ p after (_, _, same). same

SameJobs-upsert_package_version :
    (now i p : ℕ) (v : String) (m : PackageVersionMetadata) (db : Db)
    → Holds (SameJobs db) (upsert_package_version now i p v m db)
unfolding upsert_package_version
SameJobs-upsert_package_version now i p v m db =
    Holds-check (SameJobs db) (fits 128 v && (fits_int m.unpacked_size && fits_int m.file_count)) _
      λ _. Holds-check (SameJobs db) (some_row (has_package_id p) db.packages) _ λ _.
        elim (Option-cases (find_row (has_version p v) db.versions)) [
          | inl new ↦
              rw (new, upsert_package_version)
                (Holds-check (SameJobs db) (not (some_row (λ w. w.id == i) db.versions)) _
                  λ _. refl)
          | inr (p, old) ↦ rw (old, upsert_package_version) refl
        ]

SameJobs-claim_next_queued_scan :
    (locked : ℕ → Bool) (now p : ℕ) (db : Db)
    → Holds (SameJobs db) (claim_next_queued_scan locked now p db)
unfolding claim_next_queued_scan
SameJobs-claim_next_queued_scan locked now p db =
    elim (Option-cases (first_by created_before (claimable locked p) db.scan_results)) [
      | inl nothing ↦ rw (nothing, claim_next_queued_scan) refl
      | inr (b, best) ↦ rw (best, claim_next_queued_scan) refl
    ]

SameJobs-claim_or_create :
    (clock : Clock) (p : ℕ) (queued : Option ScanResultModel) (db : Db)
    → Holds (SameJobs db) (claim_or_create clock p queued db)
unfolding claim_or_create
SameJobs-claim_or_create clock p none db =
    Holds-weaken (Created clock.new_scan_id p ScanStatus.running db) (SameJobs db)
      (create_scan_result clock.claimed_at clock.new_scan_id p none none ScanStatus.running db)
      (Created-create_scan_result clock.claimed_at clock.new_scan_id p none none ScanStatus.running
        db)
      λ s after (_, _, _, _, _, _, same). same
SameJobs-claim_or_create clock p (some s) db = refl

SameJobs-set_scan_versions :
    (i : ℕ) (latest : String) (previous : Option String) (db : Db)
    → Holds (SameJobs db) (set_scan_versions i latest previous db)
unfolding set_scan_versions
SameJobs-set_scan_versions i latest previous db = elim (Option-cases (get_scan i db)) [
  | inl nothing ↦ rw (nothing, set_scan_versions) tt
  | inr (b, there) ↦ elim (Bool-cases (is_running b.status)) [
    | inl run ↦
        rw (there, run, set_scan_versions)
          (Holds-check (SameJobs db) (fits 128 latest && fits_opt 128 previous) _ λ _. refl)
    | inr idle ↦ rw (there, idle, set_scan_versions) refl
  ]
]

SameJobs-update_scans :
    (i : ℕ) (accepted : Bool) (f : ScanResultModel → ScanResultModel) (db : Db)
    → Holds (SameJobs db) (update_scans i accepted f db)
unfolding update_scans
SameJobs-update_scans i accepted f db =
    elim (Bool-cases (some_row (running_scan i) db.scan_results)) [
      | inl hit ↦ rw (hit, update_scans) (Holds-check (SameJobs db) accepted _ λ _. refl)
      | inr miss ↦ elim (Bool-cases (some_row (has_scan_id i) db.scan_results)) [
        | inl there ↦ rw (miss, there, update_scans) refl
        | inr gone ↦ rw (miss, gone, update_scans) tt
      ]
    ]

pub SameJobs-mark_scan_failed :
    (now i : ℕ) (message : String) (db : Db)
    → Holds (SameJobs db) (mark_scan_failed now i message db)
unfolding mark_scan_failed
SameJobs-mark_scan_failed now i message db =
    SameJobs-update_scans i true
      (λ s. record s {
        status = ScanStatus.failed;
        error_message = some message;
        finished_at = some now;
      })
      db

SameJobs-replace_findings :
    (now : ℕ) (ids : ℕ → ℕ) (i : ℕ) (fs : List FindingCreate) (db : Db)
    → Holds (SameJobs db) (replace_findings now ids i fs db)
unfolding replace_findings add_findings
SameJobs-replace_findings now ids i fs db =
    Holds-check (SameJobs db) (all fits_finding fs) _
      λ _. Holds-check (SameJobs db) (references_scan i fs _) _ λ _. refl

SameJobs-mark_package_scanned :
    (now p : ℕ) (v : String) (db : Db) → Holds (SameJobs db) (mark_package_scanned now p v db)
unfolding mark_package_scanned
SameJobs-mark_package_scanned now p v db =
    elim (Bool-cases (some_row (has_package_id p) db.packages)) [
      | inl there ↦
          rw (there, mark_package_scanned) (Holds-check (SameJobs db) (fits 128 v) _ λ _. refl)
      | inr gone ↦ rw (gone, mark_package_scanned) tt
    ]

pub SameJobs-begin_scan :
    (clock : Clock) (name : String) (db : Db) → Holds (SameJobs db) (begin_scan clock name db)
unfolding begin_scan
SameJobs-begin_scan clock name db =
    SameJobs-then db _ (upsert_package clock.claimed_at clock.new_package_id name db)
      (SameJobs-upsert_package clock.claimed_at clock.new_package_id name db)
      λ p db1.
        SameJobs-then db1 _ (claim_next_queued_scan clock.locked clock.claimed_at p.id db1)
          (SameJobs-claim_next_queued_scan clock.locked clock.claimed_at p.id db1)
          λ queued db2.
            SameJobs-then db2 _ (claim_or_create clock p.id queued db2)
              (SameJobs-claim_or_create clock p.id queued db2) λ s db3. refl

SameJobs-upsert_previous :
    (clock : Clock) (p : ℕ) (previous : Option RegistryVersionMetadata) (db : Db)
    → Holds (SameJobs db) (upsert_previous clock p previous db)
unfolding upsert_previous
SameJobs-upsert_previous clock p none db = refl
SameJobs-upsert_previous clock p (some v) db =
    SameJobs-then db _
      (upsert_package_version clock.versions_at clock.new_previous_id p v.version
        (to_repository_metadata v) db)
      (SameJobs-upsert_package_version clock.versions_at clock.new_previous_id p v.version
        (to_repository_metadata v) db)
      λ _ after. refl

pub SameJobs-record_versions :
    (clock : Clock) (p i : ℕ) (metadata : PackageRegistryMetadata) (db : Db)
    → Holds (SameJobs db) (record_versions clock p i metadata db)
unfolding record_versions
SameJobs-record_versions clock p i metadata db =
    let latest = metadata.latest_version in
    SameJobs-then db _
      (upsert_package_version clock.versions_at clock.new_latest_id p latest.version
        (to_repository_metadata latest) db)
      (SameJobs-upsert_package_version clock.versions_at clock.new_latest_id p latest.version
        (to_repository_metadata latest) db)
      λ _ db1.
        SameJobs-then db1 _ (upsert_previous clock p metadata.previous_version db1)
          (SameJobs-upsert_previous clock p metadata.previous_version db1)
          λ _ db2.
            SameJobs-set_scan_versions i latest.version (version_of metadata.previous_version) db2

pub SameJobs-complete_scan :
    (clock : Clock) (p i : ℕ) (version : String) (findings : List Finding) (db : Db)
    → Holds (SameJobs db) (complete_scan clock p i version findings db)
unfolding complete_scan mark_scan_completed
SameJobs-complete_scan clock p i version findings db =
    let rows = map to_finding_create findings in
    let score = calculate_score (finding_types findings) in
    SameJobs-then db _ (replace_findings clock.completed_at clock.new_finding_id i rows db)
      (SameJobs-replace_findings clock.completed_at clock.new_finding_id i rows db)
      λ _ db1.
        SameJobs-then db1 _
          (mark_scan_completed clock.completed_at i score (calculate_risk_level score) db1)
          (SameJobs-update_scans i _ _ db1)
          λ _ db2. SameJobs-mark_package_scanned clock.completed_at p version db2

SameJobs-commit :
    {A : Type 0} (db : Db) (r : Result (A × Db))
    → Holds (SameJobs db) r
    → (commit_or_rollback db r).1.queue_jobs ≡ db.queue_jobs
unfolding commit_or_rollback
SameJobs-commit db (ok (a, after)) h = h
SameJobs-commit db (err e) h = refl

pub SameJobs-transact :
    {A : Type 0} (m : Repo A) (db : Db)
    → Holds (SameJobs db) (m db)
    → (transact m db).1.queue_jobs ≡ db.queue_jobs
unfolding transact commit_or_rollback
SameJobs-transact m db h = SameJobs-commit db (m db) h
