-- ===== src/UseCases/ScanPackage/Transactions.antt =====
-- What the three transactions of a scan, and the one after a failure, do to its row.
use npm_sentinel.Base.{
  ℕ, String, ◌≡◌, refl, inl, inr, true, not, ◌&&◌, Option, none, some, ◌==◌, Option-cases,
}
use npm_sentinel.Base.Int.{ℤ}
use npm_sentinel.Domain.Scoring.{calculate_risk_level}
use npm_sentinel.Db.Models.{Db, ScanResultModel, ScanStatus, PackageVersionMetadata, is_running}
use npm_sentinel.Db.Table.{
  find_row, some_row, find_row-update_where, update_where, some_row_of_find_row, find_row-meets,
}
use npm_sentinel.Db.Session.{fits, fits_opt, fits_int, has_scan_id, has_package_id}
use npm_sentinel.Db.Holds.{Holds, Holds-check}
use npm_sentinel.Db.Packages.{upsert_package_version, has_version}
use npm_sentinel.Db.Scans.{get_scan, set_scan_versions, running_scan}

-- The scan with the key is of the package, and runs.
abbrev pub Running : ℕ → ℕ → Db → Type 0
Running package_id i db =
    (s : ScanResultModel) × (get_scan i db ≡ some s)
    × (s.package_id ≡ package_id)
    × (s.status ≡ ScanStatus.running)

abbrev pub SameScans : {A : Type 0} → Db → A → Db → Type 0
SameScans before _ after = after.scan_results ≡ before.scan_results

pub Running-same :
    (p i : ℕ) (before after : Db)
    → after.scan_results ≡ before.scan_results
    → Running p i before
    → Running p i after
unfolding get_scan
Running-same p i before after same (s, there, of_package, runs) =
    (s, rw same there, of_package, runs)

pub SameScans-upsert_package_version :
    (now i p : ℕ) (v : String) (m : PackageVersionMetadata) (db : Db)
    → Holds (SameScans db) (upsert_package_version now i p v m db)
unfolding upsert_package_version
SameScans-upsert_package_version now i p v m db =
    Holds-check (SameScans db) (fits 128 v && (fits_int m.unpacked_size && fits_int m.file_count)) _
      λ _. Holds-check (SameScans db) (some_row (has_package_id p) db.packages) _ λ _.
        elim (Option-cases (find_row (has_version p v) db.versions)) [
          | inl new ↦
              rw (new, upsert_package_version)
                (Holds-check (SameScans db) (not (some_row (λ w. w.id == i) db.versions)) _
                  λ _. refl)
          | inr (p, old) ↦ rw (old, upsert_package_version) refl
        ]

pub some_row-running :
    (i : ℕ) (db : Db) (s : ScanResultModel)
    → get_scan i db ≡ some s
    → is_running s.status ≡ true
    → some_row (running_scan i) db.scan_results ≡ true
unfolding get_scan
some_row-running i db s there runs =
    let named = find_row-meets (has_scan_id i) {r = s} db.scan_results there in
    some_row_of_find_row (has_scan_id i) (running_scan i) {r = s} db.scan_results there
      (rw (named, runs) refl)

-- An update of a scan that runs, in a way that keeps its key and its package.
module _ (i : ℕ) (db : Db) (f : ScanResultModel → ScanResultModel)
    (same_id : (a : ScanResultModel) → (f a).id ≡ a.id) where
  -- The tables after it.
  abbrev pub with_scan : Db
  with_scan = record db { scan_results = update_where (running_scan i) f db.scan_results }

  pub get_scan-with_scan :
      (s : ScanResultModel)
      → get_scan i db ≡ some s
      → is_running s.status ≡ true
      → get_scan i with_scan ≡ some (f s)
  unfolding get_scan
  get_scan-with_scan s there runs =
      let named = find_row-meets (has_scan_id i) {r = s} db.scan_results there in
      let hit : running_scan i s ≡ true = rw (named, runs) refl in
      rw
        (
          find_row-update_where (has_scan_id i) (running_scan i) f db.scan_results
              (λ a. rw (same_id a) refl),
          there,
          hit,
        )
        refl

pub Running-set_scan_versions :
    (p i : ℕ) (latest : String) (previous : Option String) (db : Db)
    → Running p i db
    → Holds (λ _ after. Running p i after) (set_scan_versions i latest previous db)
unfolding set_scan_versions get_scan
Running-set_scan_versions p i latest previous db (s, there, of_package, runs) =
    let f : ScanResultModel → ScanResultModel =
      λ s. record s { latest_version = some latest; previous_version = previous } in
    let named = find_row-meets (has_scan_id i) {r = s} db.scan_results there in
    rw (there, runs, set_scan_versions)
      (Holds-check (λ _ after. Running p i after) (fits 128 latest && fits_opt 128 previous) _
        λ _. (
          f s,
          rw
              (
                find_row-update_where (has_scan_id i) (has_scan_id i) f db.scan_results (λ a. refl),
                there,
                named,
              )
              refl,
          of_package,
          runs,
        ))

-- The row of the scan after it is completed, with its score and its level.
abbrev pub Completed : ℕ → ℕ → ℤ → Db → Type 0
Completed package_id i score db =
    (s : ScanResultModel) × (get_scan i db ≡ some s)
    × (s.package_id ≡ package_id)
    × (s.status ≡ ScanStatus.completed)
    × (s.score ≡ some score)
    × (s.risk_level ≡ calculate_risk_level score)
    × (s.error_message ≡ none)

abbrev pub Failed : ℕ → ℕ → String → Db → Type 0
Failed package_id i message db =
    (s : ScanResultModel) × (get_scan i db ≡ some s)
    × (s.package_id ≡ package_id)
    × (s.status ≡ ScanStatus.failed)
    × (s.error_message ≡ some message)
