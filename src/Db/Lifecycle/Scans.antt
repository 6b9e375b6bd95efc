-- ===== src/Db/Lifecycle/Scans.antt =====
-- What each operation on scan results does to the rows that are there.
use npm_sentinel.Base.{
  ℕ, String, ◌≡◌, refl, inl, inr, Bool, true, false, not, ◌&&◌, Option, none, some, [], ◌∷◌, ◌++◌,
  arith, ◌==◌, Bool-cases, Option-cases, and_true, one_of,
}
use npm_sentinel.Core.Exceptions.{ok}
use npm_sentinel.Base.Int.{ℤ}
use npm_sentinel.Db.Models.{Db, ScanStatus, ScanResultModel, is_running, is_queued}
use npm_sentinel.Db.Table.{
  update_where, some_row, find_row-append, first_by, first_by-found, find_row-meets, Unique-append,
}
use npm_sentinel.Db.Session.{has_scan_id, has_package_id, fits, fits_opt, fits_int}
use npm_sentinel.Db.Scans.{
  get_scan, create_scan_result, claim_next_queued_scan, set_scan_versions, update_scans,
  mark_scan_completed, mark_scan_failed, claimable, claimed, created_before, running_scan,
  risk_levels,
}
use npm_sentinel.Db.Lifecycle.{
  Evolves, Evolves-refl, Keeps, Keeps-refl, Keeps-update_where, UniqueScans, After, After-check,
  is_final,
}

After-update_scans :
    (i : ℕ) (accepted : Bool) (f : ScanResultModel → ScanResultModel) (db : Db)
    → UniqueScans db
    → ((a : ScanResultModel) → (f a).id ≡ a.id)
    → ((r : ScanResultModel) → is_running r.status ≡ true → Evolves r (f r))
    → After db (update_scans i accepted f db)
unfolding update_scans
After-update_scans i accepted f db u same_id evolves =
    elim (Bool-cases (some_row (running_scan i) db.scan_results)) [
      | inl hit ↦
          rw (hit, update_scans)
            (After-check db accepted
              (ok
                (tt, record db { scan_results = update_where (running_scan i) f db.scan_results }))
              (λ _.
                Keeps-update_where (running_scan i) f db u same_id
                  (λ j r h m. evolves r (and_true (r.id == i) (is_running r.status) m).1)))
      | inr miss ↦ elim (Bool-cases (some_row (has_scan_id i) db.scan_results)) [
        | inl there ↦ rw (miss, there, update_scans) (Keeps-refl db u)
        | inr gone ↦ rw (miss, gone, update_scans) tt
      ]
    ]

-- Ending a running scan.
ended :
    (r : ScanResultModel) (s : ScanResultModel)
    → is_running r.status ≡ true
    → s.id ≡ r.id
    → s.package_id ≡ r.package_id
    → s.created_at ≡ r.created_at
    → is_final s.status ≡ true
    → Evolves r s
ended r s run a b c final = record {
  same_id = a;
  same_package = b;
  same_creation = c;
  forward = ground arith;
  final = λ h. absurd (ground arith);
}

completed_row : ℕ → ℤ → String → ScanResultModel → ScanResultModel
completed_row now score level s = record s {
  status = ScanStatus.completed;
  score = some score;
  risk_level = level;
  error_message = none;
  finished_at = some now;
}

failed_row : ℕ → String → ScanResultModel → ScanResultModel
failed_row now message s = record s {
  status = ScanStatus.failed;
  error_message = some message;
  finished_at = some now;
}

pub After-mark_scan_completed :
    (now i : ℕ) (score : ℤ) (level : String) (db : Db)
    → UniqueScans db
    → After db (mark_scan_completed now i score level db)
unfolding mark_scan_completed completed_row
After-mark_scan_completed now i score level db u =
    After-update_scans i (fits_int (some score) && one_of risk_levels level)
      (completed_row now score level) db u (λ a. refl)
      (λ r run. ended r (completed_row now score level r) run refl refl refl refl)

pub After-mark_scan_failed :
    (now i : ℕ) (message : String) (db : Db)
    → UniqueScans db
    → After db (mark_scan_failed now i message db)
unfolding mark_scan_failed failed_row
After-mark_scan_failed now i message db u =
    After-update_scans i true (failed_row now message) db u (λ a. refl)
      (λ r run. ended r (failed_row now message r) run refl refl refl refl)

-- A row that is found by its key is the only one with that key.
found_once :
    (i j : ℕ) (db : Db) {a b : ScanResultModel}
    → get_scan i db ≡ some a
    → get_scan j db ≡ some b
    → (a.id == j) ≡ true
    → a ≡ b
unfolding get_scan
found_once i j db {a} {b} ha hb m =
    let k = find_row-meets (has_scan_id i) {r = a} db.scan_results ha in
    let e : i ≡ j = ground arith in let again : get_scan i db ≡ some b = rw e hb in cc (ha, again)

started : (now : ℕ) (r : ScanResultModel) → is_queued r.status ≡ true → Evolves r (claimed now r)
started now r h = record {
  same_id = refl;
  same_package = refl;
  same_creation = refl;
  forward = ground arith;
  final = λ f. absurd (ground arith);
}

claimed_was_queued :
    (locked : ℕ → Bool) (p i : ℕ) (db : Db) {r b : ScanResultModel}
    → get_scan i db ≡ some r
    → get_scan b.id db ≡ some b
    → claimable locked p b ≡ true
    → (r.id == b.id) ≡ true
    → is_queued r.status ≡ true
claimed_was_queued locked p i db {r} {b} h found may m =
    let same : r ≡ b = found_once i b.id db {a = r} {b = b} h found m in rw same (ground arith)

reversioned : String → Option String → ScanResultModel → ScanResultModel
reversioned latest previous s = record s {
  latest_version = some latest;
  previous_version = previous;
}

reversioned-Evolves :
    (latest : String) (previous : Option String) (r : ScanResultModel)
    → is_running r.status ≡ true
    → Evolves r (reversioned latest previous r)
unfolding reversioned
reversioned-Evolves latest previous r run = record {
  same_id = refl;
  same_package = refl;
  same_creation = refl;
  forward = omega arith;
  final = λ f. absurd (ground arith);
}

pub After-claim :
    (locked : ℕ → Bool) (now p : ℕ) (db : Db)
    → UniqueScans db
    → After db (claim_next_queued_scan locked now p db)
unfolding claim_next_queued_scan get_scan
After-claim locked now p db u =
    elim (Option-cases (first_by created_before (claimable locked p) db.scan_results)) [
      | inl nothing ↦ rw (nothing, claim_next_queued_scan) (Keeps-refl db u)
      | inr (b, best) ↦
          let (found, may) =
            first_by-found (λ r. r.id) created_before (claimable locked p) db.scan_results {r = b} u
              best in
          rw (best, claim_next_queued_scan)
            (Keeps-update_where (has_scan_id b.id) (claimed now) db u (λ a. refl)
              (λ i r h m.
                started now r (claimed_was_queued locked p i db {r = r} {b = b} h found may m)))
    ]

pub After-set_scan_versions :
    (i : ℕ) (latest : String) (previous : Option String) (db : Db)
    → UniqueScans db
    → After db (set_scan_versions i latest previous db)
unfolding set_scan_versions reversioned
After-set_scan_versions i latest previous db u = elim (Option-cases (get_scan i db)) [
  | inl nothing ↦ rw (nothing, set_scan_versions) tt
  | inr (b, there) ↦ elim (Bool-cases (is_running b.status)) [
    | inl run ↦
        rw (there, run, set_scan_versions)
          (After-check db (fits 128 latest && fits_opt 128 previous)
            (ok (
              tt,
              record db {
                scan_results =
                    update_where (has_scan_id i) (reversioned latest previous) db.scan_results;
              },
            ))
            (λ _.
              Keeps-update_where (has_scan_id i) (reversioned latest previous) db u (λ a. refl)
                (λ j r h m.
                  reversioned-Evolves latest previous r (
                    let same : r ≡ b = found_once j i db {a = r} {b = b} h there m in
                    rw same run))))
    | inr idle ↦ rw (there, idle, set_scan_versions) (Keeps-refl db u)
  ]
]

Keeps-append :
    (r : ScanResultModel) (db : Db)
    → UniqueScans db
    → some_row (has_scan_id r.id) db.scan_results ≡ false
    → Keeps db (record db { scan_results = db.scan_results ++ r ∷ [] })
unfolding get_scan
Keeps-append r db u fresh = (
  Unique-append (λ s. s.id) db.scan_results r u fresh,
  λ i s there. (
    s,
    rw (find_row-append (has_scan_id i) db.scan_results (r ∷ []), there) refl,
    Evolves-refl s,
  ),
)

pub After-create_scan_result :
    (now i p : ℕ) (latest previous : Option String) (status : ScanStatus) (db : Db)
    → UniqueScans db
    → After db (create_scan_result now i p latest previous status db)
unfolding create_scan_result
After-create_scan_result now i p latest previous status db u =
    After-check db (fits_opt 128 latest && fits_opt 128 previous) _ λ _.
      After-check db (some_row (has_package_id p) db.packages) _ λ _.
        After-check db (not (some_row (has_scan_id i) db.scan_results)) _
          λ fresh. Keeps-append _ db u (ground arith)
