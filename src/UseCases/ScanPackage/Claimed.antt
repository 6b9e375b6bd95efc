-- ===== src/UseCases/ScanPackage/Claimed.antt =====
-- Which scan the first transaction of a scan takes.
use std.Path.{subst}
use npm_sentinel.Base.{
  ℕ, String, ◌≡◌, refl, ◌⊎◌, inl, inr, false, not, Option, none, some, List, Option-cases,
}
use npm_sentinel.Db.Models.{Db, PackageModel, ScanResultModel, ScanStatus}
use npm_sentinel.Db.Table.{some_row}
use npm_sentinel.Db.Session.{fits, has_package_id}
use npm_sentinel.Db.Holds.{Holds, Holds-check, Holds-with_result, Holds-weaken}
use npm_sentinel.Db.Effects.{Created, Created-create_scan_result}
use npm_sentinel.Db.Lifecycle.{UniqueScans}
use npm_sentinel.Db.Claims.{Oldest, claim_next_queued_scan-Oldest}
use npm_sentinel.Db.Packages.{get_by_name, upsert_package}
use npm_sentinel.Db.Scans.{get_scan, create_scan_result, claim_next_queued_scan, claimable}
use npm_sentinel.UseCases.ScanPackage.{Clock, claim_or_create, begin_scan}

-- The key of the package that is found, or the new one.
abbrev pub key_or : ℕ → Option PackageModel → ℕ
key_or new none = new
key_or new (some p) = p.id

-- The scan is the oldest of the package that waits unlocked; where none waits, it is a new one.
abbrev pub IsTaken : Clock → ℕ → Db → ℕ → Type 0
IsTaken clock p db i =
    ((r : ScanResultModel) × Oldest clock.locked p db r × (i ≡ r.id))
    ⊎ ((some_row (claimable clock.locked p) db.scan_results ≡ false) × (i ≡ clock.new_scan_id))

-- The package is that of the name, and the scan is one to be taken.
abbrev pub Taken : Clock → String → Db → ℕ → ℕ → Type 0
Taken clock name db p i =
    (p ≡ key_or clock.new_package_id (get_by_name name db)) × IsTaken clock p db i

abbrev Keyed : ℕ → String → Db → PackageModel → Db → Type 0
Keyed new name before p after =
    (p.id ≡ key_or new (get_by_name name before)) × (after.scan_results ≡ before.scan_results)

Keyed-upsert_package :
    (now i : ℕ) (name : String) (db : Db) → Holds (Keyed i name db) (upsert_package now i name db)
unfolding upsert_package
Keyed-upsert_package now i name db = Holds-check (Keyed i name db) (fits 255 name) _ λ _.
    elim (Option-cases (get_by_name name db)) [
      | inl new ↦
          rw (new, upsert_package)
            (Holds-check (Keyed i name db) (not (some_row (has_package_id i) db.packages)) _
              λ _. (rw new refl, refl))
      | inr (p, old) ↦ rw (old, upsert_package) (rw old refl, refl)
    ]

-- What the claim says of the scan to be taken.
abbrev Offered : Clock → ℕ → Db → Option ScanResultModel → Db → Type 0
Offered clock p before none after = some_row (claimable clock.locked p) before.scan_results ≡ false
Offered clock p before (some s) after =
    (r : ScanResultModel) × Oldest clock.locked p before r × (s.id ≡ r.id)

Offered-claim :
    (clock : Clock) (p : ℕ) (db : Db)
    → UniqueScans db
    → Holds (Offered clock p db) (claim_next_queued_scan clock.locked clock.claimed_at p db)
Offered-claim clock p db u =
    elim (claim_next_queued_scan-Oldest clock.locked clock.claimed_at p db u) [
      | inl (nothing, idle) ↦ rw nothing idle
      | inr (r, oldest, result, there) ↦ rw result (r, oldest, refl)
    ]

IsTaken-claim_or_create :
    (clock : Clock) (p : ℕ) (queued : Option ScanResultModel) (before db : Db)
    → Offered clock p before queued db
    → Holds (λ s after. IsTaken clock p before s.id) (claim_or_create clock p queued db)
unfolding claim_or_create
IsTaken-claim_or_create clock p none before db idle =
    Holds-weaken (Created clock.new_scan_id p ScanStatus.running db)
      (λ s after. IsTaken clock p before s.id)
      (create_scan_result clock.claimed_at clock.new_scan_id p none none ScanStatus.running db)
      (Created-create_scan_result clock.claimed_at clock.new_scan_id p none none ScanStatus.running
        db)
      λ s after (key, _, _, _, _, _, _). inr (idle, key)
IsTaken-claim_or_create clock p (some s) before db offered = inl offered

IsTaken-ap :
    (clock : Clock) (p i : ℕ) (db db1 : Db)
    → db1.scan_results ≡ db.scan_results
    → IsTaken clock p db1 i
    → IsTaken clock p db i
unfolding get_scan
IsTaken-ap clock p i db db1 same taken =
    subst (λ (rs : List ScanResultModel). IsTaken clock p (record db { scan_results = rs }) i) same
      taken

-- The keys that the first transaction returns are those of the package and of the scan to be taken.
pub Taken-begin_scan :
    (clock : Clock) (name : String) (db : Db)
    → UniqueScans db
    → Holds (λ keys after. Taken clock name db keys.0 keys.1) (begin_scan clock name db)
unfolding begin_scan
Taken-begin_scan clock name db u =
    let P : ℕ × ℕ → Db → Type 0 = λ keys after. Taken clock name db keys.0 keys.1 in
    Holds-with_result (Keyed clock.new_package_id name db) P _
      (upsert_package clock.claimed_at clock.new_package_id name db)
      (Keyed-upsert_package clock.claimed_at clock.new_package_id name db)
      λ p db1 (key, scans1).
        Holds-with_result (Offered clock p.id db1) P _
          (claim_next_queued_scan clock.locked clock.claimed_at p.id db1)
          (Offered-claim clock p.id db1 (rw scans1 u))
          λ queued db2 offered.
            Holds-with_result (λ s after. IsTaken clock p.id db1 s.id) P _
              (claim_or_create clock p.id queued db2)
              (IsTaken-claim_or_create clock p.id queued db1 db2 offered)
              λ s db3 taken. (key, IsTaken-ap clock p.id s.id db db1 scans1 taken)
