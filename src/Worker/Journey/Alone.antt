-- ===== src/Worker/Journey/Alone.antt =====
-- Which scan the worker takes, where no other scan of the package waits unlocked.
use std.Path.{subst}
use npm_sentinel.Base.{ℕ, String, ◌≡◌, sym, ap, ◌∙◌, inl, inr, Bool, true, false, arith, some}
use npm_sentinel.Db.Models.{Db, PackageModel, ScanResultModel, ScanStatus, is_queued}
use npm_sentinel.Db.Table.{some_row, some_row_of_find_row, find_row-meets}
use npm_sentinel.Db.Session.{has_scan_id}
use npm_sentinel.Db.Packages.{get_by_name}
use npm_sentinel.Db.Scans.{get_scan, claimable}
use npm_sentinel.UseCases.ScanPackage.{Clock}
use npm_sentinel.UseCases.ScanPackage.Claimed.{key_or, IsTaken, Taken}

-- No other scan of the package of the scan under the key waits unlocked, and that one is not locked.
abbrev pub IsAlone : (ℕ → Bool) → ℕ → Db → Type 0
IsAlone locked i db =
    (locked i ≡ false)
    × ((s t : ScanResultModel)
        → get_scan i db ≡ some s
        → get_scan t.id db ≡ some t
        → claimable locked s.package_id t ≡ true
        → t.id ≡ i)

waits :
    (locked : ℕ → Bool) (s : ScanResultModel)
    → locked s.id ≡ false
    → s.status ≡ ScanStatus.queued
    → claimable locked s.package_id s ≡ true
waits locked s free queued = ground (arith, ap is_queued queued)

get_scan-id : (i : ℕ) (db : Db) {s : ScanResultModel} → get_scan i db ≡ some s → s.id ≡ i
unfolding get_scan
get_scan-id i db {s} there =
    ground (arith, find_row-meets (has_scan_id i) {r = s} db.scan_results there)

-- The scan that is to be taken is the one that was recorded.
IsTaken-alone :
    (clock : Clock) (i : ℕ) (db : Db) (s : ScanResultModel)
    → IsAlone clock.locked i db
    → get_scan i db ≡ some s
    → s.status ≡ ScanStatus.queued
    → (j : ℕ) → IsTaken clock s.package_id db j
    → j ≡ i
unfolding get_scan
IsTaken-alone clock i db s (free, alone) there queued j (inl (r, (waiting, found, _), same)) =
    same ∙ alone s r there found waiting
IsTaken-alone clock i db s (free, alone) there queued j (inr (idle, same)) =
    let own = get_scan-id i db {s = s} there in
    let hit =
      some_row_of_find_row (has_scan_id i) (claimable clock.locked s.package_id) {r = s}
        db.scan_results there (waits clock.locked s (ap clock.locked own ∙ free) queued) in
    absurd (ground (arith, hit, idle))

pub only-Taken :
    (clock : Clock) (name : String) (i : ℕ) (db : Db) (q : PackageModel) (s : ScanResultModel)
    → IsAlone clock.locked i db
    → get_by_name name db ≡ some q
    → s.package_id ≡ q.id
    → get_scan i db ≡ some s
    → s.status ≡ ScanStatus.queued
    → (p j : ℕ) → Taken clock name db p j
    → j ≡ i
only-Taken clock name i db q s alone named own there queued p j (key, taken) =
    let same : p ≡ s.package_id = key ∙ (ap (key_or clock.new_package_id) named ∙ sym own) in
    IsTaken-alone clock i db s alone there queued j (subst (λ k. IsTaken clock k db j) same taken)

-- The recorded scan is one that may be claimed.
pub claimable-recorded :
    (clock : Clock) (i : ℕ) (db : Db) (q : PackageModel) (s : ScanResultModel)
    → clock.locked i ≡ false
    → s.package_id ≡ q.id
    → get_scan i db ≡ some s
    → s.status ≡ ScanStatus.queued
    → some_row (claimable clock.locked q.id) db.scan_results ≡ true
unfolding get_scan
claimable-recorded clock i db q s free own there queued =
    let key = get_scan-id i db {s = s} there in
    rw (← own) (
      some_row_of_find_row (has_scan_id i) (claimable clock.locked s.package_id) {r = s}
        db.scan_results there (waits clock.locked s (ap clock.locked key ∙ free) queued))
