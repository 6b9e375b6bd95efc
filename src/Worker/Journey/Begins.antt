-- ===== src/Worker/Journey/Begins.antt =====
-- Where the package and a waiting scan are there, the first transaction of a scan returns; and where the job waits, it
-- is marked as running.
use std.Path.{subst}
use npm_sentinel.Base.{ℕ, String, ◌≡◌, refl, inl, inr, true, arith, Option, some}
use npm_sentinel.Core.Exceptions.{ok}
use npm_sentinel.Db.Models.{Db, PackageModel, QueueJobModel, may_start}
use npm_sentinel.Db.Table.{some_row, update_where}
use npm_sentinel.Db.Holds.{Holds}
use npm_sentinel.Db.Session.{fits}
use npm_sentinel.Db.Packages.{has_package_name, get_by_name, upsert_package}
use npm_sentinel.Db.Claims.{with_claimed, claim_next_queued_scan-Oldest}
use npm_sentinel.Db.Lifecycle.{UniqueScans}
use npm_sentinel.Db.Scans.{claimable}
use npm_sentinel.Db.Jobs.{get_job}
use npm_sentinel.UseCases.ScanPackage.{Clock, claim_or_create, begin_scan}
use npm_sentinel.Worker.Tasks.{mark_running}
use npm_sentinel.Worker.Tasks.Jobs.{Open, Marks-queued}
use npm_sentinel.Worker.Tasks.Aside.{JobsAside, JobsAside-mark_running}

-- The package is found, and the scans are as they were.
abbrev Touched : ℕ → ℕ → String → Db → PackageModel → Type 0
Touched now i name db q =
    (p : PackageModel) × (after : Db) × (upsert_package now i name db ≡ ok (p, after))
    × (p.id ≡ q.id)
    × (after.scan_results ≡ db.scan_results)

Touched-known :
    (now i : ℕ) (name : String) (db : Db) (q : PackageModel)
    → fits 255 name ≡ true
    → get_by_name name db ≡ some q
    → Touched now i name db q
unfolding upsert_package
Touched-known now i name db q fit named = (
  record q { updated_at = now },
  record db {
    packages =
        update_where (has_package_name name) (λ (p : PackageModel). record p { updated_at = now })
          db.packages;
  },
  rw (fit, named) refl,
  refl,
  refl,
)

abbrev pub Begins : Clock → String → Db → Type 0
Begins clock name db = (keys : ℕ × ℕ) × (after : Db) × (begin_scan clock name db ≡ ok (keys, after))

pub Begins-waiting :
    (clock : Clock) (name : String) (db : Db) (q : PackageModel)
    → UniqueScans db
    → fits 255 name ≡ true
    → get_by_name name db ≡ some q
    → some_row (claimable clock.locked q.id) db.scan_results ≡ true
    → Begins clock name db
unfolding begin_scan claim_or_create
Begins-waiting clock name db q u fit named waits =
    let (p, db1, touched, same, scans) =
      Touched-known clock.claimed_at clock.new_package_id name db q fit named in
    let still : some_row (claimable clock.locked p.id) db1.scan_results ≡ true =
      rw (same, scans) waits in
    elim (claim_next_queued_scan-Oldest clock.locked clock.claimed_at p.id db1 (rw scans u)) [
      | inl (_, idle) ↦ absurd (ground (arith, still, idle))
      | inr (r, _, taken, _) ↦
          ((p.id, r.id), with_claimed clock.claimed_at r.id db1, rw (touched, taken) refl)
    ]

-- The mark is set, the job is open, and no other table is changed.
abbrev pub Started : ℕ → String → String → Option String → String → Db → Type 0
Started now t kind p reason db =
    (after : Db) × (mark_running now t kind p reason db ≡ ok (tt, after))
    × Open t after
    × JobsAside db tt after

pub Started-queued :
    (now : ℕ) (t kind : String) (p : Option String) (reason : String) (db : Db) {j : QueueJobModel}
    → get_job t db ≡ some j
    → may_start j.status ≡ true
    → Started now t kind p reason db
unfolding mark_running
Started-queued now t kind p reason db {j} there may =
    let (after, step, opened) = Marks-queued now t db {j = j} there may in
    let marked : mark_running now t kind p reason db ≡ ok (tt, after) = rw step refl in
    (
      after,
      marked,
      opened,
      subst (Holds (JobsAside db)) marked (JobsAside-mark_running now t kind p reason db),
    )
