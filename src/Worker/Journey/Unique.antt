-- ===== src/Worker/Journey/Unique.antt =====
-- Where the request of a scan returns, the keys of the scans are still different, and the name fits into its column.
use npm_sentinel.Base.{ℕ, String, ◌≡◌, true, sym, inl, inr, none, some, Bool-cases, strip}
use std.Path.{subst}
use npm_sentinel.Core.Exceptions.{Exception, Result, ok, err, queue_publish_error, is_instance}
use npm_sentinel.Db.Models.{Db, PackageModel, ScanResultModel, ScanStatus}
use npm_sentinel.Db.Session.{fits}
use npm_sentinel.Db.Holds.{Holds, Holds-check, Holds-both, Holds-with_result}
use npm_sentinel.Db.Effects.{Upserted, Upserted-upsert_package}
use npm_sentinel.Db.Lifecycle.{UniqueScans, After}
use npm_sentinel.Db.Lifecycle.Scans.{After-create_scan_result}
use npm_sentinel.Db.Packages.{upsert_package}
use npm_sentinel.Db.Scans.{create_scan_result}
use npm_sentinel.Db.Jobs.{create_queue_job}
use npm_sentinel.Db.UnitOfWork.{transact, commit_or_rollback}
use npm_sentinel.UseCases.PackageName.{is_valid_package_name}
use npm_sentinel.UseCases.EnqueueScan.{
  ScanJobQueue, Surroundings, record_scan, record_unpublished, raise_after, published, publish,
  enqueue_scan, normalize_reason,
}
use npm_sentinel.Worker.Tasks.Aside.{JobsAside, JobsAside-create_queue_job}

-- The keys of the scans stay different, and the name fits.
abbrev StillUnique : String → {A : Type 0} → A → Db → Type 0
StillUnique name _ after = UniqueScans after × (fits 255 name ≡ true)

StillUnique-of_After :
    (name : String) {A : Type 0} (before : Db) (r : Result (A × Db))
    → fits 255 name ≡ true
    → After before r
    → Holds (StillUnique name) r
StillUnique-of_After name before (ok (a, db)) fit (u, _) = (u, fit)
StillUnique-of_After name before (err e) fit h = tt

Holds-always : {A P : Type 0} (r : Result (A × Db)) → P → Holds (λ (_ : A) (_ : Db). P) r
Holds-always (ok (a, db)) h = h
Holds-always (err e) h = tt

-- A name that does not fit is refused.
fits-upsert_package :
    (now i : ℕ) (name : String) (db : Db)
    → Holds (λ (_ : PackageModel) (_ : Db). fits 255 name ≡ true) (upsert_package now i name db)
unfolding upsert_package
fits-upsert_package now i name db =
    Holds-check (λ (_ : PackageModel) (_ : Db). fits 255 name ≡ true) (fits 255 name) _
      λ fit. Holds-always _ fit

StillUnique-record_scan :
    (around : Surroundings) (name why : String) (db : Db)
    → UniqueScans db
    → Holds (StillUnique name) (record_scan around name why db)
unfolding record_scan
StillUnique-record_scan around name why db u =
    Holds-with_result (λ p after. Upserted name db p after × (fits 255 name ≡ true))
      (StillUnique name) _ (upsert_package around.now around.new_package_id name db)
      (Holds-both (Upserted name db) (λ (_ : PackageModel) (_ : Db). fits 255 name ≡ true)
        (upsert_package around.now around.new_package_id name db)
        (Upserted-upsert_package around.now around.new_package_id name db)
        (fits-upsert_package around.now around.new_package_id name db))
      λ p db1 ((_, scans1, _), fit).
        Holds-with_result (StillUnique name) (StillUnique name) _
          (create_scan_result around.now around.new_scan_id p.id none none ScanStatus.queued db1)
          (StillUnique-of_After name db1
            (create_scan_result around.now around.new_scan_id p.id none none ScanStatus.queued db1)
            fit
            (After-create_scan_result around.now around.new_scan_id p.id none none ScanStatus.queued
              db1 (rw scans1 u)))
          λ s db2 (u2, _).
            Holds-with_result (JobsAside db2) (StillUnique name) _
              (create_queue_job around.now around.task_id "scan_package" (some name) why db2)
              (JobsAside-create_queue_job around.now around.task_id "scan_package" (some name) why
                db2)
              λ _ db3 (jobs, same). (subst UniqueScans (sym same) u2, fit)

abbrev pub UniqueIfReturned : String → {A : Type 0} → Result A × Db → Type 0
UniqueIfReturned name (ok _, after) = UniqueScans after × (fits 255 name ≡ true)
UniqueIfReturned name (err e, after) = Unit

UniqueIfReturned-raise_after :
    (name : String) (e : Exception) (r : Result (Unit {0}) × Db)
    → UniqueIfReturned name (raise_after e r)
UniqueIfReturned-raise_after name e (ok _, db) = tt
UniqueIfReturned-raise_after name e (err f, db) = tt

UniqueIfReturned-published :
    (around : Surroundings) (name : String) (i : ℕ) (db : Db) (q : Result (Unit {0}))
    → UniqueScans db × (fits 255 name ≡ true)
    → UniqueIfReturned name (published around i db q)
UniqueIfReturned-published around name i db (ok _) u = u
UniqueIfReturned-published around name i db (err e) u =
    elim (Bool-cases (is_instance e.class queue_publish_error)) [
      | inl lost ↦
          rw (lost, published)
            (UniqueIfReturned-raise_after name e (transact (record_unpublished around i) db))
      | inr other ↦ rw (other, published) tt
    ]

UniqueIfReturned-publish :
    (queue : ScanJobQueue) (around : Surroundings) (name why : String) (before : Db)
    (r : Result (ScanResultModel × Db))
    → Holds (StillUnique name) r
    → UniqueIfReturned name (publish queue around name why (commit_or_rollback before r))
unfolding commit_or_rollback
UniqueIfReturned-publish queue around name why before (ok (s, db)) u =
    UniqueIfReturned-published around name s.id db
      (queue.enqueue_scan_package name why around.task_id) u
UniqueIfReturned-publish queue around name why before (err e) u = tt

pub UniqueIfReturned-enqueue_scan :
    (queue : ScanJobQueue) (around : Surroundings) (package_name reason : String) (db : Db)
    → UniqueScans db
    → UniqueIfReturned (strip package_name) (enqueue_scan queue around package_name reason db)
unfolding enqueue_scan transact
UniqueIfReturned-enqueue_scan queue around package_name reason db u =
    elim (Bool-cases (is_valid_package_name (strip package_name))) [
      | inl valid ↦
          rw (valid, enqueue_scan)
            (UniqueIfReturned-publish queue around (strip package_name) (normalize_reason reason) db
              (record_scan around (strip package_name) (normalize_reason reason) db)
              (StillUnique-record_scan around (strip package_name) (normalize_reason reason) db u))
      | inr invalid ↦ rw (invalid, enqueue_scan) tt
    ]
