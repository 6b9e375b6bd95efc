-- ===== src/UseCases/EnqueueScan/Refused.antt =====
-- What the first transaction of `EnqueueScanUseCase.execute` raises.
use npm_sentinel.Base.{ℕ, String, ◌<◌, Option, none, some, arith, count}
use npm_sentinel.Core.Exceptions.{database_error}
use npm_sentinel.Db.Models.{Db, ScanStatus}
use npm_sentinel.Db.Raises.{
  RaisesOnly, RaisesOnly-with_result, FailsWith, FailsWith-with_result, with_result-FailsWith,
}
use npm_sentinel.Db.Packages.{upsert_package}
use npm_sentinel.Db.Scans.{create_scan_result}
use npm_sentinel.Db.Jobs.{create_queue_job}
use npm_sentinel.UseCases.EnqueueScan.{Surroundings, record_scan}

upsert_package-RaisesOnly :
    (now new_id : ℕ) (name : String) (db : Db)
    → RaisesOnly database_error (upsert_package now new_id name db)
unfolding upsert_package
upsert_package-RaisesOnly now new_id name db = ground arith

create_scan_result-RaisesOnly :
    (now new_id package_id : ℕ) (db : Db)
    → RaisesOnly database_error
        (create_scan_result now new_id package_id none none ScanStatus.queued db)
unfolding create_scan_result
create_scan_result-RaisesOnly now new_id package_id db = ground arith

create_queue_job-RaisesOnly :
    (now : ℕ) (task_id job_type : String) (name : Option String) (reason : String) (db : Db)
    → RaisesOnly database_error (create_queue_job now task_id job_type name reason db)
unfolding create_queue_job
create_queue_job-RaisesOnly now task_id job_type name reason db = ground arith

pub record_scan-RaisesOnly :
    (around : Surroundings) (name why : String) (db : Db)
    → RaisesOnly database_error (record_scan around name why db)
unfolding record_scan
record_scan-RaisesOnly around name why db =
    RaisesOnly-with_result database_error _
      (upsert_package around.now around.new_package_id name db)
      (upsert_package-RaisesOnly around.now around.new_package_id name db)
      λ p db1.
        RaisesOnly-with_result database_error _
          (create_scan_result around.now around.new_scan_id p.id none none ScanStatus.queued db1)
          (create_scan_result-RaisesOnly around.now around.new_scan_id p.id db1)
          λ s db2.
            RaisesOnly-with_result database_error _
              (create_queue_job around.now around.task_id "scan_package" (some name) why db2)
              (create_queue_job-RaisesOnly around.now around.task_id "scan_package" (some name) why
                db2)
              λ _ db3. tt

create_queue_job-FailsWith :
    (now : ℕ) (task_id job_type : String) (name : Option String) (reason : String) (db : Db)
    → 64 < count reason
    → FailsWith database_error (create_queue_job now task_id job_type name reason db)
unfolding create_queue_job
create_queue_job-FailsWith now task_id job_type name reason db h = ground arith

pub record_scan-FailsWith :
    (around : Surroundings) (name why : String) (db : Db)
    → 64 < count why
    → FailsWith database_error (record_scan around name why db)
unfolding record_scan
record_scan-FailsWith around name why db long =
    FailsWith-with_result database_error _ (upsert_package around.now around.new_package_id name db)
      (upsert_package-RaisesOnly around.now around.new_package_id name db)
      λ p db1.
        FailsWith-with_result database_error _
          (create_scan_result around.now around.new_scan_id p.id none none ScanStatus.queued db1)
          (create_scan_result-RaisesOnly around.now around.new_scan_id p.id db1)
          λ s db2.
            with_result-FailsWith database_error _
              (create_queue_job around.now around.task_id "scan_package" (some name) why db2)
              (create_queue_job-FailsWith around.now around.task_id "scan_package" (some name) why
                db2 long)
