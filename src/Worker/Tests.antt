-- ===== src/Worker/Tests.antt =====
-- Runs of the worker's tasks, and their theorems at concrete inputs.
use npm_sentinel.Worker.Tasks.Batch.{enqueue_top_packages, enqueue_top_packages-JobEnded, Tally}
use npm_sentinel.PackageList.{Outcome, answered}
use npm_sentinel.Producer.{Broker}
use npm_sentinel.UseCases.EnqueueScan.{Surroundings}
use npm_sentinel.UseCases.TopPackagesBatch.{EnqueueTopPackagesBatchResult}
use npm_sentinel.Worker.Tasks.Aside.{LeftBy}
use npm_sentinel.Worker.Tasks.Scan.Whole.{ScanEnded, scan_package-ScanEnded}
use npm_sentinel.Worker.Tasks.Scan.{scan_package}
use npm_sentinel.UseCases.ScanPackage.{Ports, Clock}
use npm_sentinel.Db.UnitOfWork.{transact}
use npm_sentinel.UseCases.ScanPackage.Run.{and_then}
use npm_sentinel.Db.Table.{find_row}
use npm_sentinel.Base.{◌<◌, ℕ, String, ◌≡◌, refl, ◌↔◌, ◌⊎◌, inl, true, some, [], ◌∷◌, map, false}
use npm_sentinel.Core.Exceptions.{
  ExceptionClass, npm_registry_timeout_error, tarball_download_error,
  tarball_download_timeout_error, tarball_integrity_error, Result, raise, is_instance, ok,
}
use npm_sentinel.Db.Models.{Db, QueueJobStatus}
use npm_sentinel.Db.Jobs.{get_job, mark_queue_job_running, create_queue_job, mark_queue_job_failed}
use npm_sentinel.Worker.Tasks.{is_retried, run_task, mark_running, after_use_case}
use npm_sentinel.Worker.Tasks.Retries.{is_retried_iff}
use npm_sentinel.Worker.Tasks.Outcome.{JobEnded, run_task-JobEnded}

abbrev no_rows : Db
no_rows = record { packages = []; versions = []; scan_results = []; findings = []; queue_jobs = [] }

abbrev class_names : ExceptionClass → String
class_names c = "Error"

-- A use case that times out.
abbrev times_out : Db → Result (Unit {0}) × Db
times_out db = (raise npm_registry_timeout_error "", db)

abbrev timed_out : Result (Unit {0}) × Db
timed_out = run_task class_names 9 "t1" 5 "scan_package" (some "lodash") "manual" times_out no_rows

task_tests :
    (map (λ j. j.status) timed_out.1.queue_jobs ≡ QueueJobStatus.failed ∷ [])
    × (map (λ j. j.error_message) timed_out.1.queue_jobs ≡ some "Error" ∷ [])
    × (timed_out.0 ≡ raise npm_registry_timeout_error "")
unfolding run_task and_then transact mark_running mark_queue_job_running is_instance
    create_queue_job after_use_case mark_queue_job_failed
task_tests = (refl, refl, refl)

run_task-JobEnded_example : JobEnded class_names 9 "t1" no_rows timed_out
unfolding get_job find_row
run_task-JobEnded_example =
    run_task-JobEnded class_names 9 "t1" 5 "scan_package" (some "lodash") "manual" times_out no_rows
      (λ d. refl) (inl refl)

is_retried_iff_example :
    (is_retried 2 tarball_integrity_error ≡ true)
    ↔ (2 < 3)
      × ((tarball_integrity_error ≡ npm_registry_timeout_error)
          ⊎ ((tarball_integrity_error ≡ tarball_download_error)
              ⊎ (tarball_integrity_error ≡ tarball_download_timeout_error)))
is_retried_iff_example = is_retried_iff 2 tarball_integrity_error

-- A registry that does not answer in time.
abbrev silent : Ports String String
silent = record {
  fetch_metadata = λ name. raise npm_registry_timeout_error "registry request timed out";
  download = λ url integrity. ok url;
  extract = λ archive. ok archive;
  analyze = λ latest scripts size previous before previous_size. ok [];
}

abbrev clock : Clock
clock = record {
  claimed_at = 10;
  versions_at = 11;
  completed_at = 12;
  failed_at = 13;
  new_package_id = 1;
  new_scan_id = 2;
  new_latest_id = 3;
  new_previous_id = 4;
  new_finding_id = λ i. i;
  locked = λ i. false;
}

scan_package-ScanEnded_example :
    JobEnded class_names 9 "t1" no_rows
      (scan_package silent class_names clock "lodash" 5 9 "t1" "manual" no_rows)
    × LeftBy
        (ScanEnded silent class_names clock "lodash" no_rows)
        no_rows
        (scan_package silent class_names clock "lodash" 5 9 "t1" "manual" no_rows)
unfolding get_job find_row
scan_package-ScanEnded_example =
    scan_package-ScanEnded silent class_names clock "lodash" 5 9 "t1" "manual" no_rows tt (inl refl)

-- A list of two names, and a broker that takes what it is given.
abbrev page_of_names : Outcome
page_of_names =
    answered 200
      "1. [lodash](https://www.npmjs.com/package/lodash)\n2. [react](https://www.npmjs.com/package/react)\n"

abbrev takes_all : Broker
takes_all task task_id = ok "t1"

abbrev arounds : ℕ → Surroundings
arounds i = record { now = 5; later = 6; new_package_id = i; new_scan_id = i; task_id = "t1" }

abbrev batch : Result EnqueueTopPackagesBatchResult × Db
batch =
    enqueue_top_packages class_names (λ s. s) page_of_names takes_all arounds 1 "manual_batch" 5 9
      "b1" no_rows

enqueue_top_packages-JobEnded_example : JobEnded class_names 9 "b1" no_rows batch × Tally 1 batch
unfolding get_job find_row
enqueue_top_packages-JobEnded_example =
    enqueue_top_packages-JobEnded class_names (λ s. s) page_of_names takes_all arounds 1
      "manual_batch" 5 9 "b1" no_rows (inl refl) (λ i. refl)
