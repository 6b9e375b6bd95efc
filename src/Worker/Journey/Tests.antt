-- ===== src/Worker/Journey/Tests.antt =====
-- The first scan of a package, from its request to the registry's timeout.
use npm_sentinel.Base.{arith, String, ◌≡◌, refl, false, none, some, [], ◌∷◌, strip}
use npm_sentinel.Core.Exceptions.{ExceptionClass, ok, raise, npm_registry_timeout_error}
use npm_sentinel.Db.Models.{
  Db, PackageModel, ScanResultModel, ScanStatus, QueueJobModel, QueueJobStatus,
}
use npm_sentinel.Db.Table.{find_row, some_row}
use npm_sentinel.Db.Packages.{upsert_package, get_by_name}
use npm_sentinel.Db.Scans.{create_scan_result, get_scan}
use npm_sentinel.Db.Jobs.{create_queue_job}
use npm_sentinel.Db.UnitOfWork.{transact}
use npm_sentinel.UseCases.PackageName.{is_valid_package_name}
use npm_sentinel.UseCases.EnqueueScan.{
  ScanJobQueue, Surroundings, enqueue_scan, record_scan, normalize_reason,
}
use npm_sentinel.UseCases.ScanPackage.{Ports, Clock}
use npm_sentinel.Worker.Tasks.{queue_task_id}
use npm_sentinel.Worker.Journey.Alone.{IsAlone}
use npm_sentinel.Worker.Journey.{Journey, enqueue_scan-Journey}

abbrev no_rows : Db
no_rows = record { packages = []; versions = []; scan_results = []; findings = []; queue_jobs = [] }

abbrev class_names : ExceptionClass → String
class_names c = "Error"

abbrev takes_all : ScanJobQueue
takes_all = record { enqueue_scan_package = λ name reason task_id. ok tt }

abbrev around : Surroundings
around = record { now = 5; later = 6; new_package_id = 1; new_scan_id = 2; task_id = "t1" }

-- A registry that does not answer in time.
abbrev silent : Ports String String
silent = record {
  fetch_metadata = λ name. raise npm_registry_timeout_error "registry request timed out";
  download = λ url integrity. ok url;
  extract = λ archive. ok archive;
  analyze = λ latest scripts size previous before previous_size. ok [];
}

abbrev clock : Clock
clock = record {
  claimed_at = 10;
  versions_at = 11;
  completed_at = 12;
  failed_at = 13;
  new_package_id = 7;
  new_scan_id = 8;
  new_latest_id = 3;
  new_previous_id = 4;
  new_finding_id = λ i. i;
  locked = λ i. false;
}

abbrev lodash : PackageModel
lodash = record {
  id = 1;
  name = "lodash";
  latest_scanned_version = none;
  last_scanned_at = none;
  created_at = 5;
  updated_at = 5;
}

abbrev waiting : ScanResultModel
waiting = record {
  id = 2;
  package_id = 1;
  latest_version = none;
  previous_version = none;
  status = ScanStatus.queued;
  score = none;
  risk_level = "unknown";
  error_message = none;
  started_at = 5;
  finished_at = none;
  created_at = 5;
}

abbrev job : QueueJobModel
job = record {
  task_id = "t1";
  job_type = "scan_package";
  package_name = some "lodash";
  reason = "manual";
  status = QueueJobStatus.queued;
  error_message = none;
  started_at = none;
  finished_at = none;
  created_at = 5;
}

abbrev requested : Db
requested = record {
  packages = lodash ∷ [];
  versions = [];
  scan_results = waiting ∷ [];
  findings = [];
  queue_jobs = job ∷ [];
}

requested_lem : enqueue_scan takes_all around " lodash" "" no_rows ≡ (ok "t1", requested)
unfolding enqueue_scan is_valid_package_name strip transact record_scan upsert_package get_by_name
    create_scan_result create_queue_job normalize_reason find_row some_row
requested_lem = refl

requested-IsAlone : IsAlone clock.locked 2 requested
unfolding get_scan find_row
requested-IsAlone = (refl, λ s t there found waits. ground arith)

enqueue_scan-Journey_example :
    Journey silent class_names clock takes_all around
      (strip " lodash")
      (normalize_reason "")
      20
      30
      requested
      (queue_task_id none (some "t1") "fresh")
unfolding some_row
enqueue_scan-Journey_example =
    enqueue_scan-Journey silent class_names clock takes_all around " lodash" "" "fresh" 20 30
      no_rows {id = "t1"} {after = requested} tt refl refl requested_lem requested-IsAlone
