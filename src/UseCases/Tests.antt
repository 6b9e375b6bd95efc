-- ===== src/UseCases/Tests.antt =====
-- Runs of the use cases, and their theorems at concrete inputs.
use npm_sentinel.UseCases.ScanPackage.Messages.{whole_message, safe_error_message-bounded}
use npm_sentinel.Domain.Scoring.{calculate_score, calculate_risk_level, finding_types}
use npm_sentinel.Db.Jobs.{create_queue_job, mark_queue_job_failed}
use npm_sentinel.Db.Scans.{
  create_scan_result, mark_scan_failed, claim_next_queued_scan, set_scan_versions, replace_findings,
  mark_scan_completed,
}
use npm_sentinel.Db.Packages.{upsert_package, upsert_package_version, mark_package_scanned}
use npm_sentinel.Db.UnitOfWork.{transact, commit_or_rollback}
use npm_sentinel.Base.{
  String, ◌≡◌, refl, ◌↔◌, true, false, none, some, List, [], ◌∷◌, map, strip, count, prefix, ◌≤◌,
}
use npm_sentinel.Core.Exceptions.{
  ExceptionClass, ok, raise, queue_publish_error, npm_package_not_found_error, is_instance,
  tarball_download_error,
}
use npm_sentinel.Base.Int.{pos}
use npm_sentinel.Domain.Enums.{FindingType, FindingSeverity, type_value, severity_value}
use npm_sentinel.Domain.Findings.{Finding}
use npm_sentinel.Db.Models.{Db, ScanStatus, QueueJobStatus}
use npm_sentinel.Db.Table.{some_row}
use npm_sentinel.UseCases.PackageName.{
  is_valid_package_name, IsPackageName, is_valid_package_name_iff,
}
use npm_sentinel.UseCases.EnqueueScan.{
  ScanJobQueue, Surroundings, normalize_reason, enqueue_scan, record_scan, record_unpublished,
}
use npm_sentinel.UseCases.EnqueueScan.Outcome.{Outcome, enqueue_scan-Outcome}
use npm_sentinel.UseCases.TopPackagesBatch.{enqueue_batch}
use npm_sentinel.UseCases.TopPackagesBatch.Counts.{Counts, enqueue_batch-Counts}
use npm_sentinel.UseCases.ScanPackage.{
  Ports, Clock, RegistryVersionMetadata, begin_scan, claim_or_create, record_versions,
  upsert_previous, complete_scan, to_finding_create,
}
use npm_sentinel.UseCases.ScanPackage.Run.{
  execute, and_then, on_failure, scan_steps, inspect, fetch_root, fetch_previous_root,
  safe_error_message,
}
use npm_sentinel.UseCases.ScanPackage.Outcome.{Ended, execute-Ended}
use npm_sentinel.UseCases.MonitorUpdates.{
  Awaited, Event, checked_event, new_event, failed_event, apply_events, no_result, process_package,
  merge_nil, merge_left, merge_right, Interleaving, no_tasks, with_task, after_fetch,
  record_failure, after_check, act_on, classify_update, unless_running, after_enqueue,
}
use npm_sentinel.UseCases.MonitorUpdates.Totals.{Totals, process_package-Totals}

abbrev no_rows : Db
no_rows = record { packages = []; versions = []; scan_results = []; findings = []; queue_jobs = [] }

abbrev around : Surroundings
around = record { now = 5; later = 6; new_package_id = 1; new_scan_id = 2; task_id = "t1" }

-- A queue that cannot be reached.
abbrev broken_queue : ScanJobQueue
broken_queue = record {
  enqueue_scan_package = λ name reason task_id. raise queue_publish_error "down";
}

abbrev working_queue : ScanJobQueue
working_queue = record { enqueue_scan_package = λ name reason task_id. ok tt }

-- After a failure to publish the job is failed, and the scan waits on.
unpublished_tests :
    (map (λ s. s.status) (enqueue_scan broken_queue around " lodash " "" no_rows).1.scan_results
      ≡ ScanStatus.queued ∷ [])
    × (map (λ j. j.status) (enqueue_scan broken_queue around " lodash " "" no_rows).1.queue_jobs
        ≡ QueueJobStatus.failed ∷ [])
    × ((enqueue_scan working_queue around " lodash " "" no_rows).0 ≡ ok "t1")
unfolding enqueue_scan is_valid_package_name strip transact record_scan upsert_package
    create_scan_result create_queue_job normalize_reason is_instance record_unpublished
    mark_queue_job_failed mark_scan_failed
unpublished_tests = (refl, refl, refl)

enqueue_scan-Outcome_example :
    Outcome broken_queue around
      (strip " lodash ")
      (normalize_reason "")
      no_rows
      (enqueue_scan broken_queue around " lodash " "" no_rows)
unfolding some_row
enqueue_scan-Outcome_example = enqueue_scan-Outcome broken_queue around " lodash " "" no_rows refl

is_valid_package_name_iff_example :
    (is_valid_package_name "@scope/name" ≡ true) ↔ IsPackageName "@scope/name"
is_valid_package_name_iff_example = is_valid_package_name_iff "@scope/name"

enqueue_batch-Counts_example : Counts ("lodash" ∷ " " ∷ "UPPER" ∷ []) (
    enqueue_batch working_queue
      (λ i. around)
      "manual_batch"
      (ok ("lodash" ∷ " " ∷ "UPPER" ∷ []))
      no_rows)
enqueue_batch-Counts_example =
    enqueue_batch-Counts working_queue (λ i. around) "manual_batch" ("lodash" ∷ " " ∷ "UPPER" ∷ [])
      no_rows

abbrev version : String → RegistryVersionMetadata
version v = record {
  package_name = "lodash";
  version = v;
  published_at = some 3;
  tarball_url = "https://registry.npmjs.org/lodash.tgz";
  integrity = none;
  unpacked_size = some (pos 1000);
  file_count = none;
  package_json = [];
  dependencies = [];
  scripts = [];
}

abbrev binary : Finding
binary = record {
  finding_type = FindingType.executable_binary;
  severity = FindingSeverity.high;
  category = "binary";
  description = "Executable binary pattern detected in package files.";
  file_path = some "a.exe";
  evidence = some "extension:.exe";
}

abbrev ports : Ports String String
ports = record {
  fetch_metadata = λ name. ok (record {
    package_name = name;
    latest_version = version "2.0.0";
    previous_version = some (version "1.0.0");
  });
  download = λ url integrity. ok url;
  extract = λ archive. ok archive;
  analyze = λ latest scripts size previous before previous_size. ok (binary ∷ []);
}

abbrev clock : Clock
clock = record {
  claimed_at = 10;
  versions_at = 11;
  completed_at = 12;
  failed_at = 13;
  new_package_id = 1;
  new_scan_id = 2;
  new_latest_id = 3;
  new_previous_id = 4;
  new_finding_id = λ i. i;
  locked = λ i. false;
}

abbrev class_names : ExceptionClass → String
class_names c = "Error"

execute_tests :
    (map (λ s. s.status) (execute ports class_names clock "lodash" no_rows).1.scan_results
      ≡ ScanStatus.completed ∷ [])
    × (map (λ s. s.score) (execute ports class_names clock "lodash" no_rows).1.scan_results
        ≡ some (pos 26) ∷ [])
unfolding execute and_then on_failure scan_steps inspect fetch_root fetch_previous_root transact
    commit_or_rollback begin_scan claim_or_create record_versions upsert_previous complete_scan
    to_finding_create upsert_package upsert_package_version mark_package_scanned
    claim_next_queued_scan create_scan_result set_scan_versions replace_findings mark_scan_completed
    calculate_score calculate_risk_level finding_types type_value severity_value
execute_tests = (refl, refl)

execute-Ended_example :
    Ended ports class_names clock "lodash" no_rows
      (execute ports class_names clock "lodash" no_rows)
execute-Ended_example = execute-Ended ports class_names clock "lodash" no_rows tt

-- One package that the registry does not know, and one that is new.
abbrev unknown_package : Awaited
unknown_package = record {
  package_name = "gone";
  metadata = raise npm_package_not_found_error "";
  state = raise npm_package_not_found_error "";
  running = ok false;
  enqueued = ok "t1";
}

abbrev new_package : Awaited
new_package = record {
  package_name = "lodash";
  metadata = ports.fetch_metadata "lodash";
  state = ok (record { package_id = none; latest_scanned_version = none });
  running = ok false;
  enqueued = ok "t1";
}

abbrev gone : Event
gone = failed_event (record { package_name = "gone"; error = "Error" })

-- The failure comes between the two events of the other task.
abbrev events : List Event
events = checked_event ∷ gone ∷ new_event ∷ []

events-Interleaving :
    Interleaving
      (map (process_package class_names true) (unknown_package ∷ new_package ∷ []))
      events
unfolding process_package after_fetch record_failure after_check act_on classify_update
    unless_running after_enqueue
events-Interleaving =
    with_task (with_task no_tasks (merge_left checked_event (merge_left new_event merge_nil)))
      (merge_right checked_event (merge_left gone (merge_right new_event merge_nil)))

process_package-Totals_example :
    Totals (unknown_package ∷ new_package ∷ []) (apply_events events no_result)
process_package-Totals_example =
    process_package-Totals class_names true (unknown_package ∷ new_package ∷ []) {es = events}
      events-Interleaving

safe_error_message-bounded_example :
    (count (
        safe_error_message class_names
          (record { class = tarball_download_error; message = " down " }))
      ≤ 503)
    × (prefix 500 (
          safe_error_message class_names
            (record { class = tarball_download_error; message = " down " }))
        ≡ prefix 500 (
            whole_message class_names
              (record { class = tarball_download_error; message = " down " })))
safe_error_message-bounded_example =
    safe_error_message-bounded class_names
      (record { class = tarball_download_error; message = " down " })
