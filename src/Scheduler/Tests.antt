-- ===== src/Scheduler/Tests.antt =====
-- Runs of the scheduler, and its theorem at rounds of every kind.
use npm_sentinel.Base.{◌≡◌, refl, Bool, List, true, false, none, some, [], ◌∷◌, ◌++◌}
use npm_sentinel.Core.Exceptions.{Result, ok, raise, package_list_source_error}
use npm_sentinel.UseCases.MonitorUpdates.{MonitorUpdatesResult}
use npm_sentinel.Db.Models.{Db, PackageModel}
use npm_sentinel.Db.Packages.{get_by_name}
use npm_sentinel.Db.Scans.{has_running_scan}
use npm_sentinel.Db.Table.{find_row}
use npm_sentinel.Scheduler.{
  Round, scheduler_started, scheduler_stopped, running_on, returned, scheduler_loop, run_scheduler,
  load_package_scan_state, scheduler_has_running_scan,
}
use npm_sentinel.Scheduler.Stops.{lines_of, run_scheduler-stops}

abbrev lodash : PackageModel
lodash = record {
  id = 1;
  name = "lodash";
  latest_scanned_version = some "4.17.21";
  last_scanned_at = none;
  created_at = 1;
  updated_at = 1;
}

abbrev tables : Db
tables = record {
  packages = lodash ∷ [];
  versions = [];
  scan_results = [];
  findings = [];
  queue_jobs = [];
}

abbrev round : Result MonitorUpdatesResult → Bool → Bool → Round
round tick in_tick in_wait = record {
  tick = tick;
  requested_in_tick = in_tick;
  requested_in_wait = in_wait;
}

abbrev failed : Result MonitorUpdatesResult
failed = raise package_list_source_error "no list"

abbrev fine : Result MonitorUpdatesResult
fine = ok (record {
  checked_count = 3;
  enqueued_new_count = 1;
  enqueued_updated_count = 0;
  unchanged_count = 1;
  skipped_running_count = 0;
  failed_count = 1;
  errors = [];
})

scheduler_tests :
    (run_scheduler (ok tt) true (round fine false false ∷ [])
      ≡ (scheduler_started ∷ scheduler_stopped ∷ [], returned))
    × (load_package_scan_state "lodash" tables
        ≡ record { package_id = some 1; latest_scanned_version = some "4.17.21" })
    × (load_package_scan_state "left-pad" tables
        ≡ record { package_id = none; latest_scanned_version = none })
    × (scheduler_has_running_scan 1 tables ≡ false)
unfolding run_scheduler scheduler_loop load_package_scan_state get_by_name
    scheduler_has_running_scan has_running_scan find_row
scheduler_tests = (refl, refl, refl, refl)

abbrev before : List Round
before = round failed false false ∷ round fine false false ∷ []

abbrev last : Round
last = round failed true false

run_scheduler-stops_example :
    (run_scheduler (ok tt) false before ≡ (scheduler_started ∷ lines_of before, running_on))
    × (run_scheduler (ok tt) false (before ++ last ∷ before)
        ≡ (scheduler_started ∷ lines_of (before ++ last ∷ []) ++ scheduler_stopped ∷ [], returned))
run_scheduler-stops_example = run_scheduler-stops before last before (refl, (refl, tt)) refl
