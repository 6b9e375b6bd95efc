-- ===== src/Scheduler.antt =====
-- app/scheduler/main.py: the loop that checks for updates until a shutdown is requested.
mod Tests
pub mod Stops
use npm_sentinel.Base.{ℕ, Bool, true, false, ◌||◌, Option, none, some, String, List, [], ◌∷◌, ◌++◌}
use npm_sentinel.Core.Exceptions.{Exception, Result, ok, err}
use npm_sentinel.Db.Models.{Db, PackageModel}
use npm_sentinel.Db.Packages.{get_by_name}
use npm_sentinel.Db.Scans.{has_running_scan}
use npm_sentinel.UseCases.MonitorUpdates.{MonitorUpdatesResult, PackageScanState}

abbrev pub state_of : Option PackageModel → PackageScanState
state_of none = record { package_id = none; latest_scanned_version = none }
state_of (some p) = record {
  package_id = some p.id;
  latest_scanned_version = p.latest_scanned_version;
}

-- `load_package_scan_state` and `has_running_scan`, each in a session of its own.
unfoldable pub load_package_scan_state : String → Db → PackageScanState
unfolding get_by_name
load_package_scan_state package_name db = state_of (get_by_name package_name db)

unfoldable pub scheduler_has_running_scan : ℕ → Db → Bool
scheduler_has_running_scan package_id db = has_running_scan package_id db

-- What a round of the loop meets: what `execute_once` comes to, and whether a signal requests the shutdown while it
-- runs, or in the wait for the interval that follows.
pub record Round : Type 0 where
  pub tick : Result MonitorUpdatesResult
  pub requested_in_tick : Bool
  pub requested_in_wait : Bool

-- What is logged.
pub data LogLine : Type 0 where
  scheduler_started scheduler_stopped : LogLine
  scheduler_tick_completed : MonitorUpdatesResult → LogLine
  scheduler_tick_failed : Exception → LogLine

-- The process runs on, has returned, or was left by an exception.
pub data Ended : Type 0 where
  running_on returned : Ended
  left_by : Exception → Ended

abbrev pub tick_line : Result MonitorUpdatesResult → LogLine
tick_line (ok result) = scheduler_tick_completed result
tick_line (err e) = scheduler_tick_failed e

abbrev pub then_line : LogLine → List LogLine × Ended → List LogLine × Ended
then_line line (lines, ended) = (line ∷ lines, ended)

-- `while not shutdown_requested.is_set()`, through the rounds that there are.
unfoldable pub scheduler_loop : Bool → List Round → List LogLine × Ended
scheduler_loop true rounds = (scheduler_stopped ∷ [], returned)
scheduler_loop false [] = ([], running_on)
scheduler_loop false (r ∷ rs) =
    then_line (tick_line r.tick) (scheduler_loop (r.requested_in_tick || r.requested_in_wait) rs)

-- `run_scheduler`, from the check of the database on; `requested` is whether a signal came by then.
unfoldable pub run_scheduler : Result (Unit {0}) → Bool → List Round → List LogLine × Ended
unfolding scheduler_loop
run_scheduler (err e) requested rounds = ([], left_by e)
run_scheduler (ok _) requested rounds =
    then_line scheduler_started (scheduler_loop requested rounds)
