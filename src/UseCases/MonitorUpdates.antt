-- ===== src/UseCases/MonitorUpdates.antt =====
-- app/application/use_cases/monitor_updates.py: packages are checked concurrently. What a task does to the
-- shared result between two awaits is one event, and what its awaits gave are its input.
pub mod Totals
use npm_sentinel.Base.{
  ℕ, suc, String, Bool, true, false, Option, none, some, List, [], ◌∷◌, ◌++◌, if◌then◌else◌, str_eq,
  is_empty,
}
use npm_sentinel.Core.Exceptions.{ExceptionClass, Exception, Result, ok, err}
use npm_sentinel.UseCases.ScanPackage.{PackageRegistryMetadata}

pub record PackageMonitorError : Type 0 where
  pub package_name : String
  pub error : String

pub record MonitorUpdatesResult : Type 0 where
  pub checked_count : ℕ
  pub enqueued_new_count : ℕ
  pub enqueued_updated_count : ℕ
  pub unchanged_count : ℕ
  pub skipped_running_count : ℕ
  pub failed_count : ℕ
  pub errors : List PackageMonitorError

pub record PackageScanState : Type 0 where
  pub package_id : Option ℕ
  pub latest_scanned_version : Option String

pub data Update : Type 0 where
  new updated unchanged : Update

-- `_classify_update`
unfoldable pub classify_update : Option String → String → Update
classify_update none registry_latest_version = new
classify_update (some v) registry_latest_version =
    if str_eq v registry_latest_version then unchanged else updated

-- What the awaits of one task gave.
pub record Awaited : Type 0 where
  pub package_name : String
  pub metadata : Result PackageRegistryMetadata
  pub state : Result PackageScanState
  pub running : Result Bool
  pub enqueued : Result String

pub data Event : Type 0 where
  checked_event unchanged_event skipped_event new_event updated_event : Event
  failed_event : PackageMonitorError → Event

unfoldable pub apply_event : Event → MonitorUpdatesResult → MonitorUpdatesResult
apply_event checked_event r = record r { checked_count = suc r.checked_count }
apply_event unchanged_event r = record r { unchanged_count = suc r.unchanged_count }
apply_event skipped_event r = record r { skipped_running_count = suc r.skipped_running_count }
apply_event new_event r = record r { enqueued_new_count = suc r.enqueued_new_count }
apply_event updated_event r = record r { enqueued_updated_count = suc r.enqueued_updated_count }
apply_event (failed_event e) r = record r {
  failed_count = suc r.failed_count;
  errors = r.errors ++ e ∷ [];
}

unfoldable pub apply_events : List Event → MonitorUpdatesResult → MonitorUpdatesResult
apply_events [] r = r
apply_events (e ∷ es) r = apply_events es (apply_event e r)

abbrev pub no_result : MonitorUpdatesResult
no_result = record {
  checked_count = 0;
  enqueued_new_count = 0;
  enqueued_updated_count = 0;
  unchanged_count = 0;
  skipped_running_count = 0;
  failed_count = 0;
  errors = [];
}

module _ (class_name : ExceptionClass → String) where
  -- `_record_failure`
  unfoldable pub record_failure : String → Exception → Event
  record_failure package_name e = failed_event (record {
    package_name = package_name;
    error = if is_empty e.message then class_name e.class else e.message;
  })

  unfoldable pub after_enqueue : String → Update → Result String → Event
  after_enqueue package_name kind (err e) = record_failure package_name e
  after_enqueue package_name new (ok _) = new_event
  after_enqueue package_name updated (ok _) = updated_event
  after_enqueue package_name unchanged (ok _) = updated_event

  unfoldable pub after_running : Awaited → Update → Result Bool → Event
  after_running a kind (err e) = record_failure a.package_name e
  after_running a kind (ok true) = skipped_event
  after_running a kind (ok false) = after_enqueue a.package_name kind a.enqueued

module _ (class_name : ExceptionClass → String) (skip_running_scans : Bool) where
  unfoldable pub unless_running : Awaited → Update → Option ℕ → Event
  unless_running a kind none = after_enqueue class_name a.package_name kind a.enqueued
  unless_running a kind (some package_id) =
      if skip_running_scans
      then after_running class_name a kind a.running
      else after_enqueue class_name a.package_name kind a.enqueued

  unfoldable pub act_on : Awaited → PackageScanState → Update → Event
  act_on a state unchanged = unchanged_event
  act_on a state new = unless_running a new state.package_id
  act_on a state updated = unless_running a updated state.package_id

  unfoldable pub after_check : Awaited → PackageRegistryMetadata → Result PackageScanState → Event
  after_check a metadata (err e) = record_failure class_name a.package_name e
  after_check a metadata (ok state) =
      act_on a state (classify_update state.latest_scanned_version metadata.latest_version.version)

  unfoldable pub after_fetch : Awaited → Result PackageRegistryMetadata → List Event
  after_fetch a (err e) = record_failure class_name a.package_name e ∷ []
  after_fetch a (ok metadata) = checked_event ∷ after_check a metadata a.state ∷ []

  -- `_process_package`
  unfoldable pub process_package : Awaited → List Event
  process_package a = after_fetch a a.metadata

-- An interleaving of the events of two tasks.
pub data Merge : List Event → List Event → List Event → Type 0 where
  merge_nil : Merge [] [] []
  merge_left : {l r m : List Event} (e : Event) → Merge l r m → Merge (e ∷ l) r (e ∷ m)
  merge_right : {l r m : List Event} (e : Event) → Merge l r m → Merge l (e ∷ r) (e ∷ m)

-- An interleaving of the events of all tasks.
pub data Interleaving : List (List Event) → List Event → Type 0 where
  no_tasks : Interleaving [] []
  with_task :
      {t m n : List Event} {ts : List (List Event)}
      → Interleaving ts m
      → Merge t m n
      → Interleaving (t ∷ ts) n
