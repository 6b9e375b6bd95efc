-- ===== src/Worker/Journey.antt =====
-- From the request of a scan to its end: what app/application/use_cases/enqueue_scan.py records and publishes is the
-- scan and the job that `scan_package` of app/worker/tasks.py ends.
pub mod Alone
pub mod Unique
pub mod Begins
mod Tests
use std.Path.{subst}
use npm_sentinel.Base.{
  ℕ, String, ◌≡◌, refl, sym, ap, ◌∙◌, inl, inr, Bool, true, false, arith, Option, none, some, List,
  strip, is_empty,
}
use npm_sentinel.Core.Exceptions.{ExceptionClass, Result, ok, err}
use npm_sentinel.Db.Models.{Db, PackageModel, ScanResultModel, ScanStatus, QueueJobModel, is_queued}
use npm_sentinel.Db.Table.{some_row, some_row_of_find_row, find_row-meets}
use npm_sentinel.Db.Session.{fits, has_scan_id}
use npm_sentinel.Db.Lifecycle.{UniqueScans}
use npm_sentinel.Db.Packages.{get_by_name}
use npm_sentinel.Db.Scans.{get_scan, claimable}
use npm_sentinel.Db.Jobs.{has_task_id}
use npm_sentinel.Db.UnitOfWork.{transact, commit_or_rollback}
use npm_sentinel.UseCases.EnqueueScan.{ScanJobQueue, Surroundings, enqueue_scan, normalize_reason}
use npm_sentinel.UseCases.EnqueueScan.Recorded.{Recorded, queued_job}
use npm_sentinel.UseCases.EnqueueScan.Outcome.{Outcome, enqueue_scan-Outcome}
use npm_sentinel.UseCases.ScanPackage.{Ports, Clock}
use npm_sentinel.UseCases.ScanPackage.Claimed.{key_or, IsTaken, Taken}
use npm_sentinel.UseCases.ScanPackage.Transactions.{Failed}
use npm_sentinel.UseCases.ScanPackage.Outcome.{Done, Settled, Settled-execute}
use npm_sentinel.UseCases.ScanPackage.Run.{and_then, safe_error_message, execute}
use npm_sentinel.Worker.Journey.Alone.{IsAlone, only-Taken, claimable-recorded}
use npm_sentinel.Worker.Journey.Unique.{UniqueIfReturned, UniqueIfReturned-enqueue_scan}
use npm_sentinel.Worker.Journey.Begins.{Begins-waiting, Started-queued}
use npm_sentinel.Worker.Tasks.{mark_running, after_use_case, run_task, queue_task_id}
use npm_sentinel.Worker.Tasks.Jobs.{Open}
use npm_sentinel.Worker.Tasks.Outcome.{JobClosed, JobClosed-after_use_case}
use npm_sentinel.Worker.Tasks.Aside.{Left-after_use_case}
use npm_sentinel.Worker.Tasks.Scan.{scan_package, execute-get_job}

module _ {Archive Root : Type 0} (ports : Ports Archive Root) (class_name : ExceptionClass → String)
    (clock : Clock) (name : String) where
  -- A return: the scan under the key is completed. A raise: it is failed with the message.
  abbrev pub SettledAt : ℕ → Result (Unit {0}) → Db → Type 0
  SettledAt i (ok _) after = (p : ℕ) × Done ports class_name clock name p i after
  SettledAt i (err e) after = (p : ℕ) × Failed p i (safe_error_message class_name e) after

  SettledAt-aside :
      (i : ℕ) (r : Result (Unit {0})) (db : Db) (jobs : List QueueJobModel)
      → SettledAt i r db
      → SettledAt i r (record db { queue_jobs = jobs })
  unfolding get_scan
  SettledAt-aside i (ok _) db jobs settled = settled
  SettledAt-aside i (err e) db jobs settled = settled

  SettledAt-of_Settled :
      (i : ℕ) (before : Db)
      → ((p j : ℕ) → Taken clock name before p j → j ≡ i)
      → (r : Result (Unit {0}) × Db) → Settled ports class_name clock name before r
      → SettledAt i r.0 r.1
  SettledAt-of_Settled i before only (ok _, after) (p, j, taken, done) =
      (p, subst (λ k. Done ports class_name clock name p k after) (only p j taken) done)
  SettledAt-of_Settled i before only (err e, after) (p, j, taken, failed) =
      (p, subst (λ k. Failed p k (safe_error_message class_name e) after) (only p j taken) failed)

-- What is known where the scan was recorded and published.
abbrev IsQueued : Surroundings → String → String → Db → Type 0
IsQueued around name why after = Recorded around name (queued_job around name why) after

module _ {Archive Root : Type 0} (ports : Ports Archive Root) (class_name : ExceptionClass → String)
    (clock : Clock) (queue : ScanJobQueue) (around : Surroundings) where
  -- The worker runs the task of the scan under this identifier: how its job ends, and the scan that was recorded.
  abbrev pub Journey : String → String → ℕ → ℕ → Db → String → Type 0
  Journey name why started_at ended_at before task_id =
      JobClosed class_name ended_at task_id
        (scan_package ports class_name clock name started_at ended_at task_id why before)
      × SettledAt ports class_name clock name around.new_scan_id
          (scan_package ports class_name clock name started_at ended_at task_id why before).0
          (scan_package ports class_name clock name started_at ended_at task_id why before).1

  -- The use case, whatever jobs there are.
  SettledAt-execute :
      (name why : String) (after : Db) (jobs : List QueueJobModel)
      → UniqueScans after
      → fits 255 name ≡ true
      → IsAlone clock.locked around.new_scan_id after
      → Recorded around name (queued_job around name why) after
      → SettledAt ports class_name clock name around.new_scan_id
          (execute ports class_name clock name (record after { queue_jobs = jobs })).0
          (execute ports class_name clock name (record after { queue_jobs = jobs })).1
  unfolding get_by_name get_scan
  SettledAt-execute name why after jobs u fit (free, alone)
        (q, s, named, own, queued, there, idle, job) =
      let db : Db = record after { queue_jobs = jobs } in
      let (keys, begun, began) =
        Begins-waiting clock name db q u fit named
          (claimable-recorded clock around.new_scan_id db q s free own there queued) in
      SettledAt-of_Settled ports class_name clock name around.new_scan_id db
        (only-Taken clock name around.new_scan_id db q s (free, alone) named own there queued)
        (execute ports class_name clock name db)
        (Settled-execute ports class_name clock name db {keys = keys} {after = begun} u began)

  scan_package-started :
      (name why : String) (started_at ended_at : ℕ) (task_id : String) (before marked : Db)
      → mark_running started_at task_id "scan_package" (some name) why before ≡ ok (tt, marked)
      → scan_package ports class_name clock name started_at ended_at task_id why before
        ≡ after_use_case class_name ended_at task_id (execute ports class_name clock name marked)
  unfolding scan_package run_task transact commit_or_rollback and_then
  scan_package-started name why started_at ended_at task_id before marked step = rw step refl

  Journey-Recorded :
      (name why : String) (started_at ended_at : ℕ) (after : Db)
      → UniqueScans after × (fits 255 name ≡ true)
      → IsAlone clock.locked around.new_scan_id after
      → Recorded around name (queued_job around name why) after
      → Journey name why started_at ended_at after around.task_id
  Journey-Recorded name why started_at ended_at after (u, fit) alone recorded =
      let (q, s, named, own, queued, there, idle, job) = recorded in
      let (marked, step, (j, at, may), (jobs, same)) =
        Started-queued started_at around.task_id "scan_package" (some name) why after
          {j = queued_job around name why} job refl in
      let settled =
        subst
          (λ (d : Db).
            SettledAt ports class_name clock name around.new_scan_id
              (execute ports class_name clock name d).0 (execute ports class_name clock name d).1)
          (sym same) (SettledAt-execute name why after jobs u fit alone recorded) in
      let opened : Open around.task_id (execute ports class_name clock name marked).1 =
        (j, execute-get_job ports class_name clock name around.task_id marked ∙ at, may) in
      rw (scan_package-started name why started_at ended_at around.task_id after marked step) (
        JobClosed-after_use_case class_name ended_at around.task_id
            (execute ports class_name clock name marked) opened,
        Left-after_use_case class_name ended_at around.task_id
            (SettledAt ports class_name clock name around.new_scan_id)
            (SettledAt-aside ports class_name clock name around.new_scan_id)
            (execute ports class_name clock name marked) opened settled,
      )

  known_as :
      (id fresh : String)
      → id ≡ around.task_id
      → is_empty around.task_id ≡ false
      → around.task_id ≡ queue_task_id none (some id) fresh
  known_as id fresh same named = rw (same, named) refl

  Journey-returned :
      (name why : String) (started_at ended_at : ℕ) (fresh : String) (db : Db)
      (r : Result String × Db) {id : String} {after : Db}
      → Outcome queue around name why db r
      → UniqueIfReturned name r
      → r ≡ (ok id, after)
      → IsAlone clock.locked around.new_scan_id after
      → is_empty around.task_id ≡ false
      → Journey name why started_at ended_at after (queue_task_id none (some id) fresh)
  Journey-returned name why started_at ended_at fresh db r {id} {after} outcome u h alone named =
      let (same, _, _, recorded) = subst (Outcome queue around name why db) h outcome in
      subst (Journey name why started_at ended_at after) (known_as id fresh same named) (
        Journey-Recorded name why started_at ended_at after (subst (UniqueIfReturned name) h u)
          alone recorded)

  -- If the request of a scan returns, where no two scan results had the same key and no job had the fresh identifier,
  -- which is not empty, and then no other scan of the package waits unlocked and the recorded one is not locked, then
  -- the worker that runs the task of the scan, under the identifier that was published, ends the job and the scan
  -- that the request has recorded. If the task returns, the job is completed, and so is the scan, as the registry and
  -- the analysis imply. If it raises, the job is failed with the message of the exception, or the name of its class
  -- where the message is empty, and the scan is failed with the safe message.
  pub enqueue_scan-Journey :
      (package_name reason fresh : String) (started_at ended_at : ℕ) (db : Db) {id : String}
      {after : Db}
      → UniqueScans db
      → some_row (has_task_id around.task_id) db.queue_jobs ≡ false
      → is_empty around.task_id ≡ false
      → enqueue_scan queue around package_name reason db ≡ (ok id, after)
      → IsAlone clock.locked around.new_scan_id after
      → Journey
          (strip package_name)
          (normalize_reason reason)
          started_at
          ended_at
          after
          (queue_task_id none (some id) fresh)
  enqueue_scan-Journey package_name reason fresh started_at ended_at db {id} {after} u new named
        returned alone =
      Journey-returned (strip package_name) (normalize_reason reason) started_at ended_at fresh db
        (enqueue_scan queue around package_name reason db) {id = id} {after = after}
        (enqueue_scan-Outcome queue around package_name reason db new)
        (UniqueIfReturned-enqueue_scan queue around package_name reason db u) returned alone named
