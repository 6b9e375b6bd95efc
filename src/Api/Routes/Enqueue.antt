-- ===== src/Api/Routes/Enqueue.antt =====
-- What `enqueue_scan` answers, and what is left in the tables then.
use npm_sentinel.Db.UnitOfWork.{commit_or_rollback, transact}
use npm_sentinel.UseCases.EnqueueScan.Refused.{record_scan-FailsWith}
use npm_sentinel.Db.Raises.{FailsWith}
use npm_sentinel.Base.{
  String, ◌≡◌, ◌<◌, refl, ap, ◌⊎◌, inl, inr, true, false, arith, strip, strip_idem, count,
  Bool-cases, if◌then◌else◌, is_empty,
}
use npm_sentinel.Core.Exceptions.{
  Exception, Result, ok, err, value_error, queue_publish_error, database_error, is_instance,
  ExceptionClass,
}
use npm_sentinel.Db.Models.{Db, ScanResultModel}
use npm_sentinel.Db.Table.{some_row}
use npm_sentinel.Db.Jobs.{has_task_id}
use npm_sentinel.UseCases.PackageName.{is_valid_package_name}
use npm_sentinel.UseCases.EnqueueScan.{
  ScanJobQueue, Surroundings, normalize_reason, enqueue_scan, publish, record_scan,
}
use npm_sentinel.UseCases.EnqueueScan.Recorded.{Recorded, queued_job, unpublished_job}
use npm_sentinel.UseCases.EnqueueScan.Outcome.{Outcome, enqueue_scan-Outcome}
use npm_sentinel.Api.Schemas.{
  Http, responded, http_exception, unprocessable, unhandled, EnqueueScanResponse,
}
use npm_sentinel.Api.Routes.{stripped_or, enqueue_failure, enqueue_answer, enqueue_scan_route}

-- 202 for a scan that waits with its job; 400 for a name that is no package name; 503 for a scan that is recorded,
-- whose job is failed since the queue did not take it; and no answer where the database refused a value.
abbrev pub Answered :
    ScanJobQueue → Surroundings → String → String → Db → Http EnqueueScanResponse × Db → Type 0
Answered queue around name why before (responded code r, after) =
    (code ≡ 202)
    × (r ≡ record { status = "queued"; package_name = name; reason = why })
    × (is_valid_package_name name ≡ true)
    × (queue.enqueue_scan_package name why around.task_id ≡ ok tt)
    × Recorded around name (queued_job around name why) after
Answered queue around name why before (http_exception code detail, after) =
    ((code ≡ 400)
      × (detail ≡ "invalid package name")
      × (is_valid_package_name name ≡ false)
      × (after ≡ before))
    ⊎ ((code ≡ 503)
        × (detail ≡ "scan queue unavailable")
        × Recorded around name (unpublished_job around name why) after)
Answered queue around name why before (unprocessable, after) = ⊥
Answered queue around name why before (unhandled e, after) =
    (e.class ≡ database_error) × (is_valid_package_name name ≡ true) × (after ≡ before)

failure_of_invalid :
    (e : Exception)
    → e ≡ record { class = value_error; message = "invalid package name" }
    → enqueue_failure e ≡ http_exception 400 "invalid package name"
unfolding is_instance
failure_of_invalid e h = rw h refl

failure_of_database : (e : Exception) → e.class ≡ database_error → enqueue_failure e ≡ unhandled e
unfolding is_instance
failure_of_database e h =
    ap
      (λ (c : ExceptionClass).
        if is_instance c value_error
        then http_exception 400 e.message
        else if is_instance c queue_publish_error
        then http_exception 503 "scan queue unavailable"
        else unhandled e)
      h

failure_of_queue :
    (e : Exception)
    → e.class ≡ queue_publish_error
    → enqueue_failure e ≡ http_exception 503 "scan queue unavailable"
unfolding is_instance
failure_of_queue e h =
    ap
      (λ (c : ExceptionClass).
        if is_instance c value_error
        then http_exception 400 e.message
        else if is_instance c queue_publish_error
        then http_exception 503 "scan queue unavailable"
        else unhandled e)
      h

is_publish_error :
    (e : Exception) → e.class ≡ queue_publish_error → is_instance e.class queue_publish_error ≡ true
unfolding is_instance
is_publish_error e h = rw h refl

module _ (queue : ScanJobQueue) (around : Surroundings) (name why : String) (before : Db)
    (publishes : (e : Exception)
      → queue.enqueue_scan_package name why around.task_id ≡ err e
      → e.class ≡ queue_publish_error) where
  Answered-enqueue_answer :
      (r : Result String × Db)
      → Outcome queue around name why before r
      → Answered queue around name why before (enqueue_answer name why r)
  Answered-enqueue_answer (ok task_id, after) (_, valid, taken, recorded) =
      (refl, refl, valid, taken, recorded)
  Answered-enqueue_answer (err e, after) (inl (same, inl (invalid, class))) =
      rw (failure_of_invalid e class) (inl (refl, refl, invalid, same))
  Answered-enqueue_answer (err e, after) (inl (same, inr (valid, class))) =
      rw (failure_of_database e class) (class, valid, same)
  Answered-enqueue_answer (err e, after) (inr (raised, recorded)) =
      let class = publishes e raised in
      rw (failure_of_queue e class) (inr (refl, refl, rw (is_publish_error e class) at recorded))

normalize_reason-stripped_or :
    (reason : String) → normalize_reason (stripped_or "manual" reason) ≡ stripped_or "manual" reason
unfolding normalize_reason stripped_or strip
normalize_reason-stripped_or reason = elim (Bool-cases (is_empty (strip reason))) [
  | inl nothing ↦ rw nothing refl
  | inr something ↦ rw (something, strip_idem reason, something) refl
]

-- If the fresh identifier of the task is not that of a job already there, and the queue raises only a
-- `QueuePublishError`, then the route answers 202 for a scan that the queue took, which is recorded as queued with
-- its job, under the stripped name and reason; 400 exactly where the stripped name is no package name, with nothing
-- changed; 503 where the queue raised, with the scan recorded and its job failed; and it has no answer only where
-- the name is valid and the database refused a value, with nothing changed.
pub enqueue_scan_route-Answered :
    (queue : ScanJobQueue) (around : Surroundings) (package_name reason : String) (db : Db)
    → some_row (has_task_id around.task_id) db.queue_jobs ≡ false
    → ((e : Exception)
        → queue.enqueue_scan_package
            (strip package_name)
            (stripped_or "manual" reason)
            around.task_id
          ≡ err e
        → e.class ≡ queue_publish_error)
    → Answered queue around
        (strip package_name)
        (stripped_or "manual" reason)
        db
        (enqueue_scan_route queue around package_name reason db)
unfolding enqueue_scan_route
enqueue_scan_route-Answered queue around package_name reason db new publishes =
    Answered-enqueue_answer queue around (strip package_name) (stripped_or "manual" reason) db
      publishes (enqueue_scan queue around (strip package_name) (stripped_or "manual" reason) db)
      (rw (strip_idem package_name, normalize_reason-stripped_or reason) at
        (enqueue_scan-Outcome queue around (strip package_name) (stripped_or "manual" reason) db
          new))

module _ (queue : ScanJobQueue) (around : Surroundings) (name why : String) (db : Db) where
  unhandled-publish :
      (r : Result (ScanResultModel × Db))
      → FailsWith database_error r
      → (e : Exception) × (e.class ≡ database_error)
        × (enqueue_answer name why (publish queue around name why (commit_or_rollback db r))
            ≡ (unhandled e, db))
  unfolding commit_or_rollback
  unhandled-publish (ok (s, after)) h = absurd h
  unhandled-publish (err e) h =
      (e, h, ap (λ (a : Http EnqueueScanResponse). (a, db)) (failure_of_database e h))

still_long :
    (stripped : String)
    → 64 < count stripped
    → 64 < count (if is_empty stripped then "manual" else stripped)
still_long String.[] long = absurd (omega arith)
still_long (String.◌∷◌ c s) long = long

long-stripped_or :
    (reason : String) → 64 < count (strip reason) → 64 < count (stripped_or "manual" reason)
unfolding stripped_or
long-stripped_or reason long = still_long (strip reason) long

-- If the stripped name is a package name and the stripped reason has more than 64 characters, then the route
-- has no answer: an exception of the database leaves it, and nothing is changed.
pub enqueue_scan_route-long_reason :
    (queue : ScanJobQueue) (around : Surroundings) (package_name reason : String) (db : Db)
    → is_valid_package_name (strip package_name) ≡ true
    → 64 < count (strip reason)
    → (e : Exception) × (e.class ≡ database_error)
      × (enqueue_scan_route queue around package_name reason db ≡ (unhandled e, db))
unfolding enqueue_scan_route enqueue_scan transact
enqueue_scan_route-long_reason queue around package_name reason db valid long =
    rw (strip_idem package_name, normalize_reason-stripped_or reason, valid)
      (unhandled-publish queue around (strip package_name) (stripped_or "manual" reason) db
        (record_scan around (strip package_name) (stripped_or "manual" reason) db)
        (record_scan-FailsWith around (strip package_name) (stripped_or "manual" reason) db
          (long-stripped_or reason long)))
