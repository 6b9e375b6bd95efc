-- ===== src/Producer/Publishes.antt =====
-- The routes with the queue of Celery.
use npm_sentinel.Base.{String, ◌≡◌, refl, true, false, some, arith, strip, [], ◌∷◌}
use npm_sentinel.Core.Exceptions.{
  Exception, Result, ok, err, queue_publish_error, kombu_error, os_error, is_instance_of_any,
}
use npm_sentinel.Db.Models.{Db}
use npm_sentinel.Db.Table.{some_row}
use npm_sentinel.Db.Jobs.{has_task_id}
use npm_sentinel.UseCases.EnqueueScan.{Surroundings}
use npm_sentinel.Api.Routes.{stripped_or, enqueue_scan_route}
use npm_sentinel.Api.Routes.Enqueue.{Answered, enqueue_scan_route-Answered}
use npm_sentinel.Producer.{
  Task, scan_package, Broker, sent, ignored, send_task, enqueue_scan_package, celery_scan_job_queue,
}

-- A broker that fails only as the client library documents: by a `KombuError` or an `OSError`.
abbrev pub FailsAsKnown : Broker → Type 0
FailsAsKnown broker =
    (task : Task) (task_id : String) (e : Exception)
    → broker task (some task_id) ≡ err e
    → is_instance_of_any (kombu_error ∷ os_error ∷ []) e.class ≡ true

sent_publishes :
    (r : Result String)
    → ((e : Exception)
        → r ≡ err e
        → is_instance_of_any (kombu_error ∷ os_error ∷ []) e.class ≡ true)
    → (f : Exception) → ignored (sent r) ≡ err f
    → f.class ≡ queue_publish_error
sent_publishes (ok id) known f h = cc
sent_publishes (err e) known f h = ground (arith, known e refl)

-- With a broker that fails only by a `KombuError` or an `OSError`, and a fresh identifier of the task: the route
-- answers 202 for a scan that the broker took, 400 for a name that is no package name, and 503 where the broker
-- failed, with the tables as `Answered` says; and it has no answer only where the database refused a value.
pub celery_scan_job_queue-Answered :
    (broker : Broker) (around : Surroundings) (package_name reason : String) (db : Db)
    → FailsAsKnown broker
    → some_row (has_task_id around.task_id) db.queue_jobs ≡ false
    → Answered
        (celery_scan_job_queue broker)
        around
        (strip package_name)
        (stripped_or "manual" reason)
        db
        (enqueue_scan_route (celery_scan_job_queue broker) around package_name reason db)
unfolding enqueue_scan_package send_task
celery_scan_job_queue-Answered broker around package_name reason db known new =
    enqueue_scan_route-Answered (celery_scan_job_queue broker) around package_name reason db new
      λ e h.
        sent_publishes
          (broker (scan_package (strip package_name) (stripped_or "manual" reason))
            (some around.task_id))
          (known (scan_package (strip package_name) (stripped_or "manual" reason)) around.task_id) e
          h
