-- ===== src/Producer.antt =====
-- app/infrastructure/queue/producer.py: the two tasks are sent to the broker.
mod Tests
pub mod Publishes
use npm_sentinel.Base.{if◌then◌else◌, ℕ, String, true, false, Option, some, [], ◌∷◌}
use npm_sentinel.Core.Exceptions.{
  Exception, Result, ok, err, raise, queue_publish_error, kombu_error, os_error, is_instance_of_any,
}
use npm_sentinel.UseCases.EnqueueScan.{ScanJobQueue}

-- A task by its name, with its arguments.
pub data Task : Type 0 where
  scan_package : String → String → Task
  enqueue_top_packages : ℕ → String → Task

-- `celery_app.send_task`: the identifier of the task that is sent, or what the broker raises.
abbrev pub Broker : Type 0
Broker = Task → Option String → Result String

abbrev pub sent : Result String → Result String
sent (ok id) = ok id
sent (err e) =
    if is_instance_of_any (kombu_error ∷ os_error ∷ []) e.class
    then raise queue_publish_error "scan queue unavailable"
    else err e

-- `_send_task`
unfoldable pub send_task : Broker → Task → Option String → Result String
unfolding is_instance_of_any
send_task broker task task_id = sent (broker task task_id)

unfoldable pub enqueue_scan_package : Broker → String → String → Option String → Result String
unfolding send_task
enqueue_scan_package broker package_name reason task_id =
    send_task broker (scan_package package_name reason) task_id

unfoldable pub enqueue_top_packages_batch : Broker → ℕ → String → Option String → Result String
unfolding send_task
enqueue_top_packages_batch broker limit reason task_id =
    send_task broker (enqueue_top_packages limit reason) task_id

abbrev pub ignored : Result String → Result (Unit {0})
ignored (ok id) = ok tt
ignored (err e) = err e

-- `CeleryScanJobQueue`, as the queue of `EnqueueScanUseCase`, which does not use what is returned.
abbrev pub celery_scan_job_queue : Broker → ScanJobQueue
celery_scan_job_queue broker = record {
  enqueue_scan_package = λ package_name reason task_id.
      ignored (enqueue_scan_package broker package_name reason (some task_id));
}
