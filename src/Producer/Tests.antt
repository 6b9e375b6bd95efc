-- ===== src/Producer/Tests.antt =====
-- The queue of Celery with a broker that is down, and its theorem there.
use npm_sentinel.Base.{arith, ◌≡◌, refl, none, some, [], ◌∷◌, strip}
use npm_sentinel.Core.Exceptions.{
  ok, raise, queue_publish_error, kombu_error, value_error, is_instance, is_instance_of_any,
}
use npm_sentinel.Db.Models.{Db, PackageModel}
use npm_sentinel.Db.Table.{some_row}
use npm_sentinel.UseCases.EnqueueScan.{Surroundings}
use npm_sentinel.Api.Routes.{stripped_or, enqueue_scan_route}
use npm_sentinel.Api.Routes.Enqueue.{Answered}
use npm_sentinel.Producer.{
  Broker, send_task, enqueue_scan_package, enqueue_top_packages_batch, celery_scan_job_queue,
}
use npm_sentinel.Producer.Publishes.{FailsAsKnown, celery_scan_job_queue-Answered}

abbrev broken : Broker
broken task task_id = raise kombu_error "no answer"

broken-FailsAsKnown : FailsAsKnown broken
unfolding is_instance_of_any is_instance
broken-FailsAsKnown task task_id e h = ground arith

abbrev lodash : PackageModel
lodash = record {
  id = 1;
  name = "lodash";
  latest_scanned_version = none;
  last_scanned_at = none;
  created_at = 1;
  updated_at = 1;
}

abbrev tables : Db
tables = record {
  packages = lodash ∷ [];
  versions = [];
  scan_results = [];
  findings = [];
  queue_jobs = [];
}

abbrev around : Surroundings
around = record { now = 5; later = 6; new_package_id = 1; new_scan_id = 2; task_id = "t1" }

producer_tests :
    (enqueue_scan_package broken "lodash" "manual" none
      ≡ raise queue_publish_error "scan queue unavailable")
    × (enqueue_top_packages_batch (λ task task_id. raise value_error "x") 5 "manual" none
        ≡ raise value_error "x")
    × (enqueue_scan_package (λ task task_id. ok "t1") "lodash" "manual" (some "t1") ≡ ok "t1")
unfolding enqueue_scan_package enqueue_top_packages_batch send_task is_instance_of_any is_instance
producer_tests = (refl, refl, refl)

celery_scan_job_queue-Answered_example :
    Answered
      (celery_scan_job_queue broken)
      around
      (strip " lodash ")
      (stripped_or "manual" "")
      tables
      (enqueue_scan_route (celery_scan_job_queue broken) around " lodash " "" tables)
unfolding some_row
celery_scan_job_queue-Answered_example =
    celery_scan_job_queue-Answered broken around " lodash " "" tables broken-FailsAsKnown refl
