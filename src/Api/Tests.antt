-- ===== src/Api/Tests.antt =====
-- Runs of the routes, and their theorems at concrete inputs.
use npm_sentinel.Base.{some, true, String, ◌≡◌, refl, ◌↔◌, none, [], ◌∷◌, strip, arith}
use npm_sentinel.Core.Exceptions.{
  Exception, ok, err, raise, queue_publish_error, database_error, is_instance,
}
use npm_sentinel.Db.Models.{Db, PackageModel}
use npm_sentinel.Db.Packages.{get_by_name, upsert_package}
use npm_sentinel.Db.Scans.{create_scan_result, mark_scan_failed}
use npm_sentinel.Db.Jobs.{create_queue_job, mark_queue_job_failed}
use npm_sentinel.Db.UnitOfWork.{transact}
use npm_sentinel.UseCases.PackageName.{is_valid_package_name}
use npm_sentinel.UseCases.EnqueueScan.{
  ScanJobQueue, Surroundings, enqueue_scan, record_scan, normalize_reason, record_unpublished,
}
use npm_sentinel.Api.Schemas.{http_exception, unhandled}
use npm_sentinel.Api.Routes.{
  enqueue_scan_route, enqueue_top_packages_compat, scan_batches_route, list_package_versions_route,
}
use npm_sentinel.Api.Routes.Enqueue.{enqueue_scan_route-long_reason}
use npm_sentinel.Api.Routes.Batches.{
  body, BothAnswer, enqueue_top_packages_compat-eq-scan_batches_route,
}
use npm_sentinel.Api.Routes.Listed.{NoVersion, list_package_versions_route-not_found_iff}

abbrev lodash : PackageModel
lodash = record {
  id = 1;
  name = "lodash";
  latest_scanned_version = none;
  last_scanned_at = none;
  created_at = 1;
  updated_at = 1;
}

-- A package that waits for its first scan.
abbrev one_package : Db
one_package = record {
  packages = lodash ∷ [];
  versions = [];
  scan_results = [];
  findings = [];
  queue_jobs = [];
}

abbrev around : Surroundings
around = record { now = 5; later = 6; new_package_id = 1; new_scan_id = 2; task_id = "t1" }

abbrev broken_queue : ScanJobQueue
broken_queue = record {
  enqueue_scan_package = λ name reason task_id. raise queue_publish_error "down";
}

broken_raises :
    (name reason task_id : String) (e : Exception)
    → broken_queue.enqueue_scan_package name reason task_id ≡ err e
    → e.class ≡ queue_publish_error
broken_raises name reason task_id e h = ground arith

abbrev long_reason : String
long_reason = "a reason that is far longer than the column of the job, which takes 64"

routes_tests :
    ((enqueue_scan_route broken_queue around " lodash " "" one_package).0
      ≡ http_exception 503 "scan queue unavailable")
    × ((enqueue_scan_route broken_queue around "Lodash" "" one_package).0
        ≡ http_exception 400 "invalid package name")
    × (list_package_versions_route "lodash" 20 0 one_package
        ≡ http_exception 404 "package not found")
unfolding enqueue_scan_route enqueue_scan is_valid_package_name strip transact record_scan
    upsert_package create_scan_result create_queue_job normalize_reason is_instance
    list_package_versions_route record_unpublished mark_queue_job_failed mark_scan_failed
routes_tests = (refl, refl, refl)

enqueue_scan_route-long_reason_example :
    (e : Exception) × (e.class ≡ database_error)
    × (enqueue_scan_route broken_queue around "lodash" long_reason one_package
        ≡ (unhandled e, one_package))
unfolding is_valid_package_name strip
enqueue_scan_route-long_reason_example =
    enqueue_scan_route-long_reason broken_queue around "lodash" long_reason one_package refl
      (omega arith)

enqueue_top_packages_compat-eq-scan_batches_route_example :
    BothAnswer broken_queue
      (λ i. around)
      (λ n. ok [])
      7
      " "
      one_package
      true
      (enqueue_top_packages_compat broken_queue
        (λ i. around)
        (λ n. ok [])
        1000
        (some 7)
        " "
        one_package)
      (scan_batches_route broken_queue (λ i. around) (λ n. ok []) (body 7 " ") one_package)
enqueue_top_packages_compat-eq-scan_batches_route_example =
    enqueue_top_packages_compat-eq-scan_batches_route broken_queue (λ i. around) (λ n. ok []) 1000
      (some 7) " " one_package refl

list_package_versions_route-not_found_iff_example :
    (list_package_versions_route " lodash " 20 0 one_package
      ≡ http_exception 404 "package not found")
    ↔ NoVersion one_package (get_by_name (strip " lodash ") one_package)
list_package_versions_route-not_found_iff_example =
    list_package_versions_route-not_found_iff " lodash " 20 0 one_package tt refl
