-- ===== src/Api/Routes/Batches.antt =====
-- The two routes of a batch: `enqueue_scan_batch` and `enqueue_top_packages_compat` of app/api/routes.py.
use npm_sentinel.Base.{
  ℕ, String, ◌≡◌, refl, ◌⊎◌, inl, inr, Bool, true, false, ◌&&◌, Option, none, some, List,
  Bool-cases, arith, count, leb, strip, is_empty, if◌then◌else◌,
}
use npm_sentinel.Core.Exceptions.{Result, ok, err, value_error, queue_publish_error, is_instance}
use npm_sentinel.Db.Models.{Db}
use npm_sentinel.UseCases.EnqueueScan.{ScanJobQueue, Surroundings}
use npm_sentinel.UseCases.TopPackagesBatch.{EnqueueTopPackagesBatchResult, enqueue_batch}
use npm_sentinel.Api.Schemas.{
  Http, responded, http_exception, unprocessable, unhandled, ScanBatchRequest, ScanBatchResponse,
}
use npm_sentinel.Api.Routes.{
  stripped_or, batch_answer, enqueue_scan_batch, accepts_optional_limit, limit_or,
  enqueue_top_packages_compat, scan_batches_route,
}

-- The number of packages that the query asks for.
abbrev pub asked : ℕ → Option ℕ → ℕ
asked default none = default
asked default (some n) = n

abbrev pub body : ℕ → String → ScanBatchRequest
body n reason = record { source = "top_packages"; limit = n; reason = reason }

-- From 1 to 1000 packages, for a reason of 1 to 64 characters.
abbrev pub in_bounds : ℕ → String → Bool
in_bounds n reason = leb 1 n && leb n 1000 && (leb 1 (count reason) && leb (count reason) 64)

-- The reason without the white space around it, or the one of a batch if nothing is left.
abbrev pub batch_reason : String → String
batch_reason reason = if is_empty (strip reason) then "manual_batch" else strip reason

-- The answer to what the use case returned or raised, and the tables that it left.
abbrev pub AnswerTo :
    String → Result EnqueueTopPackagesBatchResult × Db → Http ScanBatchResponse × Db → Type 0
AnswerTo reason (ok counts, after) answer = answer ≡ (
  responded 202 (record {
    status = "queued";
    source = "top_packages";
    requested = counts.requested;
    enqueued = counts.enqueued;
    skipped = counts.skipped;
    reason = reason;
  }),
  after,
)
AnswerTo reason (err e, after) answer =
    ((is_instance e.class queue_publish_error ≡ true)
      × (answer ≡ (http_exception 503 "scan queue unavailable", after)))
    ⊎ ((is_instance e.class queue_publish_error ≡ false) × (answer ≡ (unhandled e, after)))

AnswerTo-batch_answer :
    (n : ℕ) (text reason : String) (result : Result EnqueueTopPackagesBatchResult × Db)
    → AnswerTo reason result (batch_answer (body n text) reason result)
AnswerTo-batch_answer n text reason (ok counts, after) = refl
AnswerTo-batch_answer n text reason (err e, after) =
    elim (Bool-cases (is_instance e.class queue_publish_error)) [
      | inl down ↦ inl (down, rw down refl)
      | inr other ↦ inr (other, rw other refl)
    ]

module _ (queue : ScanJobQueue) (arounds : ℕ → Surroundings) (load : ℕ → Result (List String)) where
  -- Both routes answer to the batch of the first `n` packages; or the compatibility route fails, where the other one
  -- refuses the body, and nothing is changed.
  abbrev pub BothAnswer :
      ℕ → String → Db → Bool → Http ScanBatchResponse × Db → Http ScanBatchResponse × Db → Type 0
  BothAnswer n reason db true compat batch =
      (compat ≡ batch)
      × AnswerTo (batch_reason reason)
          (enqueue_batch queue arounds (batch_reason reason) (load n) db) batch
  BothAnswer n reason db false compat batch =
      (compat ≡ (unhandled (record { class = value_error; message = "validation error" }), db))
      × (batch ≡ (unprocessable, db))

  AnswerTo-enqueue_scan_batch :
      (n : ℕ) (reason : String) (db : Db)
      → AnswerTo
          (batch_reason reason)
          (enqueue_batch queue arounds (batch_reason reason) (load n) db)
          (enqueue_scan_batch queue arounds load (body n reason) db)
  unfolding enqueue_scan_batch stripped_or
  AnswerTo-enqueue_scan_batch n reason db =
      AnswerTo-batch_answer n reason (batch_reason reason)
        (enqueue_batch queue arounds (batch_reason reason) (load n) db)

  compat-eq-body :
      (default n : ℕ) (limit : Option ℕ) (reason : String) (db : Db)
      → accepts_optional_limit limit ≡ true
      → limit_or default limit ≡ n
      → enqueue_top_packages_compat queue arounds load default limit reason db ≡ (
          if in_bounds n reason
          then enqueue_scan_batch queue arounds load (body n reason) db
          else (unhandled (record { class = value_error; message = "validation error" }), db))
  unfolding enqueue_top_packages_compat
  compat-eq-body default n limit reason db accepted same = rw (accepted, same) refl

  batch-eq-body :
      (n : ℕ) (reason : String) (db : Db)
      → scan_batches_route queue arounds load (body n reason) db ≡ (
          if in_bounds n reason
          then enqueue_scan_batch queue arounds load (body n reason) db
          else (unprocessable, db))
  unfolding scan_batches_route
  batch-eq-body n reason db = refl

  both_answer :
      (n : ℕ) (reason : String) (db : Db) (fine : Bool)
      → BothAnswer n reason db fine
          (if fine
            then enqueue_scan_batch queue arounds load (body n reason) db
            else (unhandled (record { class = value_error; message = "validation error" }), db))
          (if fine
            then enqueue_scan_batch queue arounds load (body n reason) db
            else (unprocessable, db))
  both_answer n reason db true = (refl, AnswerTo-enqueue_scan_batch n reason db)
  both_answer n reason db false = (refl, refl)

  limit_or-eq-asked :
      (default : ℕ) (limit : Option ℕ)
      → accepts_optional_limit limit ≡ true
      → limit_or default limit ≡ asked default limit
  limit_or-eq-asked default none h = refl
  limit_or-eq-asked default (some n) h = ground arith

  -- For a limit that the query accepts, let `n` be that limit, or the one of the settings if there is none, and take the
  -- body with `n` and the reason. If `n` is from 1 to 1000 and the reason has 1 to 64 characters, then
  -- `POST /scans/top-packages` and `POST /scan-batches` with that body leave the same tables and give the same answer:
  -- they run the batch of the first `n` packages for the stripped reason, or `manual_batch` if that is empty, leave
  -- the tables that it leaves, and answer 202 with its counts, 503 where it raises `QueuePublishError`, and let
  -- another exception pass. Otherwise an exception leaves the first route, while the second refuses the body with
  -- 422, and neither changes the tables.
  pub enqueue_top_packages_compat-eq-scan_batches_route :
      (top_package_limit : ℕ) (limit : Option ℕ) (reason : String) (db : Db)
      → accepts_optional_limit limit ≡ true
      → BothAnswer
          (asked top_package_limit limit)
          reason
          db
          (in_bounds (asked top_package_limit limit) reason)
          (enqueue_top_packages_compat queue arounds load top_package_limit limit reason db)
          (scan_batches_route queue arounds load (body (asked top_package_limit limit) reason) db)
  enqueue_top_packages_compat-eq-scan_batches_route top_package_limit limit reason db accepted =
      rw
        (
          compat-eq-body top_package_limit (asked top_package_limit limit) limit reason db accepted
              (limit_or-eq-asked top_package_limit limit accepted),
          batch-eq-body (asked top_package_limit limit) reason db,
        )
        (both_answer (asked top_package_limit limit) reason db
          (in_bounds (asked top_package_limit limit) reason))
