-- ===== src/UseCases/TopPackagesBatch.antt =====
-- app/application/use_cases/enqueue_top_packages_batch.py
pub mod Counts
use npm_sentinel.Base.{
  ℕ, suc, String, true, false, List, [], ◌∷◌, if◌then◌else◌, length, is_empty, strip,
}
use npm_sentinel.Core.Exceptions.{Result, ok, err, value_error, is_instance}
use npm_sentinel.Db.Models.{Db}
use npm_sentinel.UseCases.EnqueueScan.{ScanJobQueue, Surroundings, enqueue_scan}

pub record EnqueueTopPackagesBatchResult : Type 0 where
  pub requested : ℕ
  pub enqueued : ℕ
  pub skipped : ℕ

-- The two counters of the loop.
pub record Counters : Type 0 where
  pub enqueued : ℕ
  pub skipped : ℕ

abbrev pub skip : Counters → Counters
skip c = record c { skipped = suc c.skipped }

abbrev pub counted : Counters → Result String × Db → Result Counters × Db
counted c (ok _, db) = (ok (record c { enqueued = suc c.enqueued }), db)
counted c (err e, db) = elim (is_instance e.class value_error) [
  | true ↦ (ok (skip c), db)
  | false ↦ (err e, db)
]

-- One name: counted as enqueued or as skipped, unless an exception other than a `ValueError` is raised.
unfoldable pub enqueue_one :
    ScanJobQueue → Surroundings → String → String → Counters → Db → Result Counters × Db
enqueue_one queue around reason package_name c db =
    let name = strip package_name in
    if is_empty name
    then (ok (skip c), db)
    else counted c (enqueue_scan queue around name reason db)

abbrev pub next :
    (Counters → Db → Result Counters × Db) → Result Counters × Db → Result Counters × Db
next rest (ok c, db) = rest c db
next rest (err e, db) = (err e, db)

-- The loop; `arounds i` is what the call for the name at place `i` is given.
unfoldable pub enqueue_all :
    ScanJobQueue
    → (ℕ → Surroundings)
    → ℕ
    → String
    → List String
    → Counters
    → Db
    → Result Counters × Db
enqueue_all queue arounds place reason [] c db = (ok c, db)
enqueue_all queue arounds place reason (n ∷ ns) c db =
    next (enqueue_all queue arounds (suc place) reason ns)
      (enqueue_one queue (arounds place) reason n c db)

abbrev pub with_requested : ℕ → Result Counters × Db → Result EnqueueTopPackagesBatchResult × Db
with_requested n (ok c, db) =
    (ok (record { requested = n; enqueued = c.enqueued; skipped = c.skipped }), db)
with_requested n (err e, db) = (err e, db)

-- `EnqueueTopPackagesBatchUseCase.execute`, for what `load_package_names` returned.
unfoldable pub enqueue_batch :
    ScanJobQueue
    → (ℕ → Surroundings)
    → String
    → Result (List String)
    → Db
    → Result EnqueueTopPackagesBatchResult × Db
enqueue_batch queue arounds reason (err e) db = (err e, db)
enqueue_batch queue arounds reason (ok package_names) db =
    with_requested (length package_names)
      (enqueue_all queue arounds 0 reason package_names (record { enqueued = 0; skipped = 0 }) db)
