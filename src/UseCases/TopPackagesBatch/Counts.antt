-- ===== src/UseCases/TopPackagesBatch/Counts.antt =====
-- What `EnqueueTopPackagesBatchUseCase.execute` counts.
use npm_sentinel.Base.{
  ℕ, suc, ◌+◌, String, ◌≡◌, refl, inl, inr, false, List, [], ◌∷◌, arith, Bool-cases, length,
  is_empty, strip,
}
use npm_sentinel.Core.Exceptions.{Result, ok, err, value_error, is_instance}
use npm_sentinel.Db.Models.{Db}
use npm_sentinel.UseCases.EnqueueScan.{ScanJobQueue, Surroundings, enqueue_scan}
use npm_sentinel.UseCases.TopPackagesBatch.{
  EnqueueTopPackagesBatchResult, Counters, enqueue_one, counted, enqueue_all, next, with_requested,
  enqueue_batch,
}

-- So many more names are counted, or an exception that is no `ValueError` is raised.
abbrev More : ℕ → Counters → Result Counters × Db → Type 0
More n c (ok d, _) = d.enqueued + d.skipped ≡ n + (c.enqueued + c.skipped)
More n c (err e, _) = is_instance e.class value_error ≡ false

More-counted : (c : Counters) (r : Result String × Db) → More 1 c (counted c r)
More-counted c (ok _, db) = omega arith
More-counted c (err e, db) = elim (Bool-cases (is_instance e.class value_error)) [
  | inl invalid ↦ rw (invalid, counted) (omega arith)
  | inr other ↦ rw (other, counted) other
]

More-enqueue_one :
    (queue : ScanJobQueue) (around : Surroundings) (reason n : String) (c : Counters) (db : Db)
    → More 1 c (enqueue_one queue around reason n c db)
unfolding enqueue_one
More-enqueue_one queue around reason n c db = elim (Bool-cases (is_empty (strip n))) [
  | inl blank ↦ rw (blank, enqueue_one) (omega arith)
  | inr named ↦
      rw (named, enqueue_one) (More-counted c (enqueue_scan queue around (strip n) reason db))
]

More-suc :
    (n : ℕ) (c d : Counters) (r : Result Counters × Db)
    → d.enqueued + d.skipped ≡ 1 + (c.enqueued + c.skipped)
    → More n d r
    → More (suc n) c r
More-suc n c d (ok e, _) h k = omega (arith, h, k)
More-suc n c d (err e, _) h k = k

More-next :
    (n : ℕ) (c : Counters) (rest : Counters → Db → Result Counters × Db) (r : Result Counters × Db)
    → More 1 c r
    → ((d : Counters) (db : Db) → More n d (rest d db))
    → More (suc n) c (next rest r)
More-next n c rest (ok d, db) h k = More-suc n c d (rest d db) h (k d db)
More-next n c rest (err e, db) h k = h

More-enqueue_all :
    (queue : ScanJobQueue) (arounds : ℕ → Surroundings) (place : ℕ) (reason : String)
    (ns : List String) (c : Counters) (db : Db)
    → More (length ns) c (enqueue_all queue arounds place reason ns c db)
unfolding enqueue_all
More-enqueue_all queue arounds place reason [] c db = omega arith
More-enqueue_all queue arounds place reason (n ∷ ns) c db =
    More-next (length ns) c (enqueue_all queue arounds (suc place) reason ns)
      (enqueue_one queue (arounds place) reason n c db)
      (More-enqueue_one queue (arounds place) reason n c db)
      (λ d db. More-enqueue_all queue arounds (suc place) reason ns d db)

abbrev pub Counts : List String → Result EnqueueTopPackagesBatchResult × Db → Type 0
Counts ns (ok r, _) = (r.requested ≡ length ns) × (r.enqueued + r.skipped ≡ r.requested)
Counts ns (err e, _) = is_instance e.class value_error ≡ false

Counts-with_requested :
    (ns : List String) (r : Result Counters × Db)
    → More (length ns) (record { enqueued = 0; skipped = 0 }) r
    → Counts ns (with_requested (length ns) r)
Counts-with_requested ns (ok c, db) h = (refl, omega (arith, h))
Counts-with_requested ns (err e, db) h = h

-- Of a list of names that the source returned, the batch counts each once, as enqueued or as skipped; it
-- raises only what is no `ValueError`.
pub enqueue_batch-Counts :
    (queue : ScanJobQueue) (arounds : ℕ → Surroundings) (reason : String) (ns : List String)
    (db : Db)
    → Counts ns (enqueue_batch queue arounds reason (ok ns) db)
unfolding enqueue_batch
enqueue_batch-Counts queue arounds reason ns db =
    Counts-with_requested ns
      (enqueue_all queue arounds 0 reason ns (record { enqueued = 0; skipped = 0 }) db)
      (More-enqueue_all queue arounds 0 reason ns (record { enqueued = 0; skipped = 0 }) db)
