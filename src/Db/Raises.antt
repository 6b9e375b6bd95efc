-- ===== src/Db/Raises.antt =====
-- The class of what an operation raises.
use npm_sentinel.Base.{◌≡◌}
use npm_sentinel.Core.Exceptions.{ExceptionClass, Result, ok, err}
use npm_sentinel.Db.Models.{Db}
use npm_sentinel.Db.Session.{Repo}
use npm_sentinel.Db.Monad.{with_result}

abbrev pub RaisesOnly {ℓ} : {A : Type ℓ} → ExceptionClass → Result A → Type 0
RaisesOnly c (ok a) = Unit
RaisesOnly c (err e) = e.class ≡ c

pub RaisesOnly-with_result :
    {A B : Type 0} (c : ExceptionClass) (f : A → Repo B) (r : Result (A × Db))
    → RaisesOnly c r
    → ((a : A) (db : Db) → RaisesOnly c (f a db))
    → RaisesOnly c (with_result f r)
RaisesOnly-with_result c f (ok (a, db)) h next = next a db
RaisesOnly-with_result c f (err e) h next = h

abbrev pub FailsWith {ℓ} : {A : Type ℓ} → ExceptionClass → Result A → Type 0
FailsWith c (ok a) = ⊥
FailsWith c (err e) = e.class ≡ c

pub FailsWith-with_result :
    {A B : Type 0} (c : ExceptionClass) (f : A → Repo B) (r : Result (A × Db))
    → RaisesOnly c r
    → ((a : A) (db : Db) → FailsWith c (f a db))
    → FailsWith c (with_result f r)
FailsWith-with_result c f (ok (a, db)) h next = next a db
FailsWith-with_result c f (err e) h next = h

pub with_result-FailsWith :
    {A B : Type 0} (c : ExceptionClass) (f : A → Repo B) (r : Result (A × Db))
    → FailsWith c r
    → FailsWith c (with_result f r)
with_result-FailsWith c f (ok (a, db)) h = absurd h
with_result-FailsWith c f (err e) h = h
