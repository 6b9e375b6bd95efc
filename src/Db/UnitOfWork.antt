-- ===== src/Db/UnitOfWork.antt =====
-- app/infrastructure/db/unit_of_work.py: a block under `async with` runs in one transaction, which is
-- committed if the block returns and rolled back if it raises.

use npm_sentinel.Core.Exceptions.{Result, ok, err}
use npm_sentinel.Db.Models.{Db}
use npm_sentinel.Db.Session.{Repo}

unfoldable pub commit_or_rollback : {A : Type 0} → Db → Result (A × Db) → Result A × Db
commit_or_rollback before (ok (a, after)) = (ok a, after)
commit_or_rollback before (err e) = (err e, before)

unfoldable pub transact : {A : Type 0} → Repo A → Db → Result A × Db
unfolding commit_or_rollback
transact block db = commit_or_rollback db (block db)
