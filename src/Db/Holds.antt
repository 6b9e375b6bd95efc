-- ===== src/Db/Holds.antt =====
-- What holds of the value and the tables of an operation that returns.
use npm_sentinel.Base.{◌≡◌, refl, Bool, true, false}
use npm_sentinel.Core.Exceptions.{Result, ok, err, ◌>>◌}
use npm_sentinel.Db.Models.{Db}
use npm_sentinel.Db.Session.{Repo, check}
use npm_sentinel.Db.Monad.{with_result}

abbrev pub Holds : {A : Type 0} → (A → Db → Type 0) → Result (A × Db) → Type 0
Holds P (ok (a, db)) = P a db
Holds P (err e) = Unit

module _ {A : Type 0} (P : A → Db → Type 0) where
  pub Holds-check :
      (b : Bool) (r : Result (A × Db)) → (b ≡ true → Holds P r) → Holds P (check b >> r)
  Holds-check true r h = h refl
  Holds-check false r h = tt

  pub Holds-with_result :
      {B : Type 0} (Q : B → Db → Type 0) (f : A → Repo B) (r : Result (A × Db))
      → Holds P r
      → ((a : A) (db : Db) → P a db → Holds Q (f a db))
      → Holds Q (with_result f r)
  Holds-with_result Q f (ok (a, db)) h next = next a db h
  Holds-with_result Q f (err e) h next = tt

  pub Holds-weaken :
      (Q : A → Db → Type 0) (r : Result (A × Db))
      → Holds P r
      → ((a : A) (db : Db) → P a db → Q a db)
      → Holds Q r
  Holds-weaken Q (ok (a, db)) h imp = imp a db h
  Holds-weaken Q (err e) h imp = tt

pub Holds-both :
    {A : Type 0} (P Q : A → Db → Type 0) (r : Result (A × Db))
    → Holds P r
    → Holds Q r
    → Holds (λ a db. P a db × Q a db) r
Holds-both P Q (ok (a, db)) h k = (h, k)
Holds-both P Q (err e) h k = tt
