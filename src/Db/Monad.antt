-- ===== src/Db/Monad.antt =====
-- Operations in one session, one after the other.
use mathlib.Core.Bool.{true, false}
use npm_sentinel.Core.Exceptions.{Result, ok, err, value_error, is_instance}
use npm_sentinel.Db.Models.{Db}
use npm_sentinel.Db.Session.{Repo}

abbrev pub pure : {A : Type 0} → A → Repo A
pure a db = ok (a, db)

abbrev pub with_result : {A B : Type 0} → (A → Repo B) → Result (A × Db) → Result (B × Db)
with_result f (ok (a, db)) = f a db
with_result f (err e) = err e

infixl 5 ◌>>=◌ ◌>>◌
abbrev pub ◌>>=◌ : {A B : Type 0} → Repo A → (A → Repo B) → Repo B
◌>>=◌ m f db = with_result f (m db)

abbrev pub ◌>>◌ : {A B : Type 0} → Repo A → Repo B → Repo B
◌>>◌ m k db = with_result (λ _. k) (m db)

-- `try: m except ValueError: handler`. The operations raise a `ValueError` only before they change a row.
abbrev pub on_value_error : {A : Type 0} → Result (A × Db) → Result (A × Db) → Result (A × Db)
on_value_error (ok r) handled = ok r
on_value_error (err e) handled = elim (is_instance e.class value_error) [
  | true ↦ handled
  | false ↦ err e
]
