-- ===== src/Db/Select.antt =====
-- `SELECT` with joins, an order, and a page, on tables that are lists of rows; what the queries at the end of
-- app/infrastructure/db/repositories.py are made of.
pub mod Order
pub mod Page
pub mod Joins
pub mod Listing
pub mod First
pub mod Lookups
pub mod Like
use npm_sentinel.Base.{
  ℕ, suc, Bool, Option, none, some, List, [], ◌∷◌, ◌++◌, map, if◌then◌else◌, length, take, drop,
}
use npm_sentinel.Db.Table.{select_rows}

module _ {ℓ} {A : Type ℓ} where
  -- `SELECT count(*) … WHERE`
  unfoldable pub count_rows : (A → Bool) → List A → ℕ
  unfolding select_rows
  count_rows p rs = length (select_rows p rs)

  -- `ORDER BY`, by a strict order.
  unfoldable pub insert_by : (A → A → Bool) → A → List A → List A
  insert_by before r [] = r ∷ []
  insert_by before r (s ∷ ss) = if before s r then s ∷ insert_by before r ss else r ∷ s ∷ ss

  unfoldable pub order_by : (A → A → Bool) → List A → List A
  unfolding insert_by
  order_by before [] = []
  order_by before (r ∷ rs) = insert_by before r (order_by before rs)

  -- `LIMIT … OFFSET …`
  unfoldable pub page : ℕ → ℕ → List A → List A
  page limit offset rs = take limit (drop offset rs)

module _ {ℓ κ} {A : Type ℓ} {B : Type κ} (on : A → B → Bool) where
  -- `JOIN … ON`
  unfoldable pub join : List A → List B → List (A × B)
  unfolding select_rows
  join [] bs = []
  join (a ∷ as') bs = map (λ b. (a, b)) (select_rows (on a) bs) ++ join as' bs

  -- `LEFT OUTER JOIN`: a row that meets no other stands with none.
  abbrev pub or_alone : A → List B → List (A × Option B)
  or_alone a [] = (a, none) ∷ []
  or_alone a (b ∷ bs) = map (λ c. (a, some c)) (b ∷ bs)

  unfoldable pub outer_join : List A → List B → List (A × Option B)
  unfolding select_rows
  outer_join [] bs = []
  outer_join (a ∷ as') bs = or_alone a (select_rows (on a) bs) ++ outer_join as' bs
