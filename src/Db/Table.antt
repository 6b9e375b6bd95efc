-- ===== src/Db/Table.antt =====
-- A table as the list of its rows in the order of their insertion, and what the statements do with it.
pub mod Order
use npm_sentinel.Base.{
  ◌≡◌, refl, Bool, true, false, ◌||◌, Option, none, some, List, [], ◌∷◌, ◌++◌, arith, if◌then◌else◌,
  is_some, ℕ, ◌∙◌, inl, inr, ◌==◌, Bool-cases, Option-cases,
}

module _ {ℓ} {A : Type ℓ} where
  -- `SELECT … WHERE`, of a condition that one row meets at most.
  unfoldable pub find_row : (A → Bool) → List A → Option A
  find_row p [] = none
  find_row p (r ∷ rs) = if p r then some r else find_row p rs

  -- `UPDATE … WHERE`
  unfoldable pub update_where : (A → Bool) → (A → A) → List A → List A
  update_where p f [] = []
  update_where p f (r ∷ rs) = (if p r then f r else r) ∷ update_where p f rs

  -- `DELETE … WHERE`
  unfoldable pub delete_where : (A → Bool) → List A → List A
  delete_where p [] = []
  delete_where p (r ∷ rs) = if p r then delete_where p rs else r ∷ delete_where p rs

  -- Whether a row meets the condition: `rowcount` of an update is not 0.
  unfoldable pub some_row : (A → Bool) → List A → Bool
  some_row p [] = false
  some_row p (r ∷ rs) = p r || some_row p rs

  -- The rows that meet the condition.
  unfoldable pub select_rows : (A → Bool) → List A → List A
  select_rows p [] = []
  select_rows p (r ∷ rs) = if p r then r ∷ select_rows p rs else select_rows p rs

  -- `ORDER BY … LIMIT 1`: the first of the rows that meet the condition, by a strict order.
  unfoldable pub first_by : (A → A → Bool) → (A → Bool) → List A → Option A
  first_by before p [] = none
  first_by before p (r ∷ rs) =
      let best = first_by before p rs in
      if p r
      then elim best [ none ↦ some r | some b ↦ some (if before b r then b else r) ]
      else best

  abbrev pub map_row : (A → A) → Option A → Option A
  map_row f none = none
  map_row f (some r) = some (f r)

  -- What an update that keeps the condition does to the row that is found.
  pub find_row-update_where :
      (p q : A → Bool) (f : A → A) (rs : List A)
      → ((a : A) → p (f a) ≡ p a)
      → find_row p (update_where q f rs) ≡ map_row (λ r. if q r then f r else r) (find_row p rs)
  unfolding find_row update_where
  find_row-update_where p q f [] keep = refl
  find_row-update_where p q f (s ∷ rs) keep =
      ground (arith, keep s, find_row-update_where p q f rs keep)

  abbrev pub or_row : Option A → Option A → Option A
  or_row none b = b
  or_row (some a) b = some a

  pub or_row-none : (found : Option A) → or_row found none ≡ found
  or_row-none none = refl
  or_row-none (some a) = refl

  pub find_row-append :
      (p : A → Bool) (rs ss : List A)
      → find_row p (rs ++ ss) ≡ or_row (find_row p rs) (find_row p ss)
  unfolding find_row
  find_row-append p [] ss = refl
  find_row-append p (s ∷ rs) ss = ground (arith, find_row-append p rs ss)

  pub some_row_of_find_row :
      (p q : A → Bool) {r : A} (rs : List A)
      → find_row p rs ≡ some r
      → q r ≡ true
      → some_row q rs ≡ true
  unfolding find_row some_row
  some_row_of_find_row p q [] h m = cc
  some_row_of_find_row p q {r} (s ∷ rs) h m = ground (arith, some_row_of_find_row p q {r = r} rs)

  pub some_row-append :
      (p : A → Bool) (rs ss : List A) → some_row p (rs ++ ss) ≡ (some_row p rs || some_row p ss)
  unfolding some_row
  some_row-append p [] ss = refl
  some_row-append p (s ∷ rs) ss = ground (arith, some_row-append p rs ss)

  pub some_row-eq-find_row : (p : A → Bool) (rs : List A) → some_row p rs ≡ is_some (find_row p rs)
  unfolding find_row some_row
  some_row-eq-find_row p [] = refl
  some_row-eq-find_row p (s ∷ rs) = ground (arith, some_row-eq-find_row p rs)

  -- The row that is found meets the condition.
  pub find_row-meets : (p : A → Bool) {r : A} (rs : List A) → find_row p rs ≡ some r → p r ≡ true
  unfolding find_row
  find_row-meets p [] h = cc
  find_row-meets p {r} (s ∷ rs) h = ground (arith, find_row-meets p {r = r} rs)

-- Rows with a number for their primary key.
module _ {ℓ} {A : Type ℓ} (key : A → ℕ) where
  abbrev pub has_key : ℕ → A → Bool
  has_key i r = key r == i

  -- No key stands in two rows.
  abbrev pub Unique : List A → Type 0
  Unique [] = Unit
  Unique (r ∷ rs) = (some_row (has_key (key r)) rs ≡ false) × Unique rs

  some_row-update_where :
      (i : ℕ) (q : A → Bool) (f : A → A) (rs : List A)
      → ((a : A) → key (f a) ≡ key a)
      → some_row (has_key i) (update_where q f rs) ≡ some_row (has_key i) rs
  unfolding some_row update_where
  some_row-update_where i q f [] keep = refl
  some_row-update_where i q f (r ∷ rs) keep =
      ground (arith, keep r, some_row-update_where i q f rs keep)

  pub Unique-update_where :
      (q : A → Bool) (f : A → A) (rs : List A)
      → ((a : A) → key (f a) ≡ key a)
      → Unique rs
      → Unique (update_where q f rs)
  unfolding update_where
  Unique-update_where q f [] keep u = tt
  Unique-update_where q f (r ∷ rs) keep (fresh, u) =
      let same : key (if q r then f r else r) ≡ key r = ground (arith, keep r) in
      (
        rw same (some_row-update_where (key r) q f rs keep ∙ fresh),
        Unique-update_where q f rs keep u,
      )

  pub Unique-append :
      (rs : List A) (r : A)
      → Unique rs
      → some_row (has_key (key r)) rs ≡ false
      → Unique (rs ++ r ∷ [])
  unfolding some_row
  Unique-append [] r u fresh = (refl, tt)
  Unique-append (s ∷ rs) r (fresh_s, u) fresh = (
    rw (some_row-append (has_key (key s)) rs (r ∷ [])) (ground arith),
    Unique-append rs r u (ground arith),
  )

  other_key :
      (s : A) {b : A} (rs : List A)
      → some_row (has_key (key s)) rs ≡ false
      → find_row (has_key (key b)) rs ≡ some b
      → (key s == key b) ≡ false
  other_key s {b} rs fresh found = elim (Bool-cases (key s == key b)) [
    | inl same ↦
        cc (some_row_of_find_row (has_key (key b)) (has_key (key s)) rs found (ground arith), fresh)
    | inr other ↦ other
  ]

  -- The row that `first_by` picks meets the condition, and is the one with its key.
  pub first_by-found :
      (before : A → A → Bool) (p : A → Bool) (rs : List A) {r : A}
      → Unique rs
      → first_by before p rs ≡ some r
      → (find_row (has_key (key r)) rs ≡ some r) × (p r ≡ true)
  unfolding first_by find_row
  first_by-found before p [] u h = cc
  first_by-found before p (s ∷ rs) {r} (fresh, u) h = elim (Option-cases (first_by before p rs)) [
    | inl nothing ↦ ground arith
    | inr (b, best) ↦
        let (found, meets) = first_by-found before p rs {r = b} u best in
        let apart = other_key s rs fresh found in ground arith
  ]
