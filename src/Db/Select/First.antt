-- ===== src/Db/Select/First.antt =====
-- The rows that no other row of a condition comes before are the first one by the order, alone.

use npm_sentinel.Base.{
  ℕ, ◌≡◌, refl, sym, ap, ◌∙◌, inl, inr, Bool, true, false, ◌&&◌, some, List, [], ◌∷◌, arith, ◌==◌,
  Bool-cases, Option-cases,
}
use npm_sentinel.Db.Table.{
  select_rows, find_row, some_row, first_by, has_key, Unique, first_by-found,
}
use npm_sentinel.Db.Table.Order.{first_by-none, first_by-least}
use npm_sentinel.Db.Select.{count_rows}
use npm_sentinel.Db.Select.Order.{In}
use npm_sentinel.Db.Select.Joins.{as_list, select_rows-key}

and_false : (b : Bool) → (b && false) ≡ false
and_false true = refl
and_false false = refl

some-inj : {A : Type 0} {a b : A} → some a ≡ some b → a ≡ b
some-inj h = cc h

module _ {A : Type 0} where
  pub select_rows-congr :
      (v w : A → Bool) (rs : List A)
      → ((r : A) → In r rs → v r ≡ w r)
      → select_rows v rs ≡ select_rows w rs
  unfolding select_rows
  select_rows-congr v w [] h = refl
  select_rows-congr v w (r ∷ rs) h =
      let rest = select_rows-congr v w rs (λ s m. h s (inr m)) in rw (h r (inl refl), rest) refl

  pub select_rows-select_rows :
      (v w : A → Bool) (rs : List A)
      → select_rows v (select_rows w rs) ≡ select_rows (λ r. w r && v r) rs
  unfolding select_rows
  select_rows-select_rows v w [] = refl
  select_rows-select_rows v w (r ∷ rs) = ground (arith, select_rows-select_rows v w rs)

  pub none_selected :
      (p q : A → Bool) (rs : List A) → some_row p rs ≡ false → select_rows (λ r. p r && q r) rs ≡ []
  unfolding select_rows some_row
  none_selected p q [] h = refl
  none_selected p q (r ∷ rs) h = ground (arith, none_selected p q rs)

  count_rows-none : (p : A → Bool) (rs : List A) → some_row p rs ≡ false → count_rows p rs ≡ 0
  unfolding count_rows select_rows some_row
  count_rows-none p [] h = refl
  count_rows-none p (r ∷ rs) h = ground (arith, count_rows-none p rs)

  not_none :
      (p : A → Bool) (r : A) (rs : List A) → In r rs → p r ≡ true → (count_rows p rs == 0) ≡ false
  unfolding count_rows select_rows
  not_none p r [] m h = absurd m
  not_none p r (s ∷ rs) (inl e) h = rw (← e, h) (ground arith)
  not_none p r (s ∷ rs) (inr m) h = ground (arith, not_none p r rs m h)

  some_row-false-at :
      (p : A → Bool) (r : A) (rs : List A) → In r rs → some_row p rs ≡ false → p r ≡ false
  unfolding some_row
  some_row-false-at p r [] m h = absurd m
  some_row-false-at p r (s ∷ rs) (inl e) h = rw e (ground arith)
  some_row-false-at p r (s ∷ rs) (inr m) h = some_row-false-at p r rs m (ground arith)

-- The row meets the condition, and no row that does comes before it.
abbrev pub leads : {A : Type 0} → (A → A → Bool) → (A → Bool) → List A → A → Bool
leads before p rs r = p r && (count_rows (λ s. p s && before s r) rs == 0)

module _ {A : Type 0} (key : A → ℕ) where
  pub In-of_find_row :
      (k : ℕ) (rs : List A) {m : A} → find_row (has_key key k) rs ≡ some m → In m rs
  unfolding find_row
  In-of_find_row k [] h = cc
  In-of_find_row k (r ∷ rs) {m} h = elim (Bool-cases (key r == k)) [
    | inl same ↦ inl (ground arith)
    | inr other ↦ inr (In-of_find_row k rs {m = m} (ground arith))
  ]

  apart_from :
      (r s : A) (rs : List A)
      → some_row (has_key key (key s)) rs ≡ false
      → In r rs
      → (key s == key r) ≡ false
  unfolding some_row
  apart_from r s [] fresh m = absurd m
  apart_from r s (t ∷ rs) fresh (inl e) = rw e (ground arith)
  apart_from r s (t ∷ rs) fresh (inr m) = apart_from r s rs (ground arith) m

  pub find_row_of_In :
      (r : A) (rs : List A) → Unique key rs → In r rs → find_row (has_key key (key r)) rs ≡ some r
  unfolding find_row
  find_row_of_In r [] u m = absurd m
  find_row_of_In r (s ∷ rs) (fresh, u) (inl e) = rw (← e) (ground arith)
  find_row_of_In r (s ∷ rs) (fresh, u) (inr m) =
      rw (apart_from r s rs fresh m) (find_row_of_In r rs u m)

  same_row :
      (rs : List A) {r m : A}
      → key r ≡ key m
      → find_row (has_key key (key r)) rs ≡ some r
      → find_row (has_key key (key m)) rs ≡ some m
      → r ≡ m
  same_row rs {r} {m} k f g = some-inj (sym f ∙ (ap (λ (i : ℕ). find_row (has_key key i) rs) k ∙ g))

  module _ (before : A → A → Bool) (asym : (a b : A) → before a b ≡ true → before b a ≡ false)
      (step : (a b c : A) → before a b ≡ false → before b c ≡ false → before a c ≡ false)
      (separates : (a b : A) → before a b ≡ false → before b a ≡ false → key a ≡ key b)
      (p : A → Bool) (rs : List A) (u : Unique key rs) where
    leads-first :
        (m : A)
        → p m ≡ true
        → some_row (λ s. p s && before s m) rs ≡ false
        → leads before p rs m ≡ true
    leads-first m meets least = rw (meets, count_rows-none (λ s. p s && before s m) rs least) refl

    leads-behind :
        (m r : A) → In m rs → p m ≡ true → before m r ≡ true → leads before p rs r ≡ false
    leads-behind m r there meets behind =
        let hit : (p m && before m r) ≡ true = rw (meets, behind) refl in
        rw (not_none (λ s. p s && before s r) m rs there hit) (and_false (p r))

    leads-other :
        (m r : A)
        → In m rs
        → p m ≡ true
        → some_row (λ s. p s && before s m) rs ≡ false
        → In r rs
        → (key r == key m) ≡ false
        → leads before p rs r ≡ false
    leads-other m r there_m meets least there other =
        let alone = some_row-false-at (λ s. p s && before s m) r rs there least in
        elim (Bool-cases (p r)) [
          | inr out ↦ rw out refl
          | inl wanted ↦ elim (Bool-cases (before m r)) [
            | inl behind ↦ leads-behind m r there_m meets behind
            | inr not_behind ↦
                let first : before r m ≡ false = ground arith in
                let e = separates r m first not_behind in absurd (ground arith)
          ]
        ]

    leads-key :
        (m r : A)
        → first_by before p rs ≡ some m
        → In r rs
        → leads before p rs r ≡ has_key key (key m) r
    leads-key m r first there =
        let (found, meets) = first_by-found key before p rs {r = m} u first in
        let least = first_by-least before asym step p rs {r = m} first in
        elim (Bool-cases (key r == key m)) [
          | inl same ↦
              let k : key r ≡ key m = ground arith in
              let found_r = find_row_of_In r rs u there in
              let e : r ≡ m = same_row rs k found_r found in
              rw same (ap (leads before p rs) e ∙ leads-first m meets least)
          | inr other ↦
              rw other
                (leads-other m r (In-of_find_row (key m) rs {m = m} found) meets least there other)
        ]

    pub select_rows-leads : select_rows (leads before p rs) rs ≡ as_list (first_by before p rs)
    select_rows-leads = elim (Option-cases (first_by before p rs)) [
      | inl nothing ↦ rw nothing (
          none_selected p (λ r. count_rows (λ s. p s && before s r) rs == 0) rs
            (first_by-none before p rs nothing))
      | inr (m, first) ↦
          let (found, meets) = first_by-found key before p rs {r = m} u first in
          rw first (
            select_rows-congr (leads before p rs) (has_key key (key m)) rs
              (λ r there. leads-key m r first there)
            ∙ (select_rows-key key (key m) rs u ∙ rw found refl))
    ]
