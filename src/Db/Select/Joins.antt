-- ===== src/Db/Select/Joins.antt =====
-- A join by a unique key is a lookup for each row, and what a page of a joined listing holds.
use std.Path.{subst}
use npm_sentinel.Base.{
  ℕ, suc, ◌≡◌, refl, ap, inl, inr, Bool, true, false, ◌&&◌, Option, none, some, List, [], ◌∷◌,
  arith, ◌==◌, Bool-cases, Option-cases, All, or_false,
}
use npm_sentinel.Db.Table.{select_rows, find_row, some_row, has_key, Unique}
use npm_sentinel.Db.Select.{count_rows, join}
use npm_sentinel.Db.Select.Order.{In, Apart}

module _ {A B : Type 0} where
  abbrev pub put : A → Option B → List (A × B) → List (A × B)
  put a none rest = rest
  put a (some b) rest = (a, b) ∷ rest

  -- Each row with what it is joined to; a row without is left out.
  unfoldable pub attach : (A → Option B) → List A → List (A × B)
  attach g [] = []
  attach g (a ∷ rs) = put a (g a) (attach g rs)

  abbrev pub holds_of : A → (A × B → Bool) → Option B → Bool
  holds_of a w none = false
  holds_of a w (some b) = w (a, b)

  -- The condition on a joined row, as one on the row.
  abbrev pub wanted : (A → Option B) → (A × B → Bool) → A → Bool
  wanted g w a = holds_of a w (g a)

  abbrev pub of_pair : {C : Type 0} → A → (A × B → C) → Option B → Option C
  of_pair a f none = none
  of_pair a f (some b) = some (f (a, b))

  -- What is read of a joined row.
  abbrev pub read : {C : Type 0} → (A → Option B) → (A × B → C) → A → Option C
  read g f a = of_pair a f (g a)

  pub count_rows-attach :
      (g : A → Option B) (w : A × B → Bool) (rs : List A)
      → count_rows w (attach g rs) ≡ count_rows (wanted g w) rs
  unfolding attach count_rows select_rows
  count_rows-attach g w [] = refl
  count_rows-attach g w (a ∷ rs) = elim (Option-cases (g a)) [
    | inl gone ↦ rw gone (count_rows-attach g w rs)
    | inr (b, found) ↦ rw found (elim (Bool-cases (w (a, b))) [
      | inl kept ↦ rw kept (ap suc (count_rows-attach g w rs))
      | inr out ↦ rw out (count_rows-attach g w rs)
    ])
  ]

  All-attach :
      (P : A → Type 0) (g : A → Option B) (rs : List A) → All P rs → All (λ x. P x.0) (attach g rs)
  unfolding attach
  All-attach P g [] h = tt
  All-attach P g (a ∷ rs) (h, hs) = elim (Option-cases (g a)) [
    | inl gone ↦ rw gone (All-attach P g rs hs)
    | inr (b, found) ↦ rw found (h, All-attach P g rs hs)
  ]

  pub Apart-attach :
      (before : A → A → Bool) (g : A → Option B) (rs : List A)
      → Apart before rs
      → Apart (λ x y. before x.0 y.0) (attach g rs)
  unfolding attach
  Apart-attach before g [] h = tt
  Apart-attach before g (a ∷ rs) (h, hs) = elim (Option-cases (g a)) [
    | inl gone ↦ rw gone (Apart-attach before g rs hs)
    | inr (b, found) ↦ rw found (
      All-attach (λ s. before s a ≡ false → before a s ≡ true) g rs h,
      Apart-attach before g rs hs,
    )
  ]

  pub In-attach :
      (g : A → Option B) (a : A) {b : B} (rs : List A)
      → In a rs
      → g a ≡ some b
      → In (a, b) (attach g rs)
  unfolding attach
  In-attach g a {b} [] m found = m
  In-attach g a {b} (r ∷ rs) (inl e) found = rw (← e, found) (inl refl)
  In-attach g a {b} (r ∷ rs) (inr m) found = elim (Option-cases (g r)) [
    | inl gone ↦ rw gone (In-attach g a {b = b} rs m found)
    | inr (c, other) ↦ rw other (inr (In-attach g a {b = b} rs m found))
  ]

module _ {A : Type 0} where
  pub All-select_rows :
      (P : A → Type 0) (w : A → Bool) (rs : List A) → All P rs → All P (select_rows w rs)
  unfolding select_rows
  All-select_rows P w [] h = tt
  All-select_rows P w (r ∷ rs) (h, hs) = elim (Bool-cases (w r)) [
    | inl kept ↦ rw kept (h, All-select_rows P w rs hs)
    | inr gone ↦ rw gone (All-select_rows P w rs hs)
  ]

  pub Apart-select_rows :
      (before : A → A → Bool) (w : A → Bool) (rs : List A)
      → Apart before rs
      → Apart before (select_rows w rs)
  unfolding select_rows
  Apart-select_rows before w [] h = tt
  Apart-select_rows before w (r ∷ rs) (h, hs) = elim (Bool-cases (w r)) [
    | inl kept ↦ rw kept (
      All-select_rows (λ s. before s r ≡ false → before r s ≡ true) w rs h,
      Apart-select_rows before w rs hs,
    )
    | inr gone ↦ rw gone (Apart-select_rows before w rs hs)
  ]

  pub In-select_rows :
      (w : A → Bool) (r : A) (rs : List A) → In r rs → w r ≡ true → In r (select_rows w rs)
  unfolding select_rows
  In-select_rows w r [] m h = m
  In-select_rows w r (s ∷ rs) (inl e) h = rw (← e, h) (inl refl)
  In-select_rows w r (s ∷ rs) (inr m) h = elim (Bool-cases (w s)) [
    | inl kept ↦ rw kept (inr (In-select_rows w r rs m h))
    | inr gone ↦ rw gone (In-select_rows w r rs m h)
  ]

  pub count_rows-select_rows :
      (p w : A → Bool) (rs : List A)
      → count_rows p (select_rows w rs) ≡ count_rows (λ r. w r && p r) rs
  unfolding count_rows select_rows
  count_rows-select_rows p w [] = refl
  count_rows-select_rows p w (r ∷ rs) = ground (arith, count_rows-select_rows p w rs)

abbrev pub as_list : {B : Type 0} → Option B → List B
as_list none = []
as_list (some b) = b ∷ []

module _ {B : Type 0} (key : B → ℕ) where
  none_with_key :
      (k : ℕ) (bs : List B)
      → some_row (has_key key k) bs ≡ false
      → select_rows (has_key key k) bs ≡ []
  unfolding some_row select_rows
  none_with_key k [] h = refl
  none_with_key k (b ∷ bs) h = ground (arith, none_with_key k bs)

  pub select_rows-key :
      (k : ℕ) (bs : List B)
      → Unique key bs
      → select_rows (has_key key k) bs ≡ as_list (find_row (has_key key k) bs)
  unfolding select_rows find_row
  select_rows-key k [] u = refl
  select_rows-key k (b ∷ bs) (fresh, u) = elim (Bool-cases (key b == k)) [
    | inl same ↦
        let e : key b ≡ k = ground arith in
        rw same (
          ap (◌∷◌ b)
            (none_with_key k bs (subst (λ (i : ℕ). some_row (has_key key i) bs ≡ false) e fresh)))
    | inr other ↦ rw other (select_rows-key k bs u)
  ]

module _ {A B : Type 0} (key : B → ℕ) where
  -- A join on a key that is unique in the other table.
  pub join-eq-attach :
      (foreign : A → ℕ) (rs : List A) (bs : List B)
      → Unique key bs
      → join (λ a. has_key key (foreign a)) rs bs
        ≡ attach (λ a. find_row (has_key key (foreign a)) bs) rs
  unfolding join attach
  join-eq-attach foreign [] bs u = refl
  join-eq-attach foreign (a ∷ rs) bs u =
      elim (Option-cases (find_row (has_key key (foreign a)) bs)) [
        | inl gone ↦
            rw (select_rows-key key (foreign a) bs u, gone) (join-eq-attach foreign rs bs u)
        | inr (b, found) ↦
            rw (select_rows-key key (foreign a) bs u, found)
              (ap (◌∷◌ (a, b)) (join-eq-attach foreign rs bs u))
      ]

no_row_found :
    {A : Type 0} (p : A → Bool) (rs : List A) → some_row p rs ≡ false → find_row p rs ≡ none
unfolding some_row find_row
no_row_found p [] h = refl
no_row_found p (r ∷ rs) h = ground (arith, no_row_found p rs)

module _ {A B : Type 0} (key : A → ℕ) (g : A → Option B) where
  no_row-attach :
      (k : ℕ) (rs : List A)
      → some_row (has_key key k) rs ≡ false
      → some_row (has_key (λ x. key x.0) k) (attach g rs) ≡ false
  unfolding attach some_row
  no_row-attach k [] h = refl
  no_row-attach k (a ∷ rs) h =
      let (other, rest) = or_false (key a == k) (some_row (has_key key k) rs) h in
      elim (Option-cases (g a)) [
        | inl gone ↦ rw gone (no_row-attach k rs rest)
        | inr (b, found) ↦ rw (found, other) (no_row-attach k rs rest)
      ]

  pub Unique-attach : (rs : List A) → Unique key rs → Unique (λ x. key x.0) (attach g rs)
  unfolding attach
  Unique-attach [] u = tt
  Unique-attach (a ∷ rs) (fresh, u) = elim (Option-cases (g a)) [
    | inl gone ↦ rw gone (Unique-attach rs u)
    | inr (b, found) ↦ rw found (no_row-attach (key a) rs fresh, Unique-attach rs u)
  ]

  -- The joined row with a key is that of the row with the key.
  abbrev pub and_attached : Option A → Option (A × B)
  and_attached none = none
  and_attached (some a) = of_pair a (λ x. x) (g a)

  pub find_row-attach :
      (k : ℕ) (rs : List A)
      → Unique key rs
      → find_row (has_key (λ x. key x.0) k) (attach g rs)
        ≡ and_attached (find_row (has_key key k) rs)
  unfolding attach find_row
  find_row-attach k [] u = refl
  find_row-attach k (a ∷ rs) (fresh, u) = elim (Bool-cases (key a == k)) [
    | inl same ↦
        let e : key a ≡ k = ground arith in
        elim (Option-cases (g a)) [
          | inl gone ↦
              rw (gone, same, gone)
                (no_row_found (has_key (λ x. key x.0) k) (attach g rs) (
                  no_row-attach k rs
                    (subst (λ (i : ℕ). some_row (has_key key i) rs ≡ false) e fresh)))
          | inr (b, found) ↦ rw (found, same, found) refl
        ]
    | inr other ↦ elim (Option-cases (g a)) [
      | inl gone ↦ rw (gone, other) (find_row-attach k rs u)
      | inr (b, found) ↦ rw (found, other) (find_row-attach k rs u)
    ]
  ]
