-- ===== src/Db/Select/Order.antt =====
-- Where a row stands in a list that is ordered: after as many rows as come before it.
use npm_sentinel.Base.{
  ℕ, suc, ◌≡◌, refl, ◌∙◌, ◌⊎◌, inl, inr, Bool, true, false, some, List, [], ◌∷◌, arith, Bool-cases,
  length, get_elem?, All,
}
use npm_sentinel.Db.Table.{select_rows, some_row, has_key, Unique}
use npm_sentinel.Db.Select.{count_rows, insert_by, order_by}

module _ {A : Type 0} where
  -- The row is in the table.
  abbrev pub In : A → List A → Type 0
  In r [] = ⊥
  In r (s ∷ ss) = (r ≡ s) ⊎ In r ss

  count_rows-hit :
      (p : A → Bool) (r : A) (rs : List A)
      → p r ≡ true
      → count_rows p (r ∷ rs) ≡ suc (count_rows p rs)
  unfolding count_rows select_rows
  count_rows-hit p r rs h = rw h refl

  count_rows-miss :
      (p : A → Bool) (r : A) (rs : List A) → p r ≡ false → count_rows p (r ∷ rs) ≡ count_rows p rs
  unfolding count_rows select_rows
  count_rows-miss p r rs h = rw h refl

  module _ (before : A → A → Bool) where
    -- Of two rows, one comes before the other.
    abbrev pub Apart : List A → Type 0
    Apart [] = Unit
    Apart (r ∷ rs) = All (λ s. before s r ≡ false → before r s ≡ true) rs × Apart rs

    abbrev pub Ordered : List A → Type 0
    Ordered [] = Unit
    Ordered (r ∷ rs) = All (λ s. before r s ≡ true) rs × Ordered rs

    -- How many rows come before this one.
    abbrev pub rank : List A → A → ℕ
    rank rs r = count_rows (λ s. before s r) rs

    others_apart :
        (key : A → ℕ)
        → ((a b : A) → before a b ≡ false → before b a ≡ false → key a ≡ key b)
        → (r : A) (rs : List A) → some_row (has_key key (key r)) rs ≡ false
        → All (λ s. before s r ≡ false → before r s ≡ true) rs
    unfolding some_row
    others_apart key separates r [] h = tt
    others_apart key separates r (s ∷ rs) h = (
      λ m. elim (Bool-cases (before r s)) [
        | inl hit ↦ hit
        | inr miss ↦ let e = separates s r m miss in absurd (ground arith)
      ],
      others_apart key separates r rs (ground arith),
    )

    -- Rows with different keys, which the order tells apart.
    pub Apart-of_Unique :
        (key : A → ℕ)
        → ((a b : A) → before a b ≡ false → before b a ≡ false → key a ≡ key b)
        → (rs : List A) → Unique key rs
        → Apart rs
    Apart-of_Unique key separates [] u = tt
    Apart-of_Unique key separates (r ∷ rs) (fresh, u) =
        (others_apart key separates r rs fresh, Apart-of_Unique key separates rs u)

    In-insert_by : (r s : A) (ss : List A) → In r (s ∷ ss) → In r (insert_by before s ss)
    unfolding insert_by
    In-insert_by r s [] h = h
    In-insert_by r s (t ∷ ss) (inl e) = elim (Bool-cases (before t s)) [
      | inl past ↦ rw past (inr (In-insert_by r s ss (inl e)))
      | inr here ↦ rw here (inl e)
    ]
    In-insert_by r s (t ∷ ss) (inr (inl e)) = elim (Bool-cases (before t s)) [
      | inl past ↦ rw past (inl e)
      | inr here ↦ rw here (inr (inl e))
    ]
    In-insert_by r s (t ∷ ss) (inr (inr h)) = elim (Bool-cases (before t s)) [
      | inl past ↦ rw past (inr (In-insert_by r s ss (inr h)))
      | inr here ↦ rw here (inr (inr h))
    ]

    pub In-order_by : (r : A) (rs : List A) → In r rs → In r (order_by before rs)
    unfolding order_by
    In-order_by r [] h = h
    In-order_by r (s ∷ ss) (inl e) = In-insert_by r s (order_by before ss) (inl e)
    In-order_by r (s ∷ ss) (inr h) =
        In-insert_by r s (order_by before ss) (inr (In-order_by r ss h))

    count_rows-cons_congr :
        (p : A → Bool) (r : A) (rs ss : List A)
        → count_rows p rs ≡ count_rows p ss
        → count_rows p (r ∷ rs) ≡ count_rows p (r ∷ ss)
    unfolding count_rows select_rows
    count_rows-cons_congr p r rs ss h = ground arith

    count_rows-insert_by :
        (p : A → Bool) (s : A) (ss : List A)
        → count_rows p (insert_by before s ss) ≡ count_rows p (s ∷ ss)
    unfolding count_rows insert_by select_rows
    count_rows-insert_by p s [] = refl
    count_rows-insert_by p s (t ∷ ss) = ground (arith, count_rows-insert_by p s ss)

    pub count_rows-order_by :
        (p : A → Bool) (rs : List A) → count_rows p (order_by before rs) ≡ count_rows p rs
    unfolding count_rows order_by select_rows
    count_rows-order_by p [] = refl
    count_rows-order_by p (r ∷ rs) =
        count_rows-insert_by p r (order_by before rs)
        ∙ count_rows-cons_congr p r (order_by before rs) rs (count_rows-order_by p rs)

    length-insert_by : (s : A) (ss : List A) → length (insert_by before s ss) ≡ suc (length ss)
    unfolding insert_by
    length-insert_by s [] = refl
    length-insert_by s (t ∷ ss) = ground (arith, length-insert_by s ss)

    pub length-order_by : (rs : List A) → length (order_by before rs) ≡ length rs
    unfolding order_by
    length-order_by [] = refl
    length-order_by (r ∷ rs) =
        omega (arith, length-insert_by r (order_by before rs), length-order_by rs)

    All-insert_by :
        (P : A → Type 0) (s : A) (ss : List A) → P s → All P ss → All P (insert_by before s ss)
    unfolding insert_by
    All-insert_by P s [] h k = (h, tt)
    All-insert_by P s (t ∷ ss) h (k, ks) = elim (Bool-cases (before t s)) [
      | inl past ↦ rw past (k, All-insert_by P s ss h ks)
      | inr here ↦ rw here (h, (k, ks))
    ]

    All-order_by : (P : A → Type 0) (rs : List A) → All P rs → All P (order_by before rs)
    unfolding order_by
    All-order_by P [] h = tt
    All-order_by P (r ∷ rs) (h, hs) =
        All-insert_by P r (order_by before rs) h (All-order_by P rs hs)

    module _ (asym : (a b : A) → before a b ≡ true → before b a ≡ false)
        (trans : (a b c : A) → before a b ≡ true → before b c ≡ true → before a c ≡ true) where
      All-after :
          (r s : A) (ss : List A)
          → before r s ≡ true
          → All (λ t. before s t ≡ true) ss
          → All (λ t. before r t ≡ true) ss
      All-after r s [] h k = tt
      All-after r s (t ∷ ss) h (k, ks) = (trans r s t h k, All-after r s ss h ks)

      Ordered-insert_by :
          (r : A) (ss : List A)
          → Ordered ss
          → All (λ s. before s r ≡ false → before r s ≡ true) ss
          → Ordered (insert_by before r ss)
      unfolding insert_by
      Ordered-insert_by r [] h k = (tt, tt)
      Ordered-insert_by r (t ∷ ss) (h, hs) (k, ks) = elim (Bool-cases (before t r)) [
        | inl past ↦
            rw past
              (All-insert_by (λ s. before t s ≡ true) r ss past h, Ordered-insert_by r ss hs ks)
        | inr here ↦ rw here ((k here, All-after r t ss (k here) h), (h, hs))
      ]

      pub Ordered-order_by : (rs : List A) → Apart rs → Ordered (order_by before rs)
      unfolding order_by
      Ordered-order_by [] h = tt
      Ordered-order_by (r ∷ rs) (h, hs) =
          Ordered-insert_by r (order_by before rs) (Ordered-order_by rs hs)
            (All-order_by (λ s. before s r ≡ false → before r s ≡ true) rs h)

      none_before : (r : A) (ss : List A) → All (λ t. before r t ≡ true) ss → rank ss r ≡ 0
      unfolding count_rows select_rows
      none_before r [] h = refl
      none_before r (s ∷ ss) (h, hs) = ground (arith, asym r s h, none_before r ss hs)

      before_of_In :
          (r s : A) (ss : List A) → All (λ t. before s t ≡ true) ss → In r ss → before s r ≡ true
      before_of_In r s (t ∷ ss) (h, hs) (inl e) = rw e h
      before_of_In r s (t ∷ ss) (h, hs) (inr m) = before_of_In r s ss hs m
      before_of_In r s [] h m = absurd m

      irrefl : (r : A) → before r r ≡ false
      irrefl r = elim (Bool-cases (before r r)) [ inl hit ↦ asym r r hit | inr miss ↦ miss ]

      -- In a list that is ordered a row stands at its rank.
      place-of_Ordered :
          (r : A) (ss : List A) → Ordered ss → In r ss → get_elem? ss (rank ss r) ≡ some r
      place-of_Ordered r [] h m = absurd m
      place-of_Ordered r (s ∷ ss) (h, hs) (inl e) =
          rw (e, count_rows-miss (λ t. before t s) s ss (irrefl s), none_before s ss h) refl
      place-of_Ordered r (s ∷ ss) (h, hs) (inr m) =
          rw (count_rows-hit (λ t. before t r) s ss (before_of_In r s ss h m))
            (place-of_Ordered r ss hs m)

      pub place-order_by :
          (r : A) (rs : List A)
          → Apart rs
          → In r rs
          → get_elem? (order_by before rs) (rank rs r) ≡ some r
      place-order_by r rs apart m =
          rw (← count_rows-order_by (λ s. before s r) rs) (
            place-of_Ordered r (order_by before rs) (Ordered-order_by rs apart)
              (In-order_by r rs m))
