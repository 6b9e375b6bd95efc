-- ===== src/Db/Select/Listing.antt =====
-- What a page of an ordered listing holds: each row that is wanted stands at the number of wanted rows before it.
use mathlib.Core.Path.{fun_ext}
use npm_sentinel.Base.{
  Option-cases, inl, inr, ℕ, ◌+◌, ◌-◌, ◌<◌, min, ◌≡◌, refl, sym, ap, ◌∙◌, Bool, true, false, ◌&&◌,
  Option, some, List, map, length, get_elem?,
}
use npm_sentinel.Db.Table.{select_rows}
use npm_sentinel.Db.Select.{count_rows, order_by, page}
use npm_sentinel.Db.Select.Order.{In, Apart, place-order_by, length-order_by}
use npm_sentinel.Db.Select.Page.{get_elem?-page, length-page, get_elem?-map, length-map}
use npm_sentinel.Db.Select.Joins.{
  attach, wanted, read, count_rows-attach, Apart-attach, In-attach, Apart-select_rows,
  In-select_rows, count_rows-select_rows,
}

-- A page and the number of all rows: a row that is wanted, with `offset + i` wanted rows before it, is at place `i`
-- of the page; the page is as long as the limit and the rows allow.
abbrev pub Ranked :
    {A C : Type 0}
    → (A → A → Bool)
    → (A → Bool)
    → (A → Option C)
    → ℕ
    → ℕ
    → List A
    → List C × ℕ
    → Type 0
Ranked {A} before want view limit offset rows (items, total) =
    (total ≡ count_rows want rows)
    × (length items ≡ min limit (total - offset))
    × ((a : A) (i : ℕ)
        → In a rows
        → want a ≡ true
        → count_rows (λ s. want s && before s a) rows ≡ offset + i
        → i < limit
        → get_elem? items i ≡ view a)

abbrev by_first : {A B : Type 0} → (A → A → Bool) → A × B → A × B → Bool
by_first before x y = before x.0 y.0

module _ {A B : Type 0} (g : A → Option B) (w : A × B → Bool) (p : A → Bool) where
  wanted_and : (a : A) → wanted g (λ x. w x && p x.0) a ≡ (wanted g w a && p a)
  wanted_and a = elim (Option-cases (g a)) [
    | inl gone ↦ rw gone refl
    | inr (b, found) ↦ rw found refl
  ]

  count_rows-kept :
      (rows : List A)
      → count_rows (λ x. p x.0) (select_rows w (attach g rows))
        ≡ count_rows (λ s. wanted g w s && p s) rows
  count_rows-kept rows =
      count_rows-select_rows (λ x. p x.0) w (attach g rows)
      ∙ (count_rows-attach g (λ x. w x && p x.0) rows
          ∙ ap (λ (q : A → Bool). count_rows q rows) (fun_ext wanted_and))

module _ {A B C : Type 0} (before : A → A → Bool)
    (asym : (a b : A) → before a b ≡ true → before b a ≡ false)
    (trans : (a b c : A) → before a b ≡ true → before b c ≡ true → before a c ≡ true)
    (g : A → Option B) (w : A × B → Bool) (f : A × B → C) (limit offset : ℕ) (rows : List A)
    (apart : Apart before rows) where
  abbrev kept : List (A × B)
  kept = select_rows w (attach g rows)

  at_place :
      (a : A) (b : B) (i : ℕ)
      → In a rows
      → g a ≡ some b
      → w (a, b) ≡ true
      → count_rows (λ s. wanted g w s && before s a) rows ≡ offset + i
      → i < limit
      → get_elem? (map f (page limit offset (order_by (by_first before) kept))) i ≡ some (f (a, b))
  at_place a b i m found h r lt =
      let there = In-select_rows w (a, b) (attach g rows) (In-attach g a {b = b} rows m found) h in
      let apart_kept =
        Apart-select_rows (by_first before) w (attach g rows) (Apart-attach before g rows apart) in
      let placed =
        place-order_by (by_first before) (λ x y. asym x.0 y.0) (λ x y z. trans x.0 y.0 z.0) (a, b)
          kept apart_kept there in
      let ranked = count_rows-kept g w (λ s. before s a) rows ∙ r in
      get_elem?-map f (page limit offset (order_by (by_first before) kept)) i
        (get_elem?-page limit offset i (order_by (by_first before) kept) lt ∙ rw (← ranked) placed)

  -- A listing of joined rows, as it is filtered, ordered and cut.
  pub Ranked-page :
      Ranked before
        (wanted g w)
        (read g f)
        limit
        offset
        rows
        (map f (page limit offset (order_by (by_first before) kept)), count_rows w (attach g rows))
  unfolding count_rows
  Ranked-page = (
    count_rows-attach g w rows,
    length-map f (page limit offset (order_by (by_first before) kept))
        ∙ (length-page limit offset (order_by (by_first before) kept)
            ∙ rw (length-order_by (by_first before) kept) refl),
    λ a i m h r lt. elim (Option-cases (g a)) [
      | inl gone ↦ let miss : wanted g w a ≡ false = rw gone refl in cc (miss, h)
      | inr (b, found) ↦ rw found (
          let hit : wanted g w a ≡ w (a, b) = rw found refl in
          at_place a b i m found (sym hit ∙ h) r lt)
    ],
  )

module _ {A C : Type 0} (before : A → A → Bool)
    (asym : (a b : A) → before a b ≡ true → before b a ≡ false)
    (trans : (a b c : A) → before a b ≡ true → before b c ≡ true → before a c ≡ true) (w : A → Bool)
    (f : A → C) (limit offset : ℕ) (rows : List A) (apart : Apart before rows) where
  abbrev chosen : List A
  chosen = order_by before (select_rows w rows)

  -- A listing of one table.
  pub Ranked-single :
      Ranked before w
        (λ a. some (f a))
        limit
        offset
        rows
        (map f (page limit offset chosen), count_rows w rows)
  unfolding count_rows
  Ranked-single = (
    refl,
    length-map f (page limit offset chosen)
        ∙ (length-page limit offset chosen ∙ rw (length-order_by before (select_rows w rows)) refl),
    λ a i m h r lt.
        let placed =
          place-order_by before asym trans a (select_rows w rows)
            (Apart-select_rows before w rows apart) (In-select_rows w a rows m h) in
        let ranked = count_rows-select_rows (λ s. before s a) w rows ∙ r in
        get_elem?-map f (page limit offset chosen) i
          (get_elem?-page limit offset i chosen lt ∙ rw (← ranked) placed),
  )
