-- ===== src/Db/Select/Lookups.antt =====
-- Joins whose condition one row meets at most, as lookups.
use npm_sentinel.Base.{
  ◌≡◌, refl, ap, ◌∙◌, inl, inr, Bool, true, false, Option, none, some, List, [], ◌∷◌, map, arith,
  Bool-cases, Option-cases,
}
use npm_sentinel.Db.Table.{select_rows, some_row}
use npm_sentinel.Db.Select.{join, outer_join}
use npm_sentinel.Db.Select.Joins.{attach, as_list}

abbrev pub holds : {B : Type 0} → (B → Bool) → Option B → Bool
holds w none = false
holds w (some b) = w b

module _ {A B : Type 0} (on : A → B → Bool) (g : A → Option B) (bs : List B)
    (h : (a : A) → select_rows (on a) bs ≡ as_list (g a)) where
  pub outer_join-eq-attach : (rs : List A) → outer_join on rs bs ≡ attach (λ a. some (g a)) rs
  unfolding outer_join attach
  outer_join-eq-attach [] = refl
  outer_join-eq-attach (a ∷ rs) = elim (Option-cases (g a)) [
    | inl gone ↦ rw (h a, gone) (ap (◌∷◌ (a, none)) (outer_join-eq-attach rs))
    | inr (b, found) ↦ rw (h a, found) (ap (◌∷◌ (a, some b)) (outer_join-eq-attach rs))
  ]

  pub select_rows-join :
      (w : B → Bool) (rs : List A)
      → map (λ x. x.0) (select_rows (λ x. w x.1) (join on rs bs))
        ≡ select_rows (λ a. holds w (g a)) rs
  unfolding join select_rows
  select_rows-join w [] = refl
  select_rows-join w (a ∷ rs) = elim (Option-cases (g a)) [
    | inl gone ↦ rw (h a, gone) (select_rows-join w rs)
    | inr (b, found) ↦
        rw (h a, found)
          (elim (Bool-cases (w b)) [
            | inl kept ↦ rw kept (ap (◌∷◌ a) (select_rows-join w rs))
            | inr out ↦ rw out (select_rows-join w rs)
          ])
  ]

pub select_rows-all : {B : Type 0} (bs : List B) → select_rows (λ b. true) bs ≡ bs
unfolding select_rows
select_rows-all [] = refl
select_rows-all (b ∷ bs) = ap (◌∷◌ b) (select_rows-all bs)

module _ {B : Type 0} (v w : B → Bool) where
  some_row-swap : (bs : List B) → some_row v (select_rows w bs) ≡ some_row w (select_rows v bs)
  unfolding some_row select_rows
  some_row-swap [] = refl
  some_row-swap (b ∷ bs) = elim (Bool-cases (v b)) [
    | inl hit ↦ elim (Bool-cases (w b)) [
      | inl kept ↦ rw (hit, kept, hit) refl
      | inr out ↦ rw (hit, out) (some_row-swap bs)
    ]
    | inr miss ↦ elim (Bool-cases (w b)) [
      | inl kept ↦ rw (miss, kept, miss) (some_row-swap bs)
      | inr out ↦ rw (miss, out) (some_row-swap bs)
    ]
  ]

  some_row-as_list : (o : Option B) → some_row w (as_list o) ≡ holds w o
  unfolding some_row
  some_row-as_list none = refl
  some_row-as_list (some b) = ground arith

  -- Whether the one row that `v` selects is among those that `w` selects.
  pub some_row-lookup :
      (bs : List B) (o : Option B)
      → select_rows v bs ≡ as_list o
      → some_row v (select_rows w bs) ≡ holds w o
  some_row-lookup bs o h = some_row-swap bs ∙ (ap (some_row w) h ∙ some_row-as_list o)
