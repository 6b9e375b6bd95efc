-- ===== src/Db/Table/Order.antt =====
-- The first row by an order.
use npm_sentinel.Base.{
  ◌≡◌, refl, sym, inl, inr, Bool, true, false, ◌&&◌, none, some, List, [], ◌∷◌, arith, Bool-cases,
  Option-cases, and_true,
}
use std.Path.{subst}
use npm_sentinel.Db.Table.{some_row, first_by}

and_false : (b : Bool) → (b && false) ≡ false
and_false true = refl
and_false false = refl

module _ {ℓ} {A : Type ℓ} where
  pub some_row-weaken :
      (p q : A → Bool) (rs : List A)
      → ((a : A) → q a ≡ true → p a ≡ true)
      → some_row p rs ≡ false
      → some_row q rs ≡ false
  unfolding some_row
  some_row-weaken p q [] imp h = refl
  some_row-weaken p q (s ∷ rs) imp h =
      let step = imp s in
      let rest = some_row-weaken p q rs imp in
      elim (Bool-cases (q s)) [
        | inl hit ↦ let miss = step hit in absurd (ground arith)
        | inr miss ↦ ground arith
      ]

  pub first_by-none :
      (before : A → A → Bool) (p : A → Bool) (rs : List A)
      → first_by before p rs ≡ none
      → some_row p rs ≡ false
  unfolding first_by some_row
  first_by-none before p [] h = refl
  first_by-none before p (s ∷ rs) h = elim (Option-cases (first_by before p rs)) [
    | inl nothing ↦ let rest = first_by-none before p rs nothing in ground arith
    | inr (b, best) ↦ ground arith
  ]

  module _ (before : A → A → Bool) (asym : (a b : A) → before a b ≡ true → before b a ≡ false)
      (step : (a b c : A) → before a b ≡ false → before b c ≡ false → before a c ≡ false) where
    none_before_itself : (a : A) → before a a ≡ false
    none_before_itself a = elim (Bool-cases (before a a)) [
      | inl hit ↦ asym a a hit
      | inr miss ↦ miss
    ]

    beyond :
        (p : A → Bool) (rs : List A) (b s : A)
        → before b s ≡ false
        → some_row (λ t. p t && before t b) rs ≡ false
        → some_row (λ t. p t && before t s) rs ≡ false
    beyond p rs b s later none_of =
        some_row-weaken (λ t. p t && before t b) (λ t. p t && before t s) rs
          (λ a h.
            let (m, e) = and_true (p a) (before a s) h in
            elim (Bool-cases (before a b)) [
              | inl hit ↦ rw (m, hit) refl
              | inr miss ↦ cc (step a b s miss later, e)
            ])
          none_of

    none_before :
        (p : A → Bool) (rs : List A) {r x : A}
        → r ≡ x
        → some_row (λ t. p t && before t x) rs ≡ false
        → some_row (λ t. p t && before t r) rs ≡ false
    none_before p rs {r} {x} e h =
        subst (λ (y : A). some_row (λ t. p t && before t y) rs ≡ false) (sym e) h

    -- No row that meets the condition comes before the one that is picked.
    pub first_by-least :
        (p : A → Bool) (rs : List A) {r : A}
        → first_by before p rs ≡ some r
        → some_row (λ s. p s && before s r) rs ≡ false
    unfolding first_by some_row
    first_by-least p [] h = cc
    first_by-least p (s ∷ rs) {r} h = elim (Option-cases (first_by before p rs)) [
      | inl nothing ↦
          let e : r ≡ s = ground arith in
          let rest =
            some_row-weaken p (λ t. p t && before t s) rs (λ a m. (and_true (p a) (before a s) m).0)
              (first_by-none before p rs nothing) in
          none_before p (s ∷ rs) e (rw (none_before_itself s, and_false (p s), rest) refl)
      | inr (b, best) ↦
          let rest = first_by-least p rs {r = b} best in
          elim (Bool-cases (p s)) [
            | inl hit ↦ elim (Bool-cases (before b s)) [
              | inl first ↦
                  let e : r ≡ b = ground arith in
                  none_before p (s ∷ rs) e (rw (hit, asym b s first, rest) refl)
              | inr later ↦
                  let e : r ≡ s = ground arith in
                  none_before p (s ∷ rs) e
                    (rw (hit, none_before_itself s, beyond p rs b s later rest) refl)
            ]
            | inr miss ↦
                let e : r ≡ b = ground arith in none_before p (s ∷ rs) e (rw (miss, rest) refl)
          ]
    ]
