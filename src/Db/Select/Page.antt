-- ===== src/Db/Select/Page.antt =====
-- The rows of a page, by their places.
use npm_sentinel.Base.{
  ℕ, zero, suc, ◌+◌, ◌-◌, ◌<◌, min, ◌≡◌, refl, ◌∙◌, some, List, [], ◌∷◌, map, arith, ap, length,
  length-take, take, drop, get_elem?,
}
use npm_sentinel.Db.Select.{page}

module _ {A : Type 0} where
  get_elem?-drop : (n i : ℕ) (rs : List A) → get_elem? (drop n rs) i ≡ get_elem? rs (n + i)
  get_elem?-drop zero i rs = ground arith
  get_elem?-drop (suc n) i [] = refl
  get_elem?-drop (suc n) i (r ∷ rs) = ground (arith, get_elem?-drop n i rs)

  get_elem?-take : (n i : ℕ) (rs : List A) → i < n → get_elem? (take n rs) i ≡ get_elem? rs i
  get_elem?-take zero i rs h = absurd (omega arith)
  get_elem?-take (suc n) i [] h = refl
  get_elem?-take (suc n) zero (r ∷ rs) h = refl
  get_elem?-take (suc n) (suc i) (r ∷ rs) h = get_elem?-take n i rs (omega arith)

  length-drop : (n : ℕ) (rs : List A) → length (drop n rs) ≡ length rs - n
  length-drop zero rs = omega arith
  length-drop (suc n) [] = omega arith
  length-drop (suc n) (r ∷ rs) = omega (arith, length-drop n rs)

  pub get_elem?-page :
      (limit offset i : ℕ) (rs : List A)
      → i < limit
      → get_elem? (page limit offset rs) i ≡ get_elem? rs (offset + i)
  unfolding page
  get_elem?-page limit offset i rs h =
      get_elem?-take limit i (drop offset rs) h ∙ get_elem?-drop offset i rs

  pub length-page :
      (limit offset : ℕ) (rs : List A)
      → length (page limit offset rs) ≡ min limit (length rs - offset)
  unfolding page
  length-page limit offset rs = rw (length-take limit (drop offset rs), length-drop offset rs) refl

module _ {A B : Type 0} (f : A → B) where
  pub length-map : (xs : List A) → length (map f xs) ≡ length xs
  length-map [] = refl
  length-map (x ∷ xs) = ap suc (length-map xs)

  pub get_elem?-map :
      (xs : List A) (i : ℕ) {a : A} → get_elem? xs i ≡ some a → get_elem? (map f xs) i ≡ some (f a)
  get_elem?-map [] i h = cc
  get_elem?-map (x ∷ xs) zero h = cc
  get_elem?-map (x ∷ xs) (suc i) {a} h = get_elem?-map xs i h
