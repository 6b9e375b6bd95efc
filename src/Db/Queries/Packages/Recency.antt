-- ===== src/Db/Queries/Packages/Recency.antt =====
-- The order `DESC NULLS LAST` with a tie, as a strict order.
use npm_sentinel.Base.{
  ℕ, ◌≡◌, refl, inl, inr, Bool, true, false, Option, none, some, arith, Bool-cases,
}
use npm_sentinel.Db.Queries.Packages.{newest_first}

pub newest_first_asym :
    (x y : Option ℕ) (t u : Bool)
    → (t ≡ true → u ≡ false)
    → newest_first x y t ≡ true
    → newest_first y x u ≡ false
newest_first_asym none none t u k h = k h
newest_first_asym none (some b) t u k h = cc
newest_first_asym (some a) none t u k h = refl
newest_first_asym (some a) (some b) t u k h = elim (Bool-cases t) [
  | inl e ↦ let f = k e in ground arith
  | inr e ↦ ground arith
]

pub newest_first_trans :
    (x y z : Option ℕ) (t u v : Bool)
    → (t ≡ true → u ≡ true → v ≡ true)
    → newest_first x y t ≡ true
    → newest_first y z u ≡ true
    → newest_first x z v ≡ true
newest_first_trans none none none t u v k h l = k h l
newest_first_trans none none (some c) t u v k h l = cc
newest_first_trans none (some b) z t u v k h l = cc
newest_first_trans (some a) none none t u v k h l = refl
newest_first_trans (some a) none (some c) t u v k h l = cc
newest_first_trans (some a) (some b) none t u v k h l = refl
newest_first_trans (some a) (some b) (some c) t u v k h l = elim (Bool-cases t) [
  | inl e ↦ elim (Bool-cases u) [ inl f ↦ let g = k e f in ground arith | inr f ↦ ground arith ]
  | inr e ↦ ground arith
]

pub newest_first_ties :
    (x y : Option ℕ) (t u : Bool)
    → newest_first x y t ≡ false
    → newest_first y x u ≡ false
    → (t ≡ false) × (u ≡ false)
newest_first_ties none none t u h k = (h, k)
newest_first_ties none (some b) t u h k = cc
newest_first_ties (some a) none t u h k = cc
newest_first_ties (some a) (some b) t u h k = ground arith
