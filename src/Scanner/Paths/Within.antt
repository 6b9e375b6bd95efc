-- ===== src/Scanner/Paths/Within.antt =====
-- What the test `relative_to` says of a place.
use npm_sentinel.Base.{
  String, ◌≡◌, refl, sym, ap, inl, inr, true, List, [], ◌∷◌, ◌++◌, arith, Bool-cases, str_eq_iff,
  str_eq_refl,
}
use npm_sentinel.Scanner.Paths.{Location, same_location, is_relative_to}

-- The place is the root or lies below it.
abbrev pub Within : Location → Location → Type 0
Within root l = (below : List String) × (l ≡ below ++ root)

same_location_sound : (a b : Location) → same_location a b ≡ true → a ≡ b
unfolding same_location
same_location_sound [] [] h = refl
same_location_sound [] (q ∷ qs) h = cc
same_location_sound (p ∷ ps) [] h = cc
same_location_sound (p ∷ ps) (q ∷ qs) h = ground (arith, str_eq_iff p q, same_location_sound ps qs)

same_location_refl : (a : Location) → same_location a a ≡ true
unfolding same_location
same_location_refl [] = refl
same_location_refl (p ∷ ps) = rw (str_eq_refl p, same_location_refl ps)

pub is_relative_to-sound : (root l : Location) → is_relative_to root l ≡ true → Within root l
unfolding is_relative_to
is_relative_to-sound root [] h = ([], sym (same_location_sound root [] h))
is_relative_to-sound root (p ∷ ps) h = elim (Bool-cases (same_location root (p ∷ ps))) [
  | inl here ↦ ([], sym (same_location_sound root (p ∷ ps) here))
  | inr other ↦
      let (below, e) = is_relative_to-sound root ps (ground arith) in (p ∷ below, ap (◌∷◌ p) e)
]

pub is_relative_to_complete : (root below : Location) → is_relative_to root (below ++ root) ≡ true
unfolding is_relative_to
is_relative_to_complete [] [] = refl
is_relative_to_complete (r ∷ root) [] = rw (same_location_refl (r ∷ root))
is_relative_to_complete root (p ∷ below) =
    let rest = is_relative_to_complete root below in ground arith
