-- ===== src/Re/First.antt =====
-- Python's `re` where the match is read: the first match in the order of backtracking, and `finditer`.
pub mod Sound
use Prim.Native.Char.{code}
use npm_sentinel.Base.{
  ℕ, zero, suc, ◌-◌, String, Bool, true, false, not, Option, none, some, List, [], ◌∷◌, count,
  if◌then◌else◌,
}
use npm_sentinel.Re.{
  Pattern, char, star, seq, alt, blank, boundary, not_behind, not_ahead, before, ahead, xor_bool,
}

module _ {R : Type 0} where
  abbrev pub or_else : Option R → Option R → Option R
  or_else none second = second
  or_else (some r) second = some r

  abbrev pub only_if : Bool → Option R → Option R
  only_if true r = r
  only_if false r = none

  -- As many as can be, or fewer.
  unfoldable pub star_first :
      (Option ℕ → String → Option R) → (ℕ → Bool) → Option ℕ → String → Option R
  star_first k f p String.[] = k p ""
  star_first k f p (String.◌∷◌ c s) = elim (f (code c)) [
    | true ↦ or_else (star_first k f (some (code c)) s) (k p (String.◌∷◌ c s))
    | false ↦ k p (String.◌∷◌ c s)
  ]

  -- What `k` makes of the first place behind a match that it accepts.
  unfoldable pub match_first :
      Pattern → Option ℕ → String → (Option ℕ → String → Option R) → Option R
  unfolding star_first
  match_first (char f) p String.[] k = none
  match_first (char f) p (String.◌∷◌ c s) k = only_if (f (code c)) (k (some (code c)) s)
  match_first (star f) p s k = star_first k f p s
  match_first (seq a b) p s k = match_first a p s (λ q r. match_first b q r k)
  match_first (alt a b) p s k = or_else (match_first a p s k) (match_first b p s k)
  match_first blank p s k = k p s
  match_first (boundary w) p s k = only_if (xor_bool (before w p) (ahead w s)) (k p s)
  match_first (not_behind f) p s k = only_if (not (before f p)) (k p s)
  match_first (not_ahead f) p s k = only_if (not (ahead f s)) (k p s)

  abbrev pub step_on : (ℕ → List R) → ℕ → Option (R × String) → List R
  step_on next here none = next 0
  step_on next here (some (r, rest)) = r ∷ next (here - count rest - 1)

  -- `finditer`, for a pattern that matches no empty text: what `try` makes of a match, with the text behind
  -- it, where the search goes on. The number is that of the characters still to be skipped.
  unfoldable pub find_all :
      (Option ℕ → String → Option (R × String)) → ℕ → Option ℕ → String → List R
  find_all try skip p String.[] = []
  find_all try (suc skip) p (String.◌∷◌ c s) = find_all try skip (some (code c)) s
  find_all try zero p (String.◌∷◌ c s) =
      step_on (λ skip. find_all try skip (some (code c)) s) (count (String.◌∷◌ c s))
        (try p (String.◌∷◌ c s))
