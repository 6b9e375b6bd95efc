-- ===== src/Db/Select/Like.antt =====
-- `ILIKE`: a pattern with the wild cards `%` and `_` and the escape `\`, on texts in lower case.
pub mod Substring
use Prim.Native.Char.{code}
use npm_sentinel.Base.{
  ℕ, String, Bool, true, false, ◌&&◌, ◌||◌, ◌==◌, is_empty, lower, append, refl, ◌≡◌,
}

-- The next character is this one, and `k` accepts the rest.
abbrev pub next_is : ℕ → (String → Bool) → String → Bool
next_is n k String.[] = false
next_is n k (String.◌∷◌ d t) = code d == n && k t

-- There is a next character, and `k` accepts the rest.
abbrev pub any_one : (String → Bool) → String → Bool
any_one k String.[] = false
any_one k (String.◌∷◌ d t) = k t

-- Some rest of the text is accepted.
unfoldable pub any_rest : (String → Bool) → String → Bool
any_rest k String.[] = k ""
any_rest k (String.◌∷◌ d t) = k (String.◌∷◌ d t) || any_rest k t

-- Whether the text is like the pattern, which stands behind an escape or not.
unfoldable pub like_from : Bool → String → String → Bool
unfolding any_rest
like_from escaped String.[] = is_empty
like_from true (String.◌∷◌ c p) = next_is (code c) (like_from false p)
like_from false (String.◌∷◌ c p) = elim (code c == b'%') [
  | true ↦ any_rest (like_from false p)
  | false ↦ elim (code c == b'_') [
    | true ↦ any_one (like_from false p)
    | false ↦ elim (code c == b'\\') [
      | true ↦ like_from true p
      | false ↦ next_is (code c) (like_from false p)
    ]
  ]
]

-- `text ILIKE pattern`
unfoldable pub ilike : String → String → Bool
unfolding like_from lower
ilike text pattern = like_from false (lower pattern) (lower text)

like_tests :
    (ilike "Lodash" "%oDa%" ≡ true)
    × (ilike "lodash" "%oda_%" ≡ true)
    × (ilike "lodash" "%sh_%" ≡ false)
    × (ilike "a_b" "%a\\_b%" ≡ true)
    × (ilike "axb" "%a\\_b%" ≡ false)
unfolding ilike
like_tests = (refl, refl, refl, refl, refl)
