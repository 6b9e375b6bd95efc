-- ===== src/Re.antt =====
-- The part of Python's `re` that the program's patterns use, as a backtracking matcher over one text.
-- A pattern stands at a place in a text, which is the character before it and the rest behind it.
pub mod Meaning
pub mod First
use Prim.Native.Char.{code}
use npm_sentinel.Base.{
  ℕ, zero, suc, String, Bool, true, false, not, ◌&&◌, ◌||◌, Option, none, some, [], ◌∷◌, leb, ◌==◌,
  is_empty, if◌then◌else◌,
}

pub data Pattern : Type 0 where
  -- one character of a class
  char : (ℕ → Bool) → Pattern
  -- as many of a class as can be, or fewer
  star : (ℕ → Bool) → Pattern
  seq alt : Pattern → Pattern → Pattern
  blank : Pattern
  -- `\b`, for the class of word characters
  boundary : (ℕ → Bool) → Pattern
  -- `(?<![…])` and `(?![…])`
  not_behind not_ahead : (ℕ → Bool) → Pattern

-- A class at the character before, or at the next one: false at either end of the text.
abbrev pub before : (ℕ → Bool) → Option ℕ → Bool
before f none = false
before f (some c) = f c

abbrev pub ahead : (ℕ → Bool) → String → Bool
ahead f String.[] = false
ahead f (String.◌∷◌ c s) = f (code c)

abbrev pub within : ℕ → ℕ → ℕ → Bool
within lo hi c = leb lo c && leb c hi

-- `[A-Za-z0-9_]`
abbrev pub is_ascii_word : ℕ → Bool
is_ascii_word c = within b'a' b'z' c || within b'A' b'Z' c || within b'0' b'9' c || c == b'_'

-- `\w`; `is_alnum` is `str.isalnum` on the characters behind ASCII.
abbrev pub is_word : (ℕ → Bool) → ℕ → Bool
is_word is_alnum c = if leb 128 c then is_alnum c else is_ascii_word c

abbrev pub xor_bool : Bool → Bool → Bool
xor_bool true b = not b
xor_bool false b = b

module _ (k : Option ℕ → String → Bool) (f : ℕ → Bool) where
  unfoldable pub star_loop : Option ℕ → String → Bool
  star_loop p String.[] = k p ""
  star_loop p (String.◌∷◌ c s) = elim (f (code c)) [
    | true ↦ star_loop (some (code c)) s || k p (String.◌∷◌ c s)
    | false ↦ k p (String.◌∷◌ c s)
  ]

-- Whether the pattern matches here so that `k` accepts the place behind the match.
unfoldable pub match_here : Pattern → Option ℕ → String → (Option ℕ → String → Bool) → Bool
unfolding star_loop
match_here (char f) p String.[] k = false
match_here (char f) p (String.◌∷◌ c s) k = f (code c) && k (some (code c)) s
match_here (star f) p s k = star_loop k f p s
match_here (seq a b) p s k = match_here a p s (λ q r. match_here b q r k)
match_here (alt a b) p s k = match_here a p s k || match_here b p s k
match_here blank p s k = k p s
match_here (boundary w) p s k = xor_bool (before w p) (ahead w s) && k p s
match_here (not_behind f) p s k = not (before f p) && k p s
match_here (not_ahead f) p s k = not (ahead f s) && k p s

-- `pattern.fullmatch(text)`
unfoldable pub full_match : Pattern → String → Bool
unfolding match_here
full_match a s = match_here a none s (λ q r. is_empty r)

unfoldable pub search_from : Pattern → Option ℕ → String → Bool
search_from a p String.[] = match_here a p "" (λ q r. true)
search_from a p (String.◌∷◌ c s) =
    match_here a p (String.◌∷◌ c s) (λ q r. true) || search_from a (some (code c)) s

-- `pattern.search(text)`
unfoldable pub search_text : Pattern → String → Bool
unfolding search_from match_here
search_text a s = search_from a none s

-- `a?`
abbrev pub opt : Pattern → Pattern
opt a = alt a blank

-- `[…]+`
abbrev pub plus : (ℕ → Bool) → Pattern
plus f = seq (char f) (star f)

-- `a{n}`
abbrev pub times : ℕ → Pattern → Pattern
times zero a = blank
times (suc n) a = seq a (times n a)

-- A text, character by character.
abbrev pub literal : String → Pattern
literal String.[] = blank
literal (String.◌∷◌ c s) = seq (char (λ d. d == code c)) (literal s)
