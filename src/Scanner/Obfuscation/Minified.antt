-- ===== src/Scanner/Obfuscation/Minified.antt =====
-- `_has_long_minified_like_line` of app/infrastructure/scanner/obfuscation_detector.py
use Prim.Native.Char.{Char, code}
use npm_sentinel.Base.{
  ℕ, ◌+◌, ◌*◌, String, ◌≡◌, refl, Bool, false, ◌&&◌, ◌||◌, List, [], ◌∷◌, ltb, leb, ◌==◌,
  if◌then◌else◌, any, count, is_space,
}

-- A character that ends a line for `str.splitlines`.
abbrev pub is_line_break : ℕ → Bool
is_line_break c = leb 10 c && leb c 13 || leb 28 c && leb c 30 || c == 133 || c == 8232 || c == 8233

-- One more character in front of the first line.
abbrev onto_first : Char → List String → List String
onto_first c [] = String.◌∷◌ c "" ∷ []
onto_first c (l ∷ ls) = String.◌∷◌ c l ∷ ls

-- `str.splitlines`; the flag says that the character before was a carriage return, with which a line
-- feed is one break.
unfoldable pub split_lines_from : Bool → String → List String
split_lines_from after_return String.[] = []
split_lines_from after_return (String.◌∷◌ c s) =
    let lines = split_lines_from (code c == 13) s in
    if after_return && code c == 10
    then lines
    else if is_line_break (code c)
    then "" ∷ lines
    else onto_first c lines

unfoldable pub count_if : (ℕ → Bool) → String → ℕ
count_if f String.[] = 0
count_if f (String.◌∷◌ c s) = (if f (code c) then 1 else 0) + count_if f s

-- `_MINIFIED_SYMBOLS`
unfoldable pub is_symbol : ℕ → Bool
unfolding count_if
is_symbol c = ltb 0 (count_if (λ d. d == c) "{}[]();,:.=+-*/%&|!<>?~")

-- The test on one line: at least 2000 characters, at most 2 percent of them white space, at least
-- 8 percent of them symbols.
unfoldable pub minified_like : String → Bool
unfolding count_if is_symbol is_space
minified_like line =
    let line_length = count line in
    leb 2000 line_length
    && (leb (100 * count_if is_space line) (2 * line_length)
        && leb (8 * line_length) (100 * count_if is_symbol line))

-- `text.splitlines() or [text]`
abbrev lines_or_text : String → List String → List String
lines_or_text text [] = text ∷ []
lines_or_text text (l ∷ ls) = l ∷ ls

unfoldable pub has_long_minified_like_line : String → Bool
unfolding minified_like split_lines_from
has_long_minified_like_line text =
    any minified_like (lines_or_text text (split_lines_from false text))

split_lines_tests :
    (split_lines_from false "a\r\nb\n\nc" ≡ "a" ∷ "b" ∷ "" ∷ "c" ∷ [])
    × (split_lines_from false "a\n" ≡ "a" ∷ [])
    × (split_lines_from false "\n\r" ≡ "" ∷ "" ∷ [])
unfolding split_lines_from
split_lines_tests = (refl, refl, refl)
