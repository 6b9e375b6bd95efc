-- ===== src/Scanner/Obfuscation.antt =====
-- app/infrastructure/scanner/obfuscation_detector.py. The ratios of a long line are floats there; here they
-- are compared exactly, as products.
pub mod Minified
use Prim.Native.Char.{code}
use npm_sentinel.Base.{
  ℕ, ◌+◌, ◌-◌, ◌*◌, String, Bool, not, ◌&&◌, ◌||◌, Option, none, some, List, [], ◌∷◌, map, ltb,
  ◌==◌, if◌then◌else◌, is_empty, lower, one_of,
}
use npm_sentinel.Core.Exceptions.{value_error, Result, ok, ◌>>=◌, ◌>>◌, raise}
use npm_sentinel.Domain.Enums.{obfuscated_code, medium}
use npm_sentinel.Re.{Pattern, char, star, seq, opt, plus, times, literal, within, search_text}
use npm_sentinel.Domain.Findings.{Finding}
use npm_sentinel.Scanner.Files.{FileEntry, Tree, iter_regular_files, for_each, suffix}
use Minified.{has_long_minified_like_line}

abbrev pub is_hex : ℕ → Bool
is_hex c = within b'a' b'f' c || within b'A' b'F' c || within b'0' b'9' c

abbrev pub is_base64 : ℕ → Bool
is_base64 c =
    within b'A' b'Z' c || within b'a' b'z' c || within b'0' b'9' c || c == b'+' || c == b'/'

-- `_0x[a-fA-F0-9]+`
abbrev pub hex_identifier : Pattern
hex_identifier = seq (literal "_0x") (plus is_hex)

-- `(?:\\x[0-9a-fA-F]{2}){6,}`: a search that finds six finds the pattern, as nothing follows it.
abbrev pub hex_escape : Pattern
hex_escape = times 6 (seq (literal "\\x") (times 2 (char is_hex)))

-- `[A-Za-z0-9+/]{120,}={0,2}`
unfoldable pub base64_like : Pattern
base64_like =
    seq (times 120 (char is_base64))
      (seq (star is_base64) (seq (opt (char (λ c. c == b'='))) (opt (char (λ c. c == b'=')))))

abbrev pub code_extensions : List String
code_extensions = ".cjs" ∷ ".js" ∷ ".jsx" ∷ ".mjs" ∷ ".ts" ∷ ".tsx" ∷ []

abbrev pub skipped_extensions : List String
skipped_extensions = ".map" ∷ ".md" ∷ ".markdown" ∷ ".txt" ∷ []

-- `_match_obfuscation_evidence`; `x in text` is the search for a literal.
unfoldable pub match_obfuscation_evidence : String → Option String
unfolding search_text base64_like has_long_minified_like_line
match_obfuscation_evidence text =
    if search_text (literal "eval(") text
    then some "eval("
    else if search_text (literal "Function(") text
    then some "Function("
    else if search_text hex_identifier text
    then some "_0x*"
    else if search_text hex_escape text
    then some "\\xNN repeated"
    else if search_text base64_like text
    then some "long base64-like string"
    else if has_long_minified_like_line text
    then some "long minified-like line"
    else none

-- The guards of `_iter_text_files`: the path and the text of a file that is to be read.
unfoldable pub text_file : ℕ → FileEntry → Result (Option (String × String))
unfolding suffix lower one_of
text_file max_text_file_bytes f =
    let extension = lower (suffix f.name) in
    if one_of skipped_extensions extension
    then ok none
    else if not (is_empty extension) && not (one_of code_extensions extension)
    then ok none
    else elim f.relative [
      | none ↦ raise value_error "not in the subpath"
      | some path ↦ elim f.size [
        | none ↦ ok none
        | some size ↦
            if ltb max_text_file_bytes size
            then ok none
            else elim f.text [ none ↦ ok none | some text ↦ ok (some (path, text)) ]
      ]
    ]

unfoldable pub obfuscation_finding : String → String → Finding
obfuscation_finding path evidence = record {
  finding_type = obfuscated_code;
  severity = medium;
  category = "code";
  description = "Suspicious obfuscation pattern detected in source file.";
  file_path = some path;
  evidence = some evidence;
}

unfoldable pub obfuscation_body : ℕ → FileEntry → Result (List Finding)
unfolding text_file match_obfuscation_evidence obfuscation_finding
obfuscation_body max_text_file_bytes f = do
  read ← text_file max_text_file_bytes f
  elim read [
    | none ↦ ok []
    | some (path, text) ↦ elim (match_obfuscation_evidence text) [
      | none ↦ ok []
      | some evidence ↦ ok (obfuscation_finding path evidence ∷ [])
    ]
  ]

unfoldable pub detect_obfuscated_code : ℕ → ℕ → Tree → Result (List Finding)
unfolding obfuscation_body for_each iter_regular_files
detect_obfuscated_code max_files max_text_file_bytes root =
    for_each (obfuscation_body max_text_file_bytes) (iter_regular_files max_files root)
