-- ===== src/Scanner/Commands.antt =====
-- app/infrastructure/scanner/command_execution_detector.py
pub mod Evidence
use npm_sentinel.Base.{
  ℕ, ◌+◌, String, ◌≡◌, refl, Bool, false, not, ◌&&◌, ◌||◌, Option, none, some, List, [], ◌∷◌, ltb,
  ◌==◌, if◌then◌else◌, is_space, lower, one_of, ◌-◌,
}
use npm_sentinel.Core.Exceptions.{value_error, Result, ok, ◌>>=◌, raise, ◌>>◌}
use npm_sentinel.Domain.Enums.{command_execution_pattern, high}
use npm_sentinel.Re.{
  Pattern, char, star, seq, blank, boundary, not_behind, not_ahead, opt, plus, literal, within,
  is_word, is_ascii_word, search_text,
}
use npm_sentinel.Domain.Findings.{Finding}
use npm_sentinel.Scanner.Files.{FileEntry, Tree, iter_regular_files, for_each, suffix}
use Prim.Native.Char.{code}

-- `[A-Za-z0-9_-]`
abbrev in_command : ℕ → Bool
in_command c = is_ascii_word c || c == b'-'

-- A small letter under `re.IGNORECASE`: with its capital, and the other characters of Unicode that have the same lower
-- case or are equal to it without case: the dotted capital and the dotless i, the Kelvin sign, and the long s.
abbrev same_letter : ℕ → ℕ → Bool
same_letter l d =
    d == l
    || d + 32 == l
    || l == b'i' && (d == 0x130 || d == 0x131)
    || l == b'k' && d == 0x212a
    || l == b's' && d == 0x17f

abbrev any_case : String → Pattern
any_case String.[] = blank
any_case (String.◌∷◌ c s) =
    seq (char (λ d. if within b'a' b'z' (code c) then same_letter (code c) d else d == code c))
      (any_case s)

-- `(?<![A-Za-z0-9_-])p(?![A-Za-z0-9_-])`
abbrev alone : Pattern → Pattern
alone p = seq (not_behind in_command) (seq p (not_ahead in_command))

abbrev pub code_extensions : List String
code_extensions =
    ".cjs" ∷ ".cmd" ∷ ".js" ∷ ".jsx" ∷ ".mjs" ∷ ".ps1" ∷ ".py" ∷ ".sh" ∷ ".ts" ∷ ".tsx" ∷ []

unfoldable pub first_match : List (String × Pattern) → String → Option String
first_match [] text = none
first_match ((evidence, pattern) ∷ more) text =
    if search_text pattern text then some evidence else first_match more text

-- `relative_to` raises `ValueError`, which the `except OSError` does not catch.
unfoldable pub command_text : ℕ → FileEntry → Result (Option (String × String))
unfolding suffix lower one_of
command_text max_text_file_bytes f =
    if not (one_of code_extensions (lower (suffix f.name))) then ok none else elim f.relative [
      | none ↦ raise value_error "not in the subpath"
      | some path ↦ elim f.size [
        | none ↦ ok none
        | some size ↦
            if ltb max_text_file_bytes size
            then ok none
            else elim f.text [ none ↦ ok none | some text ↦ ok (some (path, text)) ]
      ]
    ]

unfoldable pub command_finding : String → String → Finding
command_finding path evidence = record {
  finding_type = command_execution_pattern;
  severity = high;
  category = "execution";
  description = "Potential command execution pattern detected in source file.";
  file_path = some path;
  evidence = some evidence;
}

module _ (is_alnum : ℕ → Bool) where
  abbrev word : ℕ → Bool
  word = is_word is_alnum

  -- `\bname\s*\(`
  abbrev call_of : String → Pattern
  call_of name = seq (boundary word) (seq (literal name) (seq (star is_space) (literal "(")))

  -- `\bshell\s+-c\b`
  abbrev shell_c : String → Pattern
  shell_c shell =
      seq (boundary word)
        (seq (literal shell) (seq (plus is_space) (seq (literal "-c") (boundary word))))

  unfoldable pub command_patterns : List (String × Pattern)
  unfolding is_space
  command_patterns =
      ("child_process", seq (boundary word) (seq (literal "child_process") (boundary word)))
      ∷ ("exec(", call_of "exec")
      ∷ ("execSync(", call_of "execSync")
      ∷ ("spawn(", call_of "spawn")
      ∷ ("spawnSync(", call_of "spawnSync")
      ∷ ("curl", alone (literal "curl"))
      ∷ ("wget", alone (literal "wget"))
      ∷ ("powershell", alone (seq (any_case "powershell") (opt (any_case ".exe"))))
      ∷ ("cmd.exe", alone (any_case "cmd.exe"))
      ∷ ("bash -c", shell_c "bash")
      ∷ ("sh -c", shell_c "sh")
      ∷ []

  unfoldable pub match_command_pattern : String → Option String
  match_command_pattern text = first_match command_patterns text

  unfoldable pub command_body : ℕ → FileEntry → Result (List Finding)
  unfolding command_text match_command_pattern command_finding first_match search_text
      command_patterns
  command_body max_text_file_bytes f = do
    read ← command_text max_text_file_bytes f
    elim read [
      | none ↦ ok []
      | some (path, text) ↦ elim (match_command_pattern text) [
        | none ↦ ok []
        | some evidence ↦ ok (command_finding path evidence ∷ [])
      ]
    ]

  unfoldable pub detect_command_execution_patterns : ℕ → ℕ → Tree → Result (List Finding)
  unfolding command_body for_each iter_regular_files
  detect_command_execution_patterns max_files max_text_file_bytes root =
      for_each (command_body max_text_file_bytes) (iter_regular_files max_files root)

abbrev no_alnum : ℕ → Bool
no_alnum c = false

command_tests :
    (match_command_pattern no_alnum "require('child_process')" ≡ some "child_process")
    × (match_command_pattern no_alnum "x.execute(1); spawn  ('a')" ≡ some "spawn(")
    × (match_command_pattern no_alnum "run PowerShell.EXE now" ≡ some "powershell")
    × (match_command_pattern no_alnum "libcurl curl-7 sh -cx" ≡ none)
    × (match_command_pattern (λ c. c == 0xe9) "éexec(" ≡ none)
    × (match_command_pattern no_alnum "powerſhell" ≡ some "powershell")
unfolding match_command_pattern first_match search_text command_patterns
command_tests = (refl, refl, refl, refl, refl, refl)
