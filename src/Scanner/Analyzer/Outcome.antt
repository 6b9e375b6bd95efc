-- ===== src/Scanner/Analyzer/Outcome.antt =====
-- What an analysis comes to: the score of the binaries, and a `package.json` that is no UTF-8.
use npm_sentinel.Base.{
  ℕ, ◌+◌, ◌*◌, ◌≤◌, min, String, ◌≡◌, refl, ap, ◌∙◌, inl, inr, Bool, false, Option, List, [], ◌∷◌,
  ◌++◌, arith, ltb, Option-cases, length, length-append,
}
use npm_sentinel.Core.Exceptions.{value_error, is_instance, ok, raise, >>=-eq-ok}
use npm_sentinel.Base.Int.{ℤ, pos, ◌≤ℤ◌}
use npm_sentinel.Base.Json.{Json}
use mathlib.Core.List.{map-append, append_assoc}
use npm_sentinel.Base.Dict.{Dict}
use npm_sentinel.Domain.Findings.{Finding}
use npm_sentinel.Domain.Scoring.{calculate_score, finding_types, explain_score, sum_points}
use npm_sentinel.Domain.Scoring.Bounds.{total, total-append, calculate_score-eq-min_total}
use npm_sentinel.Scanner.Files.{FileEntry, gather, regular, Tree}
use npm_sentinel.Scanner.PackageJson.{PackageJsonFile, read_package_json, read_content}
use npm_sentinel.Scanner.InstallHooks.{detect_install_hooks}
use npm_sentinel.Scanner.Size.{Floats, detect_size_increase}
use npm_sentinel.Scanner.Binary.{binary_reason, binary_finding, detect_executable_binaries}
use npm_sentinel.Scanner.Binary.Report.{binary_of, detect_executable_binaries-gather}
use npm_sentinel.Scanner.Obfuscation.{detect_obfuscated_code}
use npm_sentinel.Scanner.Commands.{detect_command_execution_patterns}
use npm_sentinel.Scanner.Analyzer.{
  StaticPackageAnalyzer, Extracted, resolve_scripts, previous_scripts as read_previous, analyze,
}

-- The points of findings together.
abbrev pub points : List Finding → ℕ
points fs = total (finding_types fs)

points-append : (fs gs : List Finding) → points (fs ++ gs) ≡ points fs + points gs
unfolding finding_types
points-append fs gs =
    ap total (map-append _ fs gs) ∙ total-append (finding_types fs) (finding_types gs)

points-nil : points [] ≡ 0
unfolding finding_types explain_score sum_points
points-nil = refl

points-binary_finding : (path reason : String) → points (binary_finding path reason ∷ []) ≡ 25
unfolding finding_types explain_score sum_points binary_finding
points-binary_finding path reason = refl

points-binary_of : (f : FileEntry) → points (binary_of f) ≡ 25 * length (binary_of f)
unfolding binary_of
points-binary_of f = elim (Option-cases f.relative) [
  | inl outside ↦ rw (outside, binary_of) points-nil
  | inr (path, inside) ↦ elim (Option-cases (binary_reason f)) [
    | inl plain ↦ rw (inside, plain, binary_of) points-nil
    | inr (reason, found) ↦ rw (inside, found, binary_of) (points-binary_finding path reason)
  ]
]

points-gather :
    (fs : List FileEntry) → points (gather binary_of fs) ≡ 25 * length (gather binary_of fs)
unfolding gather
points-gather [] = points-nil
points-gather (f ∷ fs) = omega (
  arith,
  points-append (binary_of f) (gather binary_of fs),
  points-binary_of f,
  points-gather fs,
  length-append {0} (binary_of f) (gather binary_of fs),
)

gathered :
    (max_files : ℕ) (root : Tree) {binaries : List Finding}
    → detect_executable_binaries max_files root ≡ ok binaries
    → binaries ≡ gather binary_of (regular root)
gathered max_files root h = ground (arith, detect_executable_binaries-gather max_files root)

read_not_utf8 :
    (loads : String → Option Json) (max_bytes : ℕ) (file : PackageJsonFile) {n : ℕ}
    {message : String}
    → file.size ≡ ok n
    → n ≤ max_bytes
    → file.content ≡ raise value_error message
    → read_package_json loads max_bytes file ≡ raise value_error message
unfolding read_package_json read_content is_instance
read_not_utf8 loads max_bytes file {n} hs hn hc =
    let fits : ltb max_bytes n ≡ false = ground arith in rw (hs, fits, hc)

module _ (loads : String → Option Json) (floats : Floats) (is_alnum : ℕ → Bool)
    (analyzer : StaticPackageAnalyzer) where
  -- The binaries of the latest version, among the findings of an analysis that returns.
  binaries-of-analyze :
      (latest : Extracted) (scripts : Dict Json) (size : Option ℤ) (previous : Option Extracted)
      (previous_scripts : Option (Dict Json)) (previous_size : Option ℤ) {findings : List Finding}
      → analyze loads floats is_alnum analyzer latest scripts size previous previous_scripts
          previous_size
        ≡ ok findings
      → (before : List Finding) × (after : List Finding) × (findings
          ≡ before ++ (gather binary_of (regular latest.tree) ++ after))
  unfolding analyze
  binaries-of-analyze latest scripts size previous previous_scripts previous_size h =
      let (package_json, _, h₁) = >>=-eq-ok (read_package_json loads _ latest.package_json) _ h in
      let (hooks, _, h₂) =
        >>=-eq-ok (read_previous loads floats is_alnum analyzer previous previous_scripts) _ h₁ in
      let (binaries, found, h₃) =
        >>=-eq-ok (detect_executable_binaries analyzer.max_files latest.tree) _ h₂ in
      let (obfuscated, _, h₄) =
        >>=-eq-ok
          (detect_obfuscated_code analyzer.max_files analyzer.max_text_file_bytes latest.tree) _
          h₃ in
      let (commands, _, h₅) =
        >>=-eq-ok
          (detect_command_execution_patterns is_alnum analyzer.max_files
            analyzer.max_text_file_bytes latest.tree)
          _ h₄ in
      (
        detect_install_hooks (resolve_scripts scripts package_json) hooks
            ++ detect_size_increase floats size previous_size,
        obfuscated ++ commands,
        rw (← gathered analyzer.max_files latest.tree found) (cc (h₅, append_assoc _ _ _)),
      )

  -- When an analysis returns findings, the score counts 25 points for each executable binary of the
  -- latest version, up to 100 in all.
  pub score-of-binaries :
      (latest : Extracted) (scripts : Dict Json) (size : Option ℤ) (previous : Option Extracted)
      (previous_scripts : Option (Dict Json)) (previous_size : Option ℤ) {findings : List Finding}
      → analyze loads floats is_alnum analyzer latest scripts size previous previous_scripts
          previous_size
        ≡ ok findings
      → pos (min 100 (1 + 25 * length (gather binary_of (regular latest.tree))))
        ≤ℤ calculate_score (finding_types findings)
  score-of-binaries latest scripts size previous previous_scripts previous_size {findings} h =
      let (before, after, split) =
        binaries-of-analyze latest scripts size previous previous_scripts previous_size h in
      rw (calculate_score-eq-min_total (finding_types findings), split)
        (omega (
          arith,
          points-append before (gather binary_of (regular latest.tree) ++ after),
          points-append (gather binary_of (regular latest.tree)) after,
          points-gather (regular latest.tree),
        ))

  -- A `package.json` of an accepted size whose text is no UTF-8 makes the whole analysis raise, whatever
  -- else the package holds: only `OSError` is caught where it is read.
  pub analyze_not_utf8 :
      (latest : Extracted) (scripts : Dict Json) (size : Option ℤ) (previous : Option Extracted)
      (previous_scripts : Option (Dict Json)) (previous_size : Option ℤ) (n : ℕ) (message : String)
      → latest.package_json.size ≡ ok n
      → n ≤ analyzer.package_json_max_bytes
      → latest.package_json.content ≡ raise value_error message
      → analyze loads floats is_alnum analyzer latest scripts size previous previous_scripts
          previous_size
        ≡ raise value_error message
  unfolding analyze
  analyze_not_utf8 latest scripts size previous previous_scripts previous_size n message hs hn hc =
      rw (read_not_utf8 loads analyzer.package_json_max_bytes latest.package_json hs hn hc)
