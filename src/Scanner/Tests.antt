-- ===== src/Scanner/Tests.antt =====
-- The theorems on the scanner at concrete archives and packages.
use npm_sentinel.Scanner.Obfuscation.{detect_obfuscated_code}
use npm_sentinel.Scanner.PackageJson.{read_package_json}
use npm_sentinel.Base.{
  ◌≤◌, ℕ, ◌+◌, ◌*◌, min, String, ◌≡◌, refl, ◌↔◌, Bool, true, false, ◌&&◌, Option, none, some, List,
  [], ◌∷◌, map, arith, leb, if◌then◌else◌, is_some, length, take, one_of,
}
use npm_sentinel.Base.Int.{pos, ◌≤ℤ◌}
use npm_sentinel.Base.Dict.{Dict, contains}
use npm_sentinel.Base.Json.{Json}
use npm_sentinel.Core.Exceptions.{ok, err, raise, value_error}
use npm_sentinel.Domain.Enums.{size_increase_high, size_increase_medium, install_hook_added}
use npm_sentinel.Domain.Findings.{Finding}
use npm_sentinel.Domain.Scoring.{calculate_score, finding_types}
use npm_sentinel.Scanner.Files.{
  FileEntry, Tree, regular, iter_regular_files, iter_regular_files-regular, gather, too_many,
  for_each,
}
use npm_sentinel.Scanner.Binary.{
  binary_finding, binary_reason, detect_executable_binaries, binary_body,
}
use npm_sentinel.Scanner.Binary.Report.{
  Among, Reports, binary_of, detect_executable_binaries-gather,
}
use npm_sentinel.Scanner.InstallHooks.{all_hooks, or_empty, reports, due, detect_install_hooks}
use npm_sentinel.Scanner.InstallHooks.Reports.{detect_install_hooks-due}
use npm_sentinel.Scanner.Size.{Floats, detect_size_increase}
use npm_sentinel.Scanner.Commands.{detect_command_execution_patterns}
use npm_sentinel.Scanner.Paths.{Location, resolve, parts, is_absolute}
use npm_sentinel.Scanner.Extractor.{
  TarInfo, MemberKind, regular_file, symbolic_link, SafeExtractor, validate_archive, extract,
  convert, validate_members, validate_member, ensure_within_destination, validate_link,
  extract_members,
}
use npm_sentinel.Scanner.Extractor.Safe.{IsSafeArchive, extract-IsSafeArchive}
use npm_sentinel.Scanner.Analyzer.{StaticPackageAnalyzer, Extracted, analyze, previous_scripts}
use npm_sentinel.Scanner.Analyzer.Outcome.{score-of-binaries, analyze_not_utf8}

abbrev extractor : SafeExtractor
extractor = record {
  max_members = 3;
  max_total_uncompressed_bytes = 100;
  max_file_bytes = 60;
  max_path_depth = 4;
}

abbrev member : String → MemberKind → ℕ → String → TarInfo
member name kind size linkname = record {
  name = name;
  kind = kind;
  size = size;
  linkname = linkname;
}

abbrev archive : List TarInfo
archive =
    member "package/index.js" regular_file 50 ""
    ∷ member "package/lib/a.js" regular_file 40 ""
    ∷ member "package/lib/b.js" symbolic_link 0 "../index.js"
    ∷ []

abbrev destination : Location
destination = "extract" ∷ "tmp" ∷ []

-- A link inside the archive is accepted.
extract_tests :
    (extract extractor (ok archive) (λ m. ok tt) destination ≡ ok destination)
    × (map (λ m. m.name) archive
        ≡ "package/index.js" ∷ "package/lib/a.js" ∷ "package/lib/b.js" ∷ [])
unfolding extract convert validate_archive validate_members validate_member is_absolute parts
    ensure_within_destination resolve validate_link extract_members
extract_tests = (refl, refl)

extract-IsSafeArchive_example :
    (destination ≡ destination) × IsSafeArchive extractor destination archive
unfolding extract convert validate_archive validate_members validate_member is_absolute parts
    ensure_within_destination resolve validate_link extract_members
extract-IsSafeArchive_example =
    extract-IsSafeArchive extractor archive (λ m. ok tt) destination {l = destination} refl

-- No code point beyond ASCII is a letter or a digit.
abbrev no_alnum : ℕ → Bool
no_alnum c = false

abbrev with_hook : Dict String
with_hook = ("install", "node x.js") ∷ []

abbrev nothing : Dict String
nothing = []

detect_install_hooks-due_example :
    reports install_hook_added "install" (detect_install_hooks with_hook (some nothing)) ≡ (
      one_of all_hooks "install"
      && due install_hook_added
          (contains "install" with_hook)
          (is_some (some nothing))
          (contains "install" (or_empty (some nothing))))
detect_install_hooks-due_example =
    detect_install_hooks-due install_hook_added "install" with_hook (some nothing)

abbrev file : String → FileEntry
file name = record {
  name = name;
  relative = some name;
  is_symlink = false;
  is_file = true;
  size = some 10;
  magic = some [];
  text = some "";
}

abbrev tree : Tree
tree = file "a.exe" ∷ file "b.js" ∷ file "c.node" ∷ []

iter_regular_files-regular_example : iter_regular_files 2 tree ≡ (
    if leb (length (regular tree)) 2
    then (regular tree, none)
    else (take 2 (regular tree), some too_many))
iter_regular_files-regular_example = iter_regular_files-regular 2 tree

detect_executable_binaries-gather_example :
    (detect_executable_binaries 5 tree ≡ (
      if leb (length (regular tree)) 5 then ok (gather binary_of (regular tree)) else err too_many))
    × ((f : FileEntry) → length (binary_of f) ≤ 1)
    × ((f : FileEntry) (finding : Finding) → Among finding (binary_of f) ↔ Reports f finding)
detect_executable_binaries-gather_example = detect_executable_binaries-gather 5 tree

abbrev floats : Floats
floats = record {
  percent = λ a b. record { numerator = 50; denominator = 1 };
  format_percent = λ x. "50.00%";
}

-- Exact percentages.
abbrev exact : Floats
exact = record {
  percent = λ a b. record { numerator = 100 * a; denominator = b };
  format_percent = λ x. "";
}

-- More than twice the size, twice the size, and less than 30 percent more.
detect_size_increase_tests :
    (map (λ f. f.finding_type) (detect_size_increase exact (some (pos 201)) (some (pos 100)))
      ≡ size_increase_high ∷ [])
    × (map (λ f. f.finding_type) (detect_size_increase exact (some (pos 200)) (some (pos 100)))
        ≡ size_increase_medium ∷ [])
    × (detect_size_increase exact (some (pos 129)) (some (pos 100)) ≡ [])
unfolding detect_size_increase
detect_size_increase_tests = (refl, refl, refl)

abbrev analyzer : StaticPackageAnalyzer
analyzer = record { max_files = 5; max_text_file_bytes = 100; package_json_max_bytes = 100 }

abbrev loads : String → Option Json
loads text = none

abbrev latest : Extracted
latest = record { tree = tree; package_json = record { size = ok 2; content = ok "{}" } }

abbrev found : List Finding
found = binary_finding "a.exe" "extension:.exe" ∷ binary_finding "c.node" "extension:.node" ∷ []

analyzed : analyze loads floats no_alnum analyzer latest [] none none none none ≡ ok found
unfolding analyze read_package_json previous_scripts detect_executable_binaries for_each
    iter_regular_files binary_body binary_reason detect_obfuscated_code
    detect_command_execution_patterns detect_install_hooks detect_size_increase
analyzed = refl

score-of-binaries_example :
    pos (min 100 (1 + 25 * length (gather binary_of (regular tree))))
    ≤ℤ calculate_score (finding_types found)
score-of-binaries_example =
    score-of-binaries loads floats no_alnum analyzer latest [] none none none none
      {findings = found} analyzed

abbrev not_utf8 : Extracted
not_utf8 = record {
  tree = [];
  package_json = record { size = ok 2; content = raise value_error "utf-8" };
}

analyze_not_utf8_example :
    analyze loads floats no_alnum analyzer not_utf8 [] none none none none
    ≡ raise value_error "utf-8"
analyze_not_utf8_example =
    analyze_not_utf8 loads floats no_alnum analyzer not_utf8 [] none none none none 2 "utf-8" refl
      (omega arith) refl
