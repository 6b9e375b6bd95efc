-- ===== src/Scanner/Analyzer.antt =====
-- app/infrastructure/scanner/analyzer.py
pub mod Outcome
use npm_sentinel.Base.{ℕ, String, Bool, Option, none, some, List, [], ◌∷◌, ◌++◌, ◌+◌}
use npm_sentinel.Core.Exceptions.{Result, ok, ◌>>=◌, ◌>>◌}
use npm_sentinel.Base.Dict.{Dict, lookup}
use npm_sentinel.Base.Int.{ℤ}
use npm_sentinel.Base.Json.{Json, as_dict, as_str}
use npm_sentinel.Domain.Findings.{Finding}
use npm_sentinel.Scanner.Files.{Tree}
use npm_sentinel.Scanner.PackageJson.{PackageJsonFile, read_package_json}
use npm_sentinel.Scanner.InstallHooks.{detect_install_hooks}
use npm_sentinel.Scanner.Size.{Floats, detect_size_increase}
use npm_sentinel.Scanner.Binary.{detect_executable_binaries}
use npm_sentinel.Scanner.Obfuscation.{detect_obfuscated_code}
use npm_sentinel.Scanner.Commands.{detect_command_execution_patterns}

pub record StaticPackageAnalyzer : Type 0 where
  pub max_files : ℕ
  pub max_text_file_bytes : ℕ
  pub package_json_max_bytes : ℕ

-- An extracted package.
pub record Extracted : Type 0 where
  pub tree : Tree
  pub package_json : PackageJsonFile

-- The entries whose value is a text.
unfoldable pub text_entries : Dict Json → Dict String
unfolding as_str
text_entries [] = []
text_entries ((k, v) ∷ d) = elim (as_str v) [
  | none ↦ text_entries d
  | some s ↦ (k, s) ∷ text_entries d
]

-- The scripts of a `package.json`, where it is a dict that has a dict of them.
unfoldable pub json_scripts : Option (Dict Json) → Dict String
unfolding as_dict lookup text_entries
json_scripts none = []
json_scripts (some package_json) = elim (lookup "scripts" package_json) [
  | none ↦ []
  | some scripts ↦ elim (as_dict scripts) [ none ↦ [] | some d ↦ text_entries d ]
]

-- `_resolve_scripts`: the registry's scripts, unless they are empty.
unfoldable pub resolve_scripts : Dict Json → Option (Dict Json) → Dict String
unfolding text_entries json_scripts
resolve_scripts [] package_json = json_scripts package_json
resolve_scripts (e ∷ d) package_json = text_entries (e ∷ d)

abbrev pub or_empty_scripts : Option (Dict Json) → Dict Json
or_empty_scripts none = []
or_empty_scripts (some d) = d

module _ (loads : String → Option Json) (floats : Floats) (is_alnum : ℕ → Bool)
    (analyzer : StaticPackageAnalyzer) where
  unfoldable pub previous_scripts :
      Option Extracted → Option (Dict Json) → Result (Option (Dict String))
  unfolding read_package_json resolve_scripts
  previous_scripts none metadata_scripts = ok none
  previous_scripts (some root) metadata_scripts = do
    package_json ← read_package_json loads analyzer.package_json_max_bytes root.package_json
    ok (some (resolve_scripts (or_empty_scripts metadata_scripts) package_json))

  unfoldable pub analyze :
      Extracted
      → Dict Json
      → Option ℤ
      → Option Extracted
      → Option (Dict Json)
      → Option ℤ
      → Result (List Finding)
  analyze latest latest_metadata_scripts latest_size previous previous_metadata_scripts
        previous_size =
      do
        package_json ← read_package_json loads analyzer.package_json_max_bytes latest.package_json
        scripts ← ok (resolve_scripts latest_metadata_scripts package_json)
        before ← previous_scripts previous previous_metadata_scripts
        binaries ← detect_executable_binaries analyzer.max_files latest.tree
        obfuscated ←
            detect_obfuscated_code analyzer.max_files analyzer.max_text_file_bytes latest.tree
        commands ←
            detect_command_execution_patterns is_alnum analyzer.max_files
              analyzer.max_text_file_bytes latest.tree
        ok (
            detect_install_hooks scripts before
            ++ (detect_size_increase floats latest_size previous_size
                ++ (binaries ++ (obfuscated ++ commands))))
