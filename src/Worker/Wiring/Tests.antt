-- ===== src/Worker/Wiring/Tests.antt =====
-- A scan with the components as its ports, and the theorem on its archives at a concrete input.
use npm_sentinel.Base.{
  String, ◌≡◌, refl, none, some, List, [], ◌∷◌, true, false, ◌+◌, ◌*◌, min, length, append,
  is_space,
}
use npm_sentinel.Base.Int.{pos, ◌≤ℤ◌}
use npm_sentinel.Core.Exceptions.{ok}
use npm_sentinel.Domain.Findings.{Finding}
use npm_sentinel.Domain.Scoring.{calculate_score, finding_types}
use npm_sentinel.Npm.Registry.{timed_out}
use npm_sentinel.Npm.Tarball.{
  Bytes, complete, build_integrity_check, download, validate_url, first_token, write_stream_to_file,
  written, write_chunks, verify, same_bytes,
}
use npm_sentinel.Scanner.Paths.{is_absolute, parts, resolve}
use npm_sentinel.Scanner.Extractor.{
  regular_file, extract, convert, validate_archive, validate_members, validate_member,
  validate_link, extract_members, ensure_within_destination,
}
use npm_sentinel.Scanner.Files.{for_each, iter_regular_files, regular, gather}
use npm_sentinel.Scanner.Binary.{
  detect_executable_binaries, binary_body, binary_reason, binary_finding,
}
use npm_sentinel.Scanner.Binary.Report.{binary_of}
use npm_sentinel.Scanner.PackageJson.{read_package_json}
use npm_sentinel.Scanner.Analyzer.{analyze, previous_scripts}
use npm_sentinel.Scanner.Obfuscation.{detect_obfuscated_code}
use npm_sentinel.Scanner.Commands.{detect_command_execution_patterns}
use npm_sentinel.Scanner.InstallHooks.{detect_install_hooks}
use npm_sentinel.Scanner.Size.{detect_size_increase}
use npm_sentinel.UseCases.ScanPackage.{PackageRegistryMetadata, RegistryVersionMetadata}
use npm_sentinel.UseCases.ScanPackage.Run.{fetch_root, fetch_previous_root, inspect}
use npm_sentinel.Worker.Wiring.{Surroundings, Limits, scan_ports}
use npm_sentinel.Worker.Wiring.Archives.{Vetted, VettedPrevious, inspect-Vetted}

abbrev around : Surroundings
around = record {
  request = λ url. timed_out;
  fromisoformat = λ text. none;
  urlparse = λ url. record { scheme = "https"; netloc = "registry.npmjs.org"; path = url };
  stream =
      λ url. record { status_code = 200; chunks = (1 ∷ 2 ∷ []) ∷ (3 ∷ []) ∷ []; end = complete };
  b64decode = λ text. some (1 ∷ 2 ∷ 3 ∷ []);
  digest = λ algorithm content. content;
  members = λ archive. ok (
      record { name = "package/a.exe"; kind = regular_file; size = length archive; linkname = "" }
      ∷ []);
  extract_member = λ m. ok tt;
  destination = "extract" ∷ "tmp" ∷ [];
  unpacked = λ archive. record {
    tree =
        record {
          name = "a.exe";
          relative = some "package/a.exe";
          is_symlink = false;
          is_file = true;
          size = some (length archive);
          magic = some [];
          text = some "";
        }
        ∷ [];
    package_json = record { size = ok 2; content = ok "{}" };
  };
  loads = λ text. none;
  floats = record {
    percent = λ a b. record { numerator = 50; denominator = 1 };
    format_percent = λ x. "50.00%";
  };
  is_alnum = λ c. false;
}

abbrev limits : Limits
limits = record {
  downloader = record { max_bytes = 3 };
  extractor = record {
    max_members = 3;
    max_total_uncompressed_bytes = 100;
    max_file_bytes = 60;
    max_path_depth = 4;
  };
  analyzer = record { max_files = 5; max_text_file_bytes = 100; package_json_max_bytes = 100 };
}

abbrev version : String → RegistryVersionMetadata
version v = record {
  package_name = "a";
  version = v;
  published_at = none;
  tarball_url = append v ".tgz";
  integrity = some "sha512-AQID";
  unpacked_size = none;
  file_count = none;
  package_json = [];
  dependencies = [];
  scripts = [];
}

abbrev metadata : PackageRegistryMetadata
metadata = record {
  package_name = "a";
  latest_version = version "1.1.0";
  previous_version = some (version "1.0.0");
}

abbrev found : List Finding
found = binary_finding "package/a.exe" "extension:.exe" ∷ []

inspected : inspect (scan_ports around limits) metadata ≡ ok found
unfolding inspect scan_ports fetch_root fetch_previous_root download validate_url
    build_integrity_check first_token is_space write_stream_to_file written write_chunks verify
    same_bytes extract convert validate_archive validate_members validate_member is_absolute parts
    ensure_within_destination resolve validate_link extract_members analyze read_package_json
    previous_scripts detect_executable_binaries for_each iter_regular_files binary_body
    binary_reason detect_obfuscated_code detect_command_execution_patterns detect_install_hooks
    detect_size_increase
inspected = refl

inspect-Vetted_example :
    (archive : Bytes) × Vetted around limits (version "1.1.0") archive
    × VettedPrevious around limits (some (version "1.0.0"))
    × (pos (min 100 (1 + 25 * length (gather binary_of (regular (around.unpacked archive).tree))))
        ≤ℤ calculate_score (finding_types found))
inspect-Vetted_example = inspect-Vetted around limits metadata {findings = found} inspected
