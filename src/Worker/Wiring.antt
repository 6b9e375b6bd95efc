-- ===== src/Worker/Wiring.antt =====
-- `_build_scan_use_case` of app/worker/tasks.py: the ports of a scan, filled with the components.
mod Tests
pub mod Archives
use npm_sentinel.Base.{ℕ, String, Bool, Option, none, some, List}
use npm_sentinel.Core.Exceptions.{Result, ok, err, ◌>>=◌, raise, other_error}
use npm_sentinel.Base.Json.{Json}
use npm_sentinel.Npm.Registry.{
  Stamp, Outcome as RequestOutcome, fetch_metadata as fetch_from_registry,
}
use npm_sentinel.Npm.Tarball.{Bytes, Url, Answer, TarballDownloader, download as download_tarball}
use npm_sentinel.Scanner.Size.{Floats}
use npm_sentinel.Scanner.Paths.{Location}
use npm_sentinel.Scanner.Extractor.{TarInfo, SafeExtractor, extract as extract_archive}
use npm_sentinel.Scanner.Analyzer.{StaticPackageAnalyzer, Extracted, analyze as analyze_package}
use npm_sentinel.UseCases.ScanPackage.{Ports}

-- What the components use of their surroundings: the network, the clock's texts, base64 and the hashes, what
-- `tarfile` reads and unpacks, the JSON parser, the arithmetic of floats, and the letters of Unicode.
pub record Surroundings : Type 0 where
  pub request : String → RequestOutcome
  pub fromisoformat : String → Option Stamp
  pub urlparse : String → Url
  pub stream : String → Answer
  pub b64decode : String → Option Bytes
  pub digest : String → Bytes → Bytes
  pub members : Bytes → Result (List TarInfo)
  pub extract_member : TarInfo → Result (Unit {0})
  pub destination : Location
  pub unpacked : Bytes → Extracted
  pub loads : String → Option Json
  pub floats : Floats
  pub is_alnum : ℕ → Bool

-- The limits from the settings.
pub record Limits : Type 0 where
  pub downloader : TarballDownloader
  pub extractor : SafeExtractor
  pub analyzer : StaticPackageAnalyzer

-- The path that `download` returns, as the content of its file.
abbrev pub downloaded : Result (Unit {0}) × Option Bytes → Result Bytes
downloaded (ok _, some content) = ok content
downloaded (ok _, none) = raise other_error "no file"
downloaded (err e, file) = err e

unfoldable pub scan_ports : Surroundings → Limits → Ports Bytes Extracted
scan_ports around limits = record {
  fetch_metadata = λ name. fetch_from_registry around.fromisoformat name (around.request name);
  download = λ url integrity. downloaded (
      download_tarball around.b64decode around.digest limits.downloader (around.urlparse url)
        integrity (around.stream url) none);
  extract = λ archive. do
    root ←
        extract_archive limits.extractor (around.members archive) around.extract_member
          around.destination
    ok (around.unpacked archive);
  analyze = analyze_package around.loads around.floats around.is_alnum limits.analyzer;
}
