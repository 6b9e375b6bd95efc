-- ===== src/Worker/Wiring/Archives.antt =====
-- What is known of the archives of a scan that analysed them.
use npm_sentinel.Base.{◌+◌, ◌*◌, ◌≤◌, min, String, ◌≡◌, refl, sym, Option, none, some, List, length}
use npm_sentinel.Core.Exceptions.{Exception, Result, ok, err, >>=-eq-ok}
use npm_sentinel.Base.Int.{pos, ◌≤ℤ◌}
use npm_sentinel.Domain.Findings.{Finding}
use npm_sentinel.Domain.Scoring.{calculate_score, finding_types}
use npm_sentinel.Scanner.Paths.{Location}
use std.Path.{subst}
use npm_sentinel.Npm.Tarball.{
  Bytes, Answer, Url, IntegrityCheck, build_integrity_check, download as download_tarball,
}
use npm_sentinel.Npm.Tarball.Accepted.{concat, Stored, Verified, download-Stored}
use npm_sentinel.Npm.Tarball.Integrity.{Asked}
use npm_sentinel.Scanner.Files.{regular, gather}
use npm_sentinel.Scanner.Binary.Report.{binary_of}
use npm_sentinel.Scanner.Extractor.{TarInfo, SafeExtractor, extract as extract_archive}
use npm_sentinel.Scanner.Extractor.Safe.{convert-ok, IsSafeArchive, extract-IsSafeArchive}
use npm_sentinel.Scanner.Analyzer.{Extracted}
use npm_sentinel.Scanner.Analyzer.Outcome.{score-of-binaries}
use npm_sentinel.UseCases.ScanPackage.{PackageRegistryMetadata, RegistryVersionMetadata}
use npm_sentinel.UseCases.ScanPackage.Run.{
  scripts_of, size_of, fetch_root, fetch_previous_root, inspect,
}
use npm_sentinel.Worker.Wiring.{Surroundings, Limits, downloaded, scan_ports}

-- The archive that the version's address answers with, within the limit, with the digest that the registry gave
-- if it gave one, whose members are safe.
abbrev pub Vetted : Surroundings → Limits → RegistryVersionMetadata → Bytes → Type 0
Vetted around limits metadata archive =
    (check : Option IntegrityCheck) × (members : List TarInfo) × (concat
        (around.stream metadata.tarball_url).chunks
      ≡ archive)
    × (length archive ≤ limits.downloader.max_bytes)
    × (build_integrity_check around.b64decode metadata.integrity ≡ ok check)
    × Asked around.b64decode metadata.integrity check
    × Verified around.b64decode around.digest limits.downloader check archive
    × (around.members archive ≡ ok members)
    × IsSafeArchive limits.extractor around.destination members

not_extracted :
    (extractor : SafeExtractor) (extract_member : TarInfo → Result (Unit {0}))
    (destination : Location) (e : Exception) {l : Location}
    → extract_archive extractor (err e) extract_member destination ≡ ok l
    → ⊥
unfolding extract_archive
not_extracted extractor extract_member destination e {l} h = cc (convert-ok (err e) {l = l} h)

module _ (around : Surroundings) (limits : Limits) where
  -- What a download that gives its content has checked.
  abbrev Accepted : Option String → Answer → Bytes → Type 0
  Accepted integrity answer archive =
      (check : Option IntegrityCheck) × (concat answer.chunks ≡ archive)
      × (length archive ≤ limits.downloader.max_bytes)
      × (build_integrity_check around.b64decode integrity ≡ ok check)
      × Asked around.b64decode integrity check
      × Verified around.b64decode around.digest limits.downloader check archive

  Accepted-downloaded :
      (url : Url) (integrity : Option String) (answer : Answer)
      (r : Result (Unit {0}) × Option Bytes)
      → Stored around.b64decode around.digest limits.downloader url integrity answer none r
      → {archive : Bytes} → downloaded r ≡ ok archive
      → Accepted integrity answer archive
  Accepted-downloaded url integrity answer (ok _, none)
        (check, _, checked, asked, _, _, whole, bound, verified) {archive} h =
      cc h
  Accepted-downloaded url integrity answer (ok _, some content)
        (check, _, checked, asked, _, _, whole, bound, verified) {archive} h =
      let e : concat answer.chunks ≡ archive = cc (whole, h) in
      subst (λ (a : Bytes). Accepted integrity answer a) e
        (check, refl, bound, checked, asked, verified)
  Accepted-downloaded url integrity answer (err e, file) stored {archive} h = cc h

  safe_members :
      (r : Result (List TarInfo)) {l : Location}
      → extract_archive limits.extractor r around.extract_member around.destination ≡ ok l
      → (members : List TarInfo) × (r ≡ ok members)
        × IsSafeArchive limits.extractor around.destination members
  safe_members (ok members) {l} h =
      let (_, safe) =
        extract-IsSafeArchive limits.extractor members around.extract_member around.destination
          {l = l} h in
      (members, refl, safe)
  safe_members (err e) {l} h =
      absurd (not_extracted limits.extractor around.extract_member around.destination e {l = l} h)

  Vetted-fetch_root :
      (metadata : RegistryVersionMetadata) {root : Extracted}
      → fetch_root (scan_ports around limits) metadata ≡ ok root
      → (archive : Bytes) × Vetted around limits metadata archive × (around.unpacked archive ≡ root)
  unfolding fetch_root scan_ports
  Vetted-fetch_root metadata {root} h =
      let url = around.urlparse metadata.tarball_url in
      let answer = around.stream metadata.tarball_url in
      let (archive, got, h₁) =
        >>=-eq-ok
          (downloaded (
            download_tarball around.b64decode around.digest limits.downloader url metadata.integrity
              answer none))
          _ h in
      let (place, extracted, h₂) =
        >>=-eq-ok
          (extract_archive limits.extractor (around.members archive) around.extract_member
            around.destination)
          _ h₁ in
      let (check, whole, bound, checked, asked, verified) =
        Accepted-downloaded url metadata.integrity answer _
          (download-Stored around.b64decode around.digest limits.downloader url metadata.integrity
            answer none)
          {archive = archive} got in
      let (members, read, safe) = safe_members (around.members archive) {l = place} extracted in
      (archive, (check, members, whole, bound, checked, asked, verified, read, safe), cc h₂)

  abbrev pub VettedPrevious : Option RegistryVersionMetadata → Type 0
  VettedPrevious none = Unit
  VettedPrevious (some metadata) = (archive : Bytes) × Vetted around limits metadata archive

  vetted_previous :
      (previous : Option RegistryVersionMetadata) {root : Option Extracted}
      → fetch_previous_root (scan_ports around limits) previous ≡ ok root
      → VettedPrevious previous
  unfolding fetch_previous_root
  vetted_previous none {root} h = tt
  vetted_previous (some metadata) {root} h =
      let (r, fetched, h₁) = >>=-eq-ok (fetch_root (scan_ports around limits) metadata) _ h in
      let (archive, vetted, _) = Vetted-fetch_root metadata {root = r} fetched in (archive, vetted)

  -- If the inspection of a scan, with the components as its ports, gives findings, then the archive of the
  -- latest version, and that of the previous one if there is one, is all that its address answered with, was
  -- within the limit of the download, had the digest that the registry gave if it gave one, and had safe
  -- members only; and the score of the findings counts 25 points for each executable binary of the latest
  -- version, up to 100 in all.
  pub inspect-Vetted :
      (metadata : PackageRegistryMetadata) {findings : List Finding}
      → inspect (scan_ports around limits) metadata ≡ ok findings
      → (archive : Bytes) × Vetted around limits metadata.latest_version archive
        × VettedPrevious metadata.previous_version
        × (pos (
              min 100 (1 + 25 * length (gather binary_of (regular (around.unpacked archive).tree))))
            ≤ℤ calculate_score (finding_types findings))
  unfolding inspect scan_ports
  inspect-Vetted metadata {findings} h =
      let ports = scan_ports around limits in
      let (root, fetched, h₁) = >>=-eq-ok (fetch_root ports metadata.latest_version) _ h in
      let (before, fetched_before, h₂) =
        >>=-eq-ok (fetch_previous_root ports metadata.previous_version) _ h₁ in
      let (archive, vetted, same) =
        Vetted-fetch_root metadata.latest_version {root = root} fetched in
      (
        archive,
        vetted,
        vetted_previous metadata.previous_version {root = before} fetched_before,
        subst
            (λ (x : Extracted).
              pos (min 100 (1 + 25 * length (gather binary_of (regular x.tree))))
              ≤ℤ calculate_score (finding_types findings))
            (sym same)
            (score-of-binaries around.loads around.floats around.is_alnum limits.analyzer root
              metadata.latest_version.scripts metadata.latest_version.unpacked_size before
              (scripts_of ports metadata.previous_version) (size_of ports metadata.previous_version)
              {findings = findings} h₂),
      )
