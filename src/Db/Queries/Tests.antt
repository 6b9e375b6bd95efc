-- ===== src/Db/Queries/Tests.antt =====
-- Runs of the queries, and their theorems at concrete tables.
use text.Mathlib.TextEquality.{Char-path}
use Prim.Native.Char.{code}
use npm_sentinel.Base.{
  arith, ◌==◌, ◌&&◌, ◌||◌, ℕ, String, ◌≡◌, refl, ◌↔◌, Bool, true, false, Option, none, some, [],
  ◌∷◌, map, ltb, lower,
}
use npm_sentinel.Db.Models.{
  Db, PackageModel, PackageVersionModel, ScanResultModel, ScanStatus, FindingModel,
}
use npm_sentinel.Db.Table.{some_row, find_row, Unique}
use npm_sentinel.Db.Select.Like.Substring.{Contains}
use npm_sentinel.Db.Select.Joins.{wanted, read}
use npm_sentinel.Db.Select.Listing.{Ranked}
use npm_sentinel.Db.Packages.{get_by_name}
use npm_sentinel.Db.Reads.{Pagination, ScanResultFilters, PackageListFilters}
use npm_sentinel.Db.Queries.{list_scan_results, list_findings}
use npm_sentinel.Db.Queries.Listings.{
  newer, scan_row, package_of, scan_wanted, list_scan_results-Ranked,
}
use npm_sentinel.Db.Queries.Listings.Findings.{
  finding_row, scan_of, finding_wanted, list_findings-Ranked,
}
use npm_sentinel.Db.Queries.Packages.{
  list_packages, get_package_detail, list_package_versions, to_list_item, scanned_after,
}
use npm_sentinel.Db.Queries.Packages.Names.{has_name_like_iff}
use npm_sentinel.Db.Queries.Packages.{has_name_like}
use npm_sentinel.Db.Queries.Windows.{latest_of}
use npm_sentinel.Db.Queries.Packages.Listed.{package_wanted, list_packages-Ranked}
use npm_sentinel.Db.Queries.Packages.Details.{Described, Described-get_package_detail}

abbrev package_row : ℕ → String → Option ℕ → PackageModel
package_row i name scanned = record {
  id = i;
  name = name;
  latest_scanned_version = none;
  last_scanned_at = scanned;
  created_at = 1;
  updated_at = 1;
}

abbrev scan : ℕ → ℕ → ScanStatus → String → ℕ → ScanResultModel
scan i package_id status level started = record {
  id = i;
  package_id = package_id;
  latest_version = none;
  previous_version = none;
  status = status;
  score = none;
  risk_level = level;
  error_message = none;
  started_at = started;
  finished_at = none;
  created_at = 1;
}

abbrev finding : ℕ → ℕ → String → FindingModel
finding i scan_result_id severity = record {
  id = i;
  scan_result_id = scan_result_id;
  created_at = 5;
  finding = record {
    finding_type = "OBFUSCATED_CODE";
    severity = severity;
    category = "c";
    description = "d";
    file_path = none;
    evidence = none;
  };
}

abbrev version : ℕ → ℕ → String → Option ℕ → PackageVersionModel
version i package_id v published = record {
  id = i;
  package_id = package_id;
  version = v;
  created_at = 1;
  metadata = record {
    published_at = published;
    tarball_url = none;
    integrity = none;
    unpacked_size = none;
    file_count = none;
    package_json = [];
    dependencies = [];
    scripts = [];
  };
}

-- Two packages; one has a completed scan and a newer one that waits.
abbrev tables : Db
tables = record {
  packages = package_row 1 "left-pad" none ∷ package_row 2 "lodash" (some 9) ∷ [];
  versions =
      version 1 2 "1.0.0" (some 3) ∷ version 2 2 "2.0.0" none ∷ version 3 2 "1.1.0" (some 4) ∷ [];
  scan_results =
      scan 1 2 ScanStatus.completed "high" 10
      ∷ scan 2 2 ScanStatus.queued "unknown" 12
      ∷ scan 3 1 ScanStatus.completed "low" 12
      ∷ [];
  findings = finding 1 1 "high" ∷ finding 2 1 "low" ∷ finding 3 3 "low" ∷ [];
  queue_jobs = [];
}

abbrev first_page : Pagination
first_page = record { limit = 2; offset = 0 }

abbrev no_filter : ScanResultFilters
no_filter = record { status = none; risk_level = some ""; package_name = some "D" }

-- The order of the texts by their code points.
by_codes : String → String → Bool
by_codes String.[] String.[] = false
by_codes String.[] (String.◌∷◌ d t) = true
by_codes (String.◌∷◌ c s) String.[] = false
by_codes (String.◌∷◌ c s) (String.◌∷◌ d t) =
    ltb (code c) (code d) || code c == code d && by_codes s t

by_codes_asym : (a b : String) → by_codes a b ≡ true → by_codes b a ≡ false
unfolding by_codes
by_codes_asym String.[] String.[] h = refl
by_codes_asym String.[] (String.◌∷◌ d t) h = refl
by_codes_asym (String.◌∷◌ c s) String.[] h = cc
by_codes_asym (String.◌∷◌ c s) (String.◌∷◌ d t) h = ground (arith, by_codes_asym s t)

by_codes_trans : (a b c : String) → by_codes a b ≡ true → by_codes b c ≡ true → by_codes a c ≡ true
unfolding by_codes
by_codes_trans String.[] String.[] z h k = k
by_codes_trans String.[] (String.◌∷◌ d t) String.[] h k = cc
by_codes_trans String.[] (String.◌∷◌ d t) (String.◌∷◌ e u) h k = refl
by_codes_trans (String.◌∷◌ c s) String.[] z h k = cc
by_codes_trans (String.◌∷◌ c s) (String.◌∷◌ d t) String.[] h k = cc
by_codes_trans (String.◌∷◌ c s) (String.◌∷◌ d t) (String.◌∷◌ e u) h k =
    ground (arith, by_codes_trans s t u)

by_codes_separates : (a b : String) → by_codes a b ≡ false → by_codes b a ≡ false → a ≡ b
unfolding by_codes
by_codes_separates String.[] String.[] h k = refl
by_codes_separates String.[] (String.◌∷◌ d t) h k = cc
by_codes_separates (String.◌∷◌ c s) String.[] h k = cc
by_codes_separates (String.◌∷◌ c s) (String.◌∷◌ d t) h k =
    let rest : s ≡ t = by_codes_separates s t (ground arith) (ground arith) in
    let head : c ≡ d = Char-path c d (ground arith) in cc (head, rest)

queries_tests :
    (map (λ r. r.id) (list_scan_results no_filter first_page tables).0 ≡ 3 ∷ 2 ∷ [])
    × ((list_scan_results no_filter first_page tables).1 ≡ 3)
    × (map
          (λ f. f.id)
          (list_findings
            (record { severity = some "low"; finding_type = none; package_name = none })
            first_page
            tables).0
        ≡ 3 ∷ 2 ∷ [])
    × (map
          (λ p. p.latest_scan_risk_level)
          (list_packages by_codes
            (record { risk_level = some "high"; name_query = none })
            first_page
            tables).0
        ≡ some "unknown" ∷ [])
    × (map (λ v. v.version) (list_package_versions "lodash" first_page tables).0
        ≡ "1.1.0" ∷ "1.0.0" ∷ [])
    × (list_package_versions "loda" first_page tables ≡ ([], 0))
unfolding list_scan_results list_findings list_packages list_package_versions by_codes
queries_tests = (refl, refl, refl, refl, refl, refl)

Unique-scans : Unique (λ r. r.id) tables.scan_results
unfolding some_row
Unique-scans = (refl, (refl, (refl, tt)))

list_scan_results-Ranked_example :
    Ranked
      (λ a b. newer a.started_at a.id b.started_at b.id)
      (wanted (package_of tables) (scan_wanted no_filter))
      (read (package_of tables) scan_row)
      2
      0
      tables.scan_results
      (list_scan_results no_filter first_page tables)
unfolding some_row
list_scan_results-Ranked_example =
    list_scan_results-Ranked no_filter first_page tables (refl, (refl, tt)) Unique-scans

list_findings-Ranked_example :
    Ranked
      (λ a b. newer a.created_at a.id b.created_at b.id)
      (wanted (scan_of tables) (
        finding_wanted
          (record { severity = some "low"; finding_type = none; package_name = none })))
      (read (scan_of tables) finding_row)
      2
      0
      tables.findings
      (list_findings
        (record { severity = some "low"; finding_type = none; package_name = none })
        first_page
        tables)
unfolding some_row
list_findings-Ranked_example =
    list_findings-Ranked
      (record { severity = some "low"; finding_type = none; package_name = none }) first_page tables
      (refl, (refl, tt)) Unique-scans (refl, (refl, (refl, tt)))

abbrev high : PackageListFilters
high = record { risk_level = some "high"; name_query = none }

list_packages-Ranked_example :
    Ranked
      (scanned_after by_codes)
      (package_wanted high tables)
      (λ p. some (to_list_item (p, latest_of false tables p.id)))
      2
      0
      tables.packages
      (list_packages by_codes high first_page tables)
unfolding some_row
list_packages-Ranked_example =
    list_packages-Ranked by_codes by_codes_asym by_codes_trans by_codes_separates high first_page
      tables (refl, (refl, tt)) Unique-scans

Described-get_package_detail_example :
    Described tables (some (package_row 2 "lodash" (some 9))) (get_package_detail "lodash" tables)
unfolding some_row get_by_name find_row
Described-get_package_detail_example = Described-get_package_detail tables Unique-scans "lodash"

has_name_like_iff_example :
    (has_name_like
        (record { risk_level = none; name_query = some "DA" })
        (package_row 2 "Lodash" none)
      ≡ true)
    ↔ Contains (lower "Lodash") (lower "DA")
unfolding lower
has_name_like_iff_example =
    has_name_like_iff none "DA" (package_row 2 "Lodash" none)
      (refl, refl, refl, (refl, refl, refl, tt))
