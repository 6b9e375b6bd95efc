-- ===== src/Db/Queries/Packages/Tests.antt =====
-- The round trip of a version that is stored a second time, with what the registry says by then.
use npm_sentinel.Base.{ℕ, String, arith, ◌≡◌, refl, Option, none, some, [], ◌∷◌, get_elem?}
use npm_sentinel.Db.Models.{Db, PackageModel, PackageVersionModel, PackageVersionMetadata}
use npm_sentinel.Db.Table.{find_row, some_row, update_where, select_rows}
use npm_sentinel.Db.Packages.{get_by_name, upsert_package_version}
use npm_sentinel.Db.Select.{count_rows}
use npm_sentinel.Db.Reads.{Pagination}
use npm_sentinel.Db.Queries.Packages.{list_package_versions}
use npm_sentinel.Db.Queries.Packages.Stored.{version_row, upsert_package_version-listed}

abbrev metadata_at : Option ℕ → PackageVersionMetadata
metadata_at published = record {
  published_at = published;
  tarball_url = none;
  integrity = none;
  unpacked_size = none;
  file_count = none;
  package_json = [];
  dependencies = [];
  scripts = [];
}

abbrev version : ℕ → String → Option ℕ → PackageVersionModel
version i v published = record {
  id = i;
  package_id = 2;
  version = v;
  created_at = 1;
  metadata = metadata_at published;
}

abbrev lodash : PackageModel
lodash = record {
  id = 2;
  name = "lodash";
  latest_scanned_version = none;
  last_scanned_at = none;
  created_at = 1;
  updated_at = 1;
}

-- The version without a date is stored again, with one.
abbrev tables : PackageVersionModel → Db
tables second = record {
  packages = lodash ∷ [];
  versions = version 1 "1.0.0" (some 3) ∷ second ∷ version 3 "1.1.0" (some 4) ∷ [];
  scan_results = [];
  findings = [];
  queue_jobs = [];
}

abbrev first_page : Pagination
first_page = record { limit = 2; offset = 0 }

upsert_package_version-listed_example :
    ((version 2 "2.0.0" (some 8)).version ≡ "2.0.0")
    × ((version 2 "2.0.0" (some 8)).metadata ≡ metadata_at (some 8))
    × (get_elem?
          (list_package_versions "lodash" first_page (tables (version 2 "2.0.0" (some 8)))).0
          0
        ≡ some (version_row 2 "lodash" "2.0.0" (metadata_at (some 8)) (version 2 "2.0.0" (some 8))))
unfolding get_by_name upsert_package_version find_row some_row update_where select_rows count_rows
upsert_package_version-listed_example =
    upsert_package_version-listed 7 9 lodash "2.0.0" (metadata_at (some 8)) first_page 0
      (tables (version 2 "2.0.0" none)) {row = version 2 "2.0.0" (some 8)}
      {after = tables (version 2 "2.0.0" (some 8))} (refl, (refl, (refl, tt))) refl refl refl
      (omega arith)
