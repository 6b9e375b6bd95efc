-- ===== src/Db/Packages.antt =====
-- The operations of app/infrastructure/db/repositories.py on packages and their versions.
use npm_sentinel.Base.{
  ℕ, String, Bool, not, ◌&&◌, Option, none, some, [], ◌∷◌, ◌++◌, ◌==◌, if◌then◌else◌, str_eq,
}
use npm_sentinel.Core.Exceptions.{value_error, ok, ◌>>◌, raise}
use npm_sentinel.Db.Models.{Db, PackageModel, PackageVersionModel, PackageVersionMetadata}
use npm_sentinel.Db.Table.{find_row, update_where, some_row}
use npm_sentinel.Db.Session.{Repo, fits, fits_int, check, has_package_id}

abbrev pub has_package_name : String → PackageModel → Bool
has_package_name name r = str_eq r.name name

-- `get_by_name`
unfoldable pub get_by_name : String → Db → Option PackageModel
get_by_name name db = find_row (has_package_name name) db.packages

unfoldable pub upsert_package : ℕ → ℕ → String → Repo PackageModel
unfolding get_by_name find_row update_where some_row
upsert_package now new_id name db = check (fits 255 name) >> elim (get_by_name name db) [
  | some r ↦
      let touched = record r { updated_at = now } in
      ok (
        touched,
        record db {
          packages =
              update_where (has_package_name name) (λ p. record p { updated_at = now }) db.packages;
        },
      )
  | none ↦
      check (not (some_row (has_package_id new_id) db.packages))
      >> let created : PackageModel = record {
        id = new_id;
        name = name;
        latest_scanned_version = none;
        last_scanned_at = none;
        created_at = now;
        updated_at = now;
      } in
        ok (created, record db { packages = db.packages ++ created ∷ [] })
]

abbrev pub has_version : ℕ → String → PackageVersionModel → Bool
has_version package_id version r = r.package_id == package_id && str_eq r.version version

unfoldable pub upsert_package_version :
    ℕ → ℕ → ℕ → String → PackageVersionMetadata → Repo PackageVersionModel
unfolding find_row update_where some_row
upsert_package_version now new_id package_id version metadata db = do
  check (fits 128 version && (fits_int metadata.unpacked_size && fits_int metadata.file_count))
  check (some_row (has_package_id package_id) db.packages)
  elim (find_row (has_version package_id version) db.versions) [
    | some r ↦ ok (
      record r { metadata = metadata },
      record db {
        versions =
            update_where (has_version package_id version) (λ v. record v { metadata = metadata })
              db.versions;
      },
    )
    | none ↦
        check (not (some_row (λ v. v.id == new_id) db.versions))
        >> let created : PackageVersionModel = record {
          id = new_id;
          package_id = package_id;
          version = version;
          metadata = metadata;
          created_at = now;
        } in
          ok (created, record db { versions = db.versions ++ created ∷ [] })
  ]

unfoldable pub mark_package_scanned : ℕ → ℕ → String → Repo (Unit {0})
unfolding some_row update_where
mark_package_scanned now package_id latest_scanned_version db =
    if not (some_row (has_package_id package_id) db.packages)
    then raise value_error "package not found"
    else (do
      check (fits 128 latest_scanned_version)
      ok (
        tt,
        record db {
          packages =
              update_where (has_package_id package_id)
                (λ p. record p {
                  latest_scanned_version = some latest_scanned_version;
                  last_scanned_at = some now;
                  updated_at = now;
                })
                db.packages;
        },
      ))
