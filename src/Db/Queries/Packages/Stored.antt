-- ===== src/Db/Queries/Packages/Stored.antt =====
-- The round trip of a version: what upsert_package_version stores is what list_package_versions reads.
use std.Path.{subst}
use mathlib.Core.Path.{fun_ext}
use npm_sentinel.Base.{
  ℕ, ◌+◌, ◌<◌, String, ◌≡◌, refl, ap, ltb, ◌∙◌, inl, inr, Bool, true, false, ◌&&◌, ◌==◌, Option,
  none, some, List, [], ◌∷◌, arith, Bool-cases, if◌then◌else◌, get_elem?,
}
use npm_sentinel.Core.Exceptions.{Result, ok}
use npm_sentinel.Db.Models.{Db, PackageModel, PackageVersionModel, PackageVersionMetadata}
use npm_sentinel.Db.Table.{find_row, Unique}
use npm_sentinel.Db.Holds.{Holds}
use npm_sentinel.Db.Packages.{get_by_name, has_version, upsert_package_version}
use npm_sentinel.Db.Select.{count_rows}
use npm_sentinel.Db.Select.Order.{In}
use npm_sentinel.Db.Reads.{Pagination, PackageVersionRead}
use npm_sentinel.Db.Queries.Packages.{
  version_of, published_after, to_version_read, list_package_versions,
}
use npm_sentinel.Db.Queries.Packages.Details.{VersionsListed, VersionsListed-list_package_versions}
use npm_sentinel.Db.Queries.Packages.Versions.{VersionStored, VersionStored-upsert_package_version}

In-of_found : {A : Type 0} (p : A → Bool) (rs : List A) {r : A} → find_row p rs ≡ some r → In r rs
unfolding find_row
In-of_found p [] h = cc
In-of_found p (s ∷ rs) {r} h = elim (Bool-cases (p s)) [
  | inl hit ↦ inl (ground arith)
  | inr miss ↦ inr (In-of_found p rs {r = r} (ground arith))
]

-- Whether a version with the first date and key comes before one with the second: the later date first, no date last,
-- and at the same date, or without any, the greater key.
abbrev pub dated_before : Option ℕ → ℕ → Option ℕ → ℕ → Bool
dated_before none key none other_key = ltb other_key key
dated_before none key (some other_date) other_key = false
dated_before (some date) key none other_key = true
dated_before (some date) key (some other_date) other_key =
    if date == other_date then ltb other_key key else ltb other_date date

published_after-eq :
    (a b : PackageVersionModel)
    → published_after a b ≡ dated_before a.metadata.published_at a.id b.metadata.published_at b.id
published_after-eq a b = ground arith

-- What is read of a version, where its package is given by its key and its name.
abbrev pub version_row :
    ℕ → String → String → PackageVersionMetadata → PackageVersionModel → PackageVersionRead
version_row package_id package_name version metadata row = record {
  id = row.id;
  package_id = package_id;
  package_name = package_name;
  version = version;
  metadata = metadata;
  created_at = row.created_at;
}

to_version_read-eq :
    (p : PackageModel) (version : String) (metadata : PackageVersionMetadata)
    (row : PackageVersionModel)
    → row.package_id ≡ p.id
    → row.version ≡ version
    → row.metadata ≡ metadata
    → to_version_read p row ≡ version_row p.id p.name version metadata row
unfolding to_version_read
to_version_read-eq p version metadata row at_package at_version given =
    rw (at_package, at_version, given) refl

-- The page, where the version is stored.
Holds-listed :
    (p : PackageModel) (version : String) (metadata : PackageVersionMetadata)
    (pagination : Pagination) (i : ℕ) (db : Db) (r : Result (PackageVersionModel × Db))
    {row : PackageVersionModel} {after : Db}
    → get_by_name p.name db ≡ some p
    → Holds (VersionStored p.id version metadata db) r
    → r ≡ ok (row, after)
    → count_rows
        (λ s.
          version_of p.id s
          && dated_before s.metadata.published_at s.id row.metadata.published_at row.id)
        after.versions
      ≡ pagination.offset + i
    → i < pagination.limit
    → (row.version ≡ version)
      × (row.metadata ≡ metadata)
      × (get_elem? (list_package_versions p.name pagination after).0 i
          ≡ some (version_row p.id p.name version metadata row))
unfolding get_by_name
Holds-listed p version metadata pagination i db r {row} {after} named h returned place below =
    let (at_package, at_version, given, found, others, same, u) =
      subst (Holds (VersionStored p.id version metadata db)) returned h in
    let listing = VersionsListed-list_package_versions pagination after u p.name in
    let there : get_by_name p.name after ≡ some p = rw same named in
    let page =
      subst
        (λ (f : Option PackageModel).
          VersionsListed after pagination f (list_package_versions p.name pagination after))
        there listing in
    (
      at_version,
      given,
      page.2 row i (In-of_found (has_version p.id version) after.versions found)
            (ground (arith, at_package))
            (ap (λ (q : PackageVersionModel → Bool). count_rows q after.versions)
                (fun_ext (λ (s : PackageVersionModel).
                  ap (λ (b : Bool). version_of p.id s && b) (published_after-eq s row)))
              ∙ place)
            below
          ∙ ap some (to_version_read-eq p version metadata row at_package at_version given),
    )

-- If versions have different keys and the package is stored under its name, then what `upsert_package_version` returns
-- has the version and the metadata that were asked for, and the listing of the package's versions gives it back, with
-- the package's key and name, this version and this metadata, and the row's own key and time: it is at place `i` of the
-- page, if `i` is below the limit and the package has `offset + i` versions that come before it: those with a later date
-- of publication, where any date comes before none, or with the same and a greater key.
pub upsert_package_version-listed :
    (now new_id : ℕ) (p : PackageModel) (version : String) (metadata : PackageVersionMetadata)
    (pagination : Pagination) (i : ℕ) (db : Db) {row : PackageVersionModel} {after : Db}
    → Unique (λ v. v.id) db.versions
    → get_by_name p.name db ≡ some p
    → upsert_package_version now new_id p.id version metadata db ≡ ok (row, after)
    → count_rows
        (λ s.
          version_of p.id s
          && dated_before s.metadata.published_at s.id row.metadata.published_at row.id)
        after.versions
      ≡ pagination.offset + i
    → i < pagination.limit
    → (row.version ≡ version)
      × (row.metadata ≡ metadata)
      × (get_elem? (list_package_versions p.name pagination after).0 i
          ≡ some (version_row p.id p.name version metadata row))
upsert_package_version-listed now new_id p version metadata pagination i db {row} {after} u named
      returned place below =
    Holds-listed p version metadata pagination i db
      (upsert_package_version now new_id p.id version metadata db) {row = row} {after = after} named
      (VersionStored-upsert_package_version p.id version metadata now new_id db u) returned place
      below
