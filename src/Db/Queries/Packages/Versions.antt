-- ===== src/Db/Queries/Packages/Versions.antt =====
-- What `upsert_package_version` of app/infrastructure/db/repositories.py leaves of the versions.

use npm_sentinel.Base.{
  ℕ, String, ◌≡◌, refl, ◌∙◌, ◌++◌, inl, inr, true, false, not, ◌&&◌, ◌==◌, none, some, List, [],
  ◌∷◌, arith, Option-cases, str_eq, str_eq_iff, str_eq_refl, if◌then◌else◌,
}
use npm_sentinel.Db.Models.{Db, PackageVersionModel, PackageVersionMetadata}
use npm_sentinel.Db.Table.{
  find_row, update_where, some_row, map_row, or_row-none, find_row-update_where, find_row-append,
  find_row-meets, Unique, Unique-update_where, Unique-append,
}
use npm_sentinel.Db.Session.{fits, fits_int, has_package_id}
use npm_sentinel.Db.Holds.{Holds, Holds-check}
use npm_sentinel.Db.Packages.{has_version, upsert_package_version}

-- The row has what was asked for, and is found; the rows of other versions are as they were, and so are the packages.
abbrev pub VersionStored :
    ℕ → String → PackageVersionMetadata → Db → PackageVersionModel → Db → Type 0
VersionStored package_id version metadata before row after =
    (row.package_id ≡ package_id)
    × (row.version ≡ version)
    × (row.metadata ≡ metadata)
    × (find_row (has_version package_id version) after.versions ≡ some row)
    × ((other_id : ℕ) (other : String)
        → (package_id == other_id && str_eq version other) ≡ false
        → find_row (has_version other_id other) after.versions
          ≡ find_row (has_version other_id other) before.versions)
    × (after.packages ≡ before.packages)
    × Unique (λ v. v.id) after.versions

versions_apart :
    (i j : ℕ) (v w : String) (r : PackageVersionModel)
    → (i == j && str_eq v w) ≡ false
    → has_version j w r ≡ true
    → has_version i v r ≡ false
versions_apart i j v w r apart h =
    ground (arith, str_eq_iff r.version v, str_eq_iff r.version w, str_eq_iff v w)

own_apart :
    (i j : ℕ) (v w : String) (r : PackageVersionModel)
    → (i == j && str_eq v w) ≡ false
    → has_version i v r ≡ true
    → has_version j w r ≡ false
own_apart i j v w r apart h =
    ground (arith, str_eq_iff r.version v, str_eq_iff r.version w, str_eq_iff v w)

module _ (package_id : ℕ) (version : String) (metadata : PackageVersionMetadata) where
  abbrev stored : PackageVersionModel → PackageVersionModel
  stored r = if has_version package_id version r then record r { metadata = metadata } else r

  map_row-stored :
      (j : ℕ) (w : String) (rs : List PackageVersionModel)
      → (package_id == j && str_eq version w) ≡ false
      → map_row stored (find_row (has_version j w) rs) ≡ find_row (has_version j w) rs
  map_row-stored j w rs apart = elim (Option-cases (find_row (has_version j w) rs)) [
    | inl gone ↦ rw gone refl
    | inr (r, found) ↦
        rw
          (
            found,
            versions_apart package_id j version w r apart
                (find_row-meets (has_version j w) {r = r} rs found),
          )
          refl
  ]

  or_row-apart :
      (j : ℕ) (w : String) (rs : List PackageVersionModel) (r : PackageVersionModel)
      → (package_id == j && str_eq version w) ≡ false
      → has_version package_id version r ≡ true
      → find_row (has_version j w) (rs ++ r ∷ []) ≡ find_row (has_version j w) rs
  unfolding find_row
  or_row-apart j w rs r apart own =
      find_row-append (has_version j w) rs (r ∷ [])
      ∙ rw (own_apart package_id j version w r apart own)
          (or_row-none (find_row (has_version j w) rs))

  stored_old :
      (db : Db) (r : PackageVersionModel)
      → Unique (λ v. v.id) db.versions
      → find_row (has_version package_id version) db.versions ≡ some r
      → VersionStored package_id version metadata db
          (record r { metadata = metadata })
          (record db {
            versions =
                update_where
                  (has_version package_id version)
                  (λ v. record v { metadata = metadata })
                  db.versions;
          })
  stored_old db r u found =
      let own = find_row-meets (has_version package_id version) {r = r} db.versions found in
      let updated =
        find_row-update_where (has_version package_id version) (has_version package_id version)
          (λ (v : PackageVersionModel). record v { metadata = metadata }) db.versions (λ a. refl) in
      (
        ground (arith, own),
        ground (arith, own, str_eq_iff r.version version),
        refl,
        rw (updated, found, own) refl,
        λ j w apart.
            find_row-update_where (has_version j w) (has_version package_id version)
              (λ (v : PackageVersionModel). record v { metadata = metadata }) db.versions
              (λ a. refl)
            ∙ map_row-stored j w db.versions apart,
        refl,
        Unique-update_where (λ v. v.id) (has_version package_id version)
            (λ (v : PackageVersionModel). record v { metadata = metadata }) db.versions (λ a. refl)
            u,
      )

  stored_new :
      (db : Db) (r : PackageVersionModel)
      → Unique (λ v. v.id) db.versions
      → find_row (has_version package_id version) db.versions ≡ none
      → (r.package_id ≡ package_id) × (r.version ≡ version) × (r.metadata ≡ metadata)
      → some_row (λ v. v.id == r.id) db.versions ≡ false
      → VersionStored package_id version metadata db r
          (record db { versions = db.versions ++ r ∷ [] })
  unfolding find_row
  stored_new db r u gone (at_package, at_version, given) new =
      let own : has_version package_id version r ≡ true =
        rw (at_package, at_version, str_eq_refl version) (ground arith) in
      (
        at_package,
        at_version,
        given,
        find_row-append (has_version package_id version) db.versions (r ∷ []) ∙ rw (gone, own) refl,
        λ j w apart. or_row-apart j w db.versions r apart own,
        refl,
        Unique-append (λ v. v.id) db.versions r u new,
      )

  pub VersionStored-upsert_package_version :
      (now new_id : ℕ) (db : Db)
      → Unique (λ v. v.id) db.versions
      → Holds
          (VersionStored package_id version metadata db)
          (upsert_package_version now new_id package_id version metadata db)
  unfolding upsert_package_version
  VersionStored-upsert_package_version now new_id db u =
      Holds-check (VersionStored package_id version metadata db)
        (fits 128 version && (fits_int metadata.unpacked_size && fits_int metadata.file_count)) _
        λ _.
          Holds-check (VersionStored package_id version metadata db)
            (some_row (has_package_id package_id) db.packages) _
            λ _. elim (Option-cases (find_row (has_version package_id version) db.versions)) [
              | inl gone ↦
                  rw (gone, upsert_package_version)
                    (Holds-check (VersionStored package_id version metadata db)
                      (not (some_row (λ v. v.id == new_id) db.versions)) _
                      λ new. stored_new db _ u gone (refl, refl, refl) (ground arith))
              | inr (r, found) ↦ rw (found, upsert_package_version) (stored_old db r u found)
            ]
