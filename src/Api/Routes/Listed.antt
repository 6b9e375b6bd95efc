-- ===== src/Api/Routes/Listed.antt =====
-- What the routes of the listings answer.
use npm_sentinel.Base.{
  ℕ, String, ◌≡◌, refl, sym, ◌∙◌, ◌↔◌, inl, inr, true, ◌==◌, Option, none, some, List, arith, strip,
  Bool-cases,
}
use npm_sentinel.Db.Models.{Db, PackageModel}
use npm_sentinel.Db.Table.{Unique}
use npm_sentinel.Db.Select.{count_rows}
use npm_sentinel.Db.Reads.{PackageVersionRead}
use npm_sentinel.Db.Packages.{get_by_name}
use npm_sentinel.Db.Queries.Packages.{version_of, list_package_versions}
use npm_sentinel.Db.Queries.Packages.Details.{VersionsListed, VersionsListed-list_package_versions}
use npm_sentinel.UseCases.Lists.{list_package_versions_use_case}
use npm_sentinel.Api.Schemas.{responded, http_exception, accepts_limit}
use npm_sentinel.Api.Routes.{found_versions, list_package_versions_route}

-- No package has the name, or the one that has it has no version.
abbrev pub NoVersion : Db → Option PackageModel → Type 0
NoVersion db none = Unit
NoVersion db (some p) = count_rows (version_of p.id) db.versions ≡ 0

VersionsListed-total :
    (db : Db) (limit offset : ℕ) (found : Option PackageModel) (r : List PackageVersionRead × ℕ)
    → VersionsListed db (record { limit = limit; offset = offset }) found r
    → (r.1 ≡ 0) ↔ NoVersion db found
VersionsListed-total db limit offset none r h = (λ e. tt, λ t. h.1)
VersionsListed-total db limit offset (some p) r h = (λ e. sym h.0 ∙ e, λ e. h.0 ∙ e)

responded-ne-exception :
    {A : Type 0} {code other : ℕ} {a : A} {detail : String}
    → responded code a ≡ http_exception other detail
    → ⊥
responded-ne-exception h = cc h

found_versions_iff :
    (limit offset : ℕ) (r : List PackageVersionRead × ℕ)
    → (found_versions limit offset r ≡ http_exception 404 "package not found") ↔ (r.1 ≡ 0)
found_versions_iff limit offset (items, total) = elim (Bool-cases (total == 0)) [
  | inl none_there ↦ rw none_there (λ h. ground arith, λ e. refl)
  | inr some_there ↦
      rw some_there (λ h. absurd (responded-ne-exception h), λ e. absurd (ground arith))
]

-- If versions have different keys and the limit is one that the route accepts, then it answers 404, "package not found",
-- exactly where no package has the name or the package that has it has no version.
pub list_package_versions_route-not_found_iff :
    (package_name : String) (limit offset : ℕ) (db : Db)
    → Unique (λ v. v.id) db.versions
    → accepts_limit limit ≡ true
    → (list_package_versions_route package_name limit offset db
        ≡ http_exception 404 "package not found")
      ↔ NoVersion db (get_by_name (strip package_name) db)
unfolding list_package_versions_route list_package_versions_use_case
list_package_versions_route-not_found_iff package_name limit offset db u accepted =
    let (a, b) =
      found_versions_iff limit offset (
        list_package_versions (strip package_name) (record { limit = limit; offset = offset })
          db) in
    let (c, d) =
      VersionsListed-total db limit offset (get_by_name (strip package_name) db)
        (list_package_versions (strip package_name) (record { limit = limit; offset = offset }) db)
        (VersionsListed-list_package_versions (record { limit = limit; offset = offset }) db u
          (strip package_name)) in
    rw accepted (λ h. c (a h), λ n. b (d n))
