-- ===== src/Db/Queries/Packages/Details.antt =====
-- What `get_package_detail` and `list_package_versions` return for the package of a name.
use npm_sentinel.Base.{
  ℕ, String, ◌≡◌, refl, ap, ◌∙◌, inl, inr, Bool, true, false, ◌&&◌, Option, none, some, List, [],
  arith, ltb, Option-cases,
}
use npm_sentinel.Db.Models.{Db, PackageModel, PackageVersionModel, ScanResultModel, FindingModel}
use npm_sentinel.Db.Table.{find_row, some_row, first_by-found, Unique}
use npm_sentinel.Db.Table.Order.{first_by-none, first_by-least}
use npm_sentinel.Db.Select.{count_rows}
use npm_sentinel.Db.Select.Order.{In, Apart-of_Unique}
use npm_sentinel.Db.Select.Joins.{as_list, wanted, count_rows-attach, join-eq-attach}
use npm_sentinel.Db.Select.First.{In-of_find_row}
use npm_sentinel.Db.Select.Listing.{Ranked, Ranked-single}
use npm_sentinel.Db.Session.{has_scan_id}
use npm_sentinel.Db.Packages.{get_by_name}
use npm_sentinel.Db.Reads.{Pagination, PackageDetail, PackageVersionRead, ScanResultRead}
use npm_sentinel.Db.Queries.{started_after, to_scan_result_read}
use npm_sentinel.Db.Queries.Listings.{started_after_asym}
use npm_sentinel.Db.Queries.Windows.{latest_of, started_after_step, latest_scan_subquery-latest_of}
use npm_sentinel.Db.Queries.Packages.{
  of_package, version_of, first_row, read_latest, detail_of, detail_if_any, versions_of,
  get_package_detail, published_after, to_version_read, list_package_versions,
}
use npm_sentinel.Db.Queries.Packages.Recency.{
  newest_first_asym, newest_first_trans, newest_first_ties,
}

-- What is read is the newest scan of the package, or none where it has none.
abbrev pub Newest : Db → PackageModel → Option ScanResultRead → Type 0
Newest db p none = some_row (of_package p.id) db.scan_results ≡ false
Newest db p (some read) =
    (r : ScanResultModel) × In r db.scan_results
    × (r.package_id ≡ p.id)
    × (read ≡ to_scan_result_read (r, p))
    × (some_row (λ s. of_package p.id s && started_after s r) db.scan_results ≡ false)

-- The finding is one of a scan of the package.
abbrev pub is_finding_of : Db → PackageModel → FindingModel → Bool
is_finding_of db p f =
    wanted (λ g. find_row (has_scan_id g.scan_result_id) db.scan_results) (λ x. of_package p.id x.1)
      f

-- What is read of a package, or none where no package has the name.
abbrev pub Described : Db → Option PackageModel → Option PackageDetail → Type 0
Described db none none = Unit
Described db (some p) (some d) =
    (d.id ≡ p.id)
    × (d.name ≡ p.name)
    × (d.last_scanned_at ≡ p.last_scanned_at)
    × (d.latest_scanned_version ≡ p.latest_scanned_version)
    × Newest db p d.latest_scan
    × (d.versions_count ≡ count_rows (version_of p.id) db.versions)
    × (d.findings_count ≡ count_rows (is_finding_of db p) db.findings)
Described db _ _ = ⊥

first_row-as_list : (o : Option ScanResultModel) → first_row (as_list o) ≡ o
first_row-as_list none = refl
first_row-as_list (some r) = refl

module _ (db : Db) (u : Unique (λ r. r.id) db.scan_results) where
  Newest-latest_of : (p : PackageModel) → Newest db p (read_latest p (latest_of false db p.id))
  Newest-latest_of p = elim (Option-cases (latest_of false db p.id)) [
    | inl nothing ↦
        rw nothing (first_by-none started_after (of_package p.id) db.scan_results nothing)
    | inr (r, first) ↦
        let (found, meets) =
          first_by-found (λ s. s.id) started_after (of_package p.id) db.scan_results {r = r} u
            first in
        let least =
          first_by-least started_after started_after_asym started_after_step (of_package p.id)
            db.scan_results {r = r} first in
        rw first (
          r,
          In-of_find_row (λ s. s.id) r.id db.scan_results {m = r} found,
          ground arith,
          refl,
          least,
        )
  ]

  findings-count :
      (p : PackageModel)
      → (detail_of p db).findings_count ≡ count_rows (is_finding_of db p) db.findings
  unfolding detail_of
  findings-count p =
      ap (count_rows (λ x. of_package p.id x.1))
        (join-eq-attach (λ r. r.id) (λ f. f.scan_result_id) db.findings db.scan_results u)
      ∙ count_rows-attach (λ g. find_row (has_scan_id g.scan_result_id) db.scan_results)
          (λ x. of_package p.id x.1) db.findings

  latest-detail_of :
      (p : PackageModel) → (detail_of p db).latest_scan ≡ read_latest p (latest_of false db p.id)
  unfolding detail_of
  latest-detail_of p = ap (read_latest p) (
      ap first_row (latest_scan_subquery-latest_of false p.id db u)
      ∙ first_row-as_list (latest_of false db p.id))

  Described-detail_of : (p : PackageModel) → Described db (some p) (some (detail_of p db))
  unfolding detail_of
  Described-detail_of p =
      (refl, refl, refl, refl, rw (latest-detail_of p) (Newest-latest_of p), refl, findings-count p)

  Described-detail_if_any :
      (found : Option PackageModel) → Described db found (detail_if_any found db)
  Described-detail_if_any none = tt
  Described-detail_if_any (some p) = Described-detail_of p

  -- If scans have different keys: the query reads nothing exactly where no package has the name; otherwise it reads
  -- the package that has it, its newest scan or none where it has no scan, the number of its versions, and the
  -- number of the findings of its scans.
  pub Described-get_package_detail :
      (name : String) → Described db (get_by_name name db) (get_package_detail name db)
  unfolding get_package_detail
  Described-get_package_detail name = Described-detail_if_any (get_by_name name db)

published_after_asym :
    (a b : PackageVersionModel) → published_after a b ≡ true → published_after b a ≡ false
published_after_asym a b h =
    newest_first_asym a.metadata.published_at b.metadata.published_at (ltb b.id a.id)
      (ltb a.id b.id) (λ e. ground arith) h

published_after_trans :
    (a b c : PackageVersionModel)
    → published_after a b ≡ true
    → published_after b c ≡ true
    → published_after a c ≡ true
published_after_trans a b c h k =
    newest_first_trans a.metadata.published_at b.metadata.published_at c.metadata.published_at
      (ltb b.id a.id) (ltb c.id b.id) (ltb c.id a.id) (λ e f. ground arith) h k

published_after_separates :
    (a b : PackageVersionModel)
    → published_after a b ≡ false
    → published_after b a ≡ false
    → a.id ≡ b.id
published_after_separates a b h k =
    let (t, v) =
      newest_first_ties a.metadata.published_at b.metadata.published_at (ltb b.id a.id)
        (ltb a.id b.id) h k in
    ground arith

-- The versions of the package that has the name, or nothing where none has it.
abbrev pub VersionsListed :
    Db → Pagination → Option PackageModel → List PackageVersionRead × ℕ → Type 0
VersionsListed db pagination none (items, total) = (items ≡ []) × (total ≡ 0)
VersionsListed db pagination (some p) (items, total) =
    Ranked published_after (version_of p.id) (λ v. some (to_version_read p v)) pagination.limit
      pagination.offset db.versions (items, total)

module _ (pagination : Pagination) (db : Db) (u : Unique (λ v. v.id) db.versions) where
  VersionsListed-versions_of :
      (found : Option PackageModel)
      → VersionsListed db pagination found (versions_of found pagination db.versions)
  VersionsListed-versions_of none = (refl, refl)
  VersionsListed-versions_of (some p) =
      Ranked-single published_after published_after_asym published_after_trans (version_of p.id)
        (to_version_read p) pagination.limit pagination.offset db.versions
        (Apart-of_Unique published_after (λ v. v.id) published_after_separates db.versions u)

  -- If versions have different keys: where no package has the name, nothing is listed; otherwise the total is the
  -- number of the package's versions, the page is as long as the limit and these allow, and a version stands on the
  -- page at the number of the package's versions that were published after it (those without a date last, then by
  -- the greater key), less the offset, if that place is on the page.
  pub VersionsListed-list_package_versions :
      (name : String)
      → VersionsListed db pagination
          (get_by_name name db)
          (list_package_versions name pagination db)
  unfolding list_package_versions
  VersionsListed-list_package_versions name = VersionsListed-versions_of (get_by_name name db)
