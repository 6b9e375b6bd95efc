-- ===== src/Db/Queries/Listings/Findings.antt =====
-- What `list_findings` of app/infrastructure/db/repositories.py returns, without its joins and its sort.
use mathlib.Core.Path.{fun_ext}
use std.Path.{subst}
use npm_sentinel.Base.{◌≡◌, refl, Bool, true, false, ◌&&◌, Option, arith}
use npm_sentinel.Db.Models.{Db, PackageModel, ScanResultModel, FindingModel}
use npm_sentinel.Db.Table.{find_row, Unique}
use npm_sentinel.Db.Select.Order.{Apart-of_Unique}
use npm_sentinel.Db.Select.Joins.{
  attach, wanted, read, join-eq-attach, Unique-attach, and_attached, find_row-attach,
}
use npm_sentinel.Db.Select.Listing.{Ranked, Ranked-page}
use npm_sentinel.Db.Session.{has_scan_id}
use npm_sentinel.Db.Reads.{Pagination, FindingFilters, FindingRead}
use npm_sentinel.Db.Queries.{created_after, to_finding_read, finding_condition, list_findings}
use npm_sentinel.Db.Queries.Listings.{
  wants, wants_like, newer, package_of, if_given-wants, if_given-like, and_rotate,
}

-- The scan of a finding, with its package.
abbrev pub scan_of : Db → FindingModel → Option (ScanResultModel × PackageModel)
scan_of db f =
    and_attached (λ r. r.id) (package_of db)
      (find_row (has_scan_id f.scan_result_id) db.scan_results)

-- The finding is what each of the three filters asks for.
abbrev pub finding_wanted : FindingFilters → FindingModel × (ScanResultModel × PackageModel) → Bool
finding_wanted filters (f, (r, p)) =
    wants_like filters.package_name p.name
    && (wants filters.severity f.finding.severity
        && wants filters.finding_type f.finding.finding_type)

-- What is read of a finding, with its scan and package.
abbrev pub finding_row : FindingModel × (ScanResultModel × PackageModel) → FindingRead
finding_row (f, (r, p)) = record {
  id = f.id;
  scan_result_id = f.scan_result_id;
  package_id = r.package_id;
  package_name = p.name;
  finding = f.finding;
  created_at = f.created_at;
}

to_finding_read-eq :
    (x : FindingModel × (ScanResultModel × PackageModel)) → to_finding_read x ≡ finding_row x
unfolding to_finding_read
to_finding_read-eq (f, (r, p)) = refl

finding_newer : (a b : FindingModel) → created_after a b ≡ newer a.created_at a.id b.created_at b.id
finding_newer a b = ground arith

created_after_asym : (a b : FindingModel) → created_after a b ≡ true → created_after b a ≡ false
created_after_asym a b h = ground arith

created_after_trans :
    (a b c : FindingModel)
    → created_after a b ≡ true
    → created_after b c ≡ true
    → created_after a c ≡ true
created_after_trans a b c h k = ground arith

created_after_separates :
    (a b : FindingModel) → created_after a b ≡ false → created_after b a ≡ false → a.id ≡ b.id
created_after_separates a b h k = ground arith

finding_condition-eq :
    (filters : FindingFilters) (x : FindingModel × (ScanResultModel × PackageModel))
    → finding_condition filters x ≡ finding_wanted filters x
unfolding finding_condition
finding_condition-eq filters (f, (r, p)) =
    rw
      (
        if_given-wants filters.severity f.finding.severity,
        if_given-wants filters.finding_type f.finding.finding_type,
        if_given-like filters.package_name p.name,
      )
      (and_rotate (wants filters.severity f.finding.severity)
        (wants filters.finding_type f.finding.finding_type)
        (wants_like filters.package_name p.name))

findings_by_query :
    (filters : FindingFilters) (pagination : Pagination) (db : Db)
    → Unique (λ p. p.id) db.packages
    → Unique (λ r. r.id) db.scan_results
    → Unique (λ f. f.id) db.findings
    → Ranked created_after
        (wanted (scan_of db) (finding_wanted filters))
        (read (scan_of db) to_finding_read)
        pagination.limit
        pagination.offset
        db.findings
        (list_findings filters pagination db)
unfolding list_findings
findings_by_query filters pagination db u v w =
    rw
      (
        join-eq-attach (λ p. p.id) (λ r. r.package_id) db.scan_results db.packages u,
        join-eq-attach (λ x. x.0.id) (λ f. f.scan_result_id) db.findings
            (attach (package_of db) db.scan_results)
            (Unique-attach (λ r. r.id) (package_of db) db.scan_results v),
        fun_ext (λ (f : FindingModel).
            find_row-attach (λ r. r.id) (package_of db) f.scan_result_id db.scan_results v),
        fun_ext (finding_condition-eq filters),
      )
      (Ranked-page created_after created_after_asym created_after_trans (scan_of db)
        (finding_wanted filters) to_finding_read pagination.limit pagination.offset db.findings
        (Apart-of_Unique created_after (λ f. f.id) created_after_separates db.findings w))

-- If packages, scans and findings each have different keys: the total is the number of findings that have a scan
-- with a package and are what the filters ask for; the page is as long as the limit and these allow; and such a
-- finding stands on the page, each field as it is stored and with its scan and package, at the number of such findings that were created after it,
-- or at the same time with a greater key, less the offset, if that place is on the page.
pub list_findings-Ranked :
    (filters : FindingFilters) (pagination : Pagination) (db : Db)
    → Unique (λ p. p.id) db.packages
    → Unique (λ r. r.id) db.scan_results
    → Unique (λ f. f.id) db.findings
    → Ranked
        (λ a b. newer a.created_at a.id b.created_at b.id)
        (wanted (scan_of db) (finding_wanted filters))
        (read (scan_of db) finding_row)
        pagination.limit
        pagination.offset
        db.findings
        (list_findings filters pagination db)
list_findings-Ranked filters pagination db u v w =
    subst
      (λ (view : FindingModel × (ScanResultModel × PackageModel) → FindingRead).
        Ranked (λ a b. newer a.created_at a.id b.created_at b.id)
          (wanted (scan_of db) (finding_wanted filters)) (read (scan_of db) view) pagination.limit
          pagination.offset db.findings (list_findings filters pagination db))
      (fun_ext to_finding_read-eq)
      (subst
        (λ (before : FindingModel → FindingModel → Bool).
          Ranked before (wanted (scan_of db) (finding_wanted filters))
            (read (scan_of db) to_finding_read) pagination.limit pagination.offset db.findings
            (list_findings filters pagination db))
        (fun_ext (λ (a : FindingModel). fun_ext (finding_newer a)))
        (findings_by_query filters pagination db u v w))
