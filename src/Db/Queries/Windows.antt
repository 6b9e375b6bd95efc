-- ===== src/Db/Queries/Windows.antt =====
-- `_latest_scan_subquery` has, of each package, its newest scan alone.
use npm_sentinel.Base.{
  ℕ, suc, ◌≡◌, ap, ◌∙◌, inl, inr, Bool, false, not, ◌&&◌, ◌||◌, Option, List, arith, ◌==◌,
  Bool-cases,
}
use mathlib.Core.Path.{fun_ext}
use npm_sentinel.Db.Models.{Db, ScanResultModel}
use npm_sentinel.Db.Table.{select_rows, first_by, Unique}
use npm_sentinel.Db.Select.{count_rows}
use npm_sentinel.Db.Select.Joins.{as_list, count_rows-select_rows}
use npm_sentinel.Db.Select.First.{
  select_rows-select_rows, select_rows-congr, select_rows-leads, leads,
}
use npm_sentinel.Db.Queries.{started_after, is_completed, row_number, latest_scan_subquery}
use npm_sentinel.Db.Queries.Listings.{started_after_asym, started_after_separates}

abbrev of_package : ℕ → ScanResultModel → Bool
of_package package_id r = r.package_id == package_id

-- The scans that are ranked.
abbrev in_ranking : Bool → ScanResultModel → Bool
in_ranking completed_only r = not completed_only || is_completed r.status

abbrev ranking : Bool → Db → List ScanResultModel
ranking completed_only db = select_rows (in_ranking completed_only) db.scan_results

abbrev pub may_be_latest : Bool → ℕ → ScanResultModel → Bool
may_be_latest completed_only package_id r =
    (not completed_only || is_completed r.status) && r.package_id == package_id

-- The newest scan of the package, or the newest that is completed.
abbrev pub latest_of : Bool → Db → ℕ → Option ScanResultModel
latest_of completed_only db package_id =
    first_by started_after (may_be_latest completed_only package_id) db.scan_results

pub started_after_step :
    (a b c : ScanResultModel)
    → started_after a b ≡ false
    → started_after b c ≡ false
    → started_after a c ≡ false
started_after_step a b c h k = ground arith

and_regroup : (a b c : Bool) → (a && (b && c)) ≡ ((a && b) && c)
and_regroup a b c = ground arith

module _ (completed_only : Bool) (package_id : ℕ) (rows : List ScanResultModel) where
  regroup :
      (s r : ScanResultModel)
      → r.package_id ≡ package_id
      → (in_ranking completed_only s && (s.package_id == r.package_id && started_after s r))
        ≡ (may_be_latest completed_only package_id s && started_after s r)
  regroup s r e =
      ap (λ (i : ℕ). in_ranking completed_only s && (s.package_id == i && started_after s r)) e
      ∙ and_regroup (in_ranking completed_only s) (s.package_id == package_id) (started_after s r)

  same_partition :
      (r : ScanResultModel)
      → r.package_id ≡ package_id
      → row_number (select_rows (in_ranking completed_only) rows) r
        ≡ suc
            (count_rows (λ s. may_be_latest completed_only package_id s && started_after s r) rows)
  unfolding row_number
  same_partition r e = ap suc (
      count_rows-select_rows (λ s. s.package_id == r.package_id && started_after s r)
        (in_ranking completed_only) rows
      ∙ ap (λ (q : ScanResultModel → Bool). count_rows q rows)
          (fun_ext (λ (s : ScanResultModel). regroup s r e)))

  in_window :
      (r : ScanResultModel)
      → (in_ranking completed_only r
          && (row_number (select_rows (in_ranking completed_only) rows) r == 1
              && of_package package_id r))
        ≡ leads started_after (may_be_latest completed_only package_id) rows r
  in_window r = elim (Bool-cases (r.package_id == package_id)) [
    | inl same ↦
        let e : r.package_id ≡ package_id = ground arith in ground (arith, same_partition r e)
    | inr other ↦ ground arith
  ]

-- The rows of the window query that belong to a package.
pub latest_scan_subquery-latest_of :
    (completed_only : Bool) (package_id : ℕ) (db : Db)
    → Unique (λ r. r.id) db.scan_results
    → select_rows (of_package package_id) (latest_scan_subquery completed_only db)
      ≡ as_list (latest_of completed_only db package_id)
unfolding latest_scan_subquery
latest_scan_subquery-latest_of completed_only package_id db u =
    select_rows-select_rows (of_package package_id)
      (λ r. row_number (ranking completed_only db) r == 1) (ranking completed_only db)
    ∙ (select_rows-select_rows
          (λ r. row_number (ranking completed_only db) r == 1 && of_package package_id r)
          (in_ranking completed_only) db.scan_results
        ∙ (select_rows-congr _
              (leads started_after (may_be_latest completed_only package_id) db.scan_results)
              db.scan_results (λ r there. in_window completed_only package_id db.scan_results r)
            ∙ select_rows-leads (λ r. r.id) started_after started_after_asym started_after_step
                started_after_separates (may_be_latest completed_only package_id) db.scan_results
                u))
