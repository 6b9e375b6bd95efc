-- ===== src/Db/Findings.antt =====
-- `replace_findings` of app/infrastructure/db/repositories.py leaves a scan the findings that it is given.
use npm_sentinel.Base.{
  ℕ, zero, suc, ◌+◌, ◌≡◌, refl, ap, false, some, List, [], ◌∷◌, ◌++◌, arith, ◌==◌, all, length,
  get_elem?,
}
use std.Path.{subst}
use mathlib.Core.List.{append-nil}
use npm_sentinel.Db.Models.{Db, FindingModel, FindingCreate}
use npm_sentinel.Db.Table.{select_rows, delete_where}
use npm_sentinel.Db.Holds.{Holds, Holds-check}
use npm_sentinel.Db.Scans.{
  replace_findings, add_findings, of_scan, finding_rows, fits_finding, references_scan,
}

-- The rows are those of the findings, one for each and in their order: the row at place `k` has the key `ids k`, the
-- scan, the time, and each field of the finding at that place.
abbrev pub RowsOf : ℕ → (ℕ → ℕ) → ℕ → List FindingCreate → List FindingModel → Type 0
RowsOf now ids i fs rows =
    (length rows ≡ length fs)
    × ((k : ℕ) (f : FindingCreate)
        → get_elem? fs k ≡ some f
        → get_elem? rows k
          ≡ some (record { id = ids k; scan_result_id = i; finding = f; created_at = now }))

length-finding_rows :
    (now : ℕ) (ids : ℕ → ℕ) (place i : ℕ) (fs : List FindingCreate)
    → length (finding_rows now ids place i fs) ≡ length fs
unfolding finding_rows
length-finding_rows now ids place i [] = refl
length-finding_rows now ids place i (f ∷ fs) = ap suc (length-finding_rows now ids (suc place) i fs)

get_elem-finding_rows :
    (now : ℕ) (ids : ℕ → ℕ) (place i : ℕ) (fs : List FindingCreate) (k : ℕ) (f : FindingCreate)
    → get_elem? fs k ≡ some f
    → get_elem? (finding_rows now ids place i fs) k
      ≡ some (record { id = ids (place + k); scan_result_id = i; finding = f; created_at = now })
unfolding finding_rows
get_elem-finding_rows now ids place i [] k f h = cc
get_elem-finding_rows now ids place i (g ∷ fs) zero f h =
    let same : g ≡ f = ground (arith, h) in
    let row : ℕ → FindingModel =
      λ n. record { id = ids n; scan_result_id = i; finding = f; created_at = now } in
    rw same (ap (λ (n : ℕ). some (row n)) (omega arith))
get_elem-finding_rows now ids place i (g ∷ fs) (suc k) f h =
    let at : suc place + k ≡ place + suc k = omega arith in
    rw (← at) (get_elem-finding_rows now ids (suc place) i fs k f h)

RowsOf-finding_rows :
    (now : ℕ) (ids : ℕ → ℕ) (i : ℕ) (fs : List FindingCreate)
    → RowsOf now ids i fs (finding_rows now ids 0 i fs)
RowsOf-finding_rows now ids i fs = (
  length-finding_rows now ids 0 i fs,
  λ k f h.
      subst
        (λ (n : ℕ).
          get_elem? (finding_rows now ids 0 i fs) k
          ≡ some (record { id = ids n; scan_result_id = i; finding = f; created_at = now }))
        (omega arith) (get_elem-finding_rows now ids 0 i fs k f h),
)

-- Scan results are as they were, the scan has the new findings only, and the other scans have theirs.
abbrev pub Replaced : ℕ → (ℕ → ℕ) → ℕ → List FindingCreate → Db → Unit {0} → Db → Type 0
Replaced now ids i fs before _ after =
    (after.scan_results ≡ before.scan_results)
    × RowsOf now ids i fs (select_rows (of_scan i) after.findings)
    × ((j : ℕ)
        → (i == j) ≡ false
        → select_rows (of_scan j) after.findings ≡ select_rows (of_scan j) before.findings)

select_rows-delete_where :
    (i : ℕ) (rs ss : List FindingModel)
    → select_rows (of_scan i) (delete_where (of_scan i) rs ++ ss) ≡ select_rows (of_scan i) ss
unfolding select_rows delete_where
select_rows-delete_where i [] ss = refl
select_rows-delete_where i (r ∷ rs) ss = ground (arith, select_rows-delete_where i rs ss)

select_rows-finding_rows :
    (now : ℕ) (ids : ℕ → ℕ) (place i : ℕ) (fs : List FindingCreate)
    → select_rows (of_scan i) (finding_rows now ids place i fs) ≡ finding_rows now ids place i fs
unfolding select_rows finding_rows
select_rows-finding_rows now ids place i [] = refl
select_rows-finding_rows now ids place i (f ∷ fs) =
    ground (arith, select_rows-finding_rows now ids (suc place) i fs)

others_kept :
    (i j : ℕ) (rs ss : List FindingModel)
    → (i == j) ≡ false
    → select_rows (of_scan j) (delete_where (of_scan i) rs ++ ss)
      ≡ select_rows (of_scan j) rs ++ select_rows (of_scan j) ss
unfolding select_rows delete_where
others_kept i j [] ss apart = refl
others_kept i j (r ∷ rs) ss apart = ground (arith, others_kept i j rs ss apart)

no_others :
    (now : ℕ) (ids : ℕ → ℕ) (place i j : ℕ) (fs : List FindingCreate)
    → (i == j) ≡ false
    → select_rows (of_scan j) (finding_rows now ids place i fs) ≡ []
unfolding select_rows finding_rows
no_others now ids place i j [] apart = refl
no_others now ids place i j (f ∷ fs) apart =
    ground (arith, no_others now ids (suc place) i j fs apart)

-- If the operation returns, then the scan results are as they were; the scan has as many findings as are given, the one
-- at each place with each field of the finding given at that place, the time, and the key made for it; and every
-- other scan has the findings that it had.
pub Replaced-replace_findings :
    (now : ℕ) (ids : ℕ → ℕ) (i : ℕ) (fs : List FindingCreate) (db : Db)
    → Holds (Replaced now ids i fs db) (replace_findings now ids i fs db)
unfolding replace_findings add_findings
Replaced-replace_findings now ids i fs db =
    Holds-check (Replaced now ids i fs db) (all fits_finding fs) _ λ _.
      Holds-check (Replaced now ids i fs db) (references_scan i fs _) _ λ _. (
        refl,
        rw
            (
              select_rows-delete_where i db.findings (finding_rows now ids 0 i fs),
              select_rows-finding_rows now ids 0 i fs,
            )
            (RowsOf-finding_rows now ids i fs),
        λ j apart.
            rw
              (
                others_kept i j db.findings (finding_rows now ids 0 i fs) apart,
                no_others now ids 0 i j fs apart,
              )
              (append-nil (select_rows (of_scan j) db.findings)),
      )
