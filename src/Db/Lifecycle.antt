-- ===== src/Db/Lifecycle.antt =====
-- How the rows of scan results and of queue jobs change under any sequence of calls.
pub mod Scans
pub mod Runs
use npm_sentinel.Base.{
  ℕ, ◌≤◌, ◌≡◌, refl, ap, ◌∙◌, inl, inr, Bool, true, false, some, arith, ◌==◌, if◌then◌else◌,
  Bool-cases,
}
use npm_sentinel.Core.Exceptions.{Result, ok, err, ◌>>◌}
use npm_sentinel.Db.Models.{Db, ScanStatus, ScanResultModel}
use npm_sentinel.Db.Table.{
  update_where, find_row-update_where, map_row, Unique, Unique-update_where,
}
use npm_sentinel.Db.Session.{Repo, has_scan_id, check}
use npm_sentinel.Db.Scans.{get_scan}
use npm_sentinel.Db.UnitOfWork.{commit_or_rollback, transact}

abbrev pub is_final : ScanStatus → Bool
is_final ScanStatus.completed = true
is_final ScanStatus.failed = true
is_final _ = false

abbrev pub rank : ScanStatus → ℕ
rank ScanStatus.queued = 0
rank ScanStatus.running = 1
rank ScanStatus.completed = 2
rank ScanStatus.failed = 2

-- `s` is what `r` may have become: the same scan of the same package, no nearer to the queue, and exactly
-- the same row if `r` was completed or failed.
pub record Evolves (r s : ScanResultModel) : Type 0 where
  pub same_id : s.id ≡ r.id
  pub same_package : s.package_id ≡ r.package_id
  pub same_creation : s.created_at ≡ r.created_at
  pub forward : rank r.status ≤ rank s.status
  pub final : is_final r.status ≡ true → s ≡ r

pub Evolves-refl : (r : ScanResultModel) → Evolves r r
Evolves-refl r = record {
  same_id = refl;
  same_package = refl;
  same_creation = refl;
  forward = omega arith;
  final = λ h. refl;
}

pub Evolves-trans : (r s t : ScanResultModel) → Evolves r s → Evolves s t → Evolves r t
Evolves-trans r s t h k = record {
  same_id = cc (h.same_id, k.same_id);
  same_package = cc (h.same_package, k.same_package);
  same_creation = cc (h.same_creation, k.same_creation);
  forward = omega (arith, h.forward, k.forward);
  final = λ f. let e = h.final f in k.final (rw e f) ∙ e;
}

-- The scan with key `i` is still there, as what it may have become.
abbrev pub Kept : ℕ → ScanResultModel → Db → Type 0
Kept i r db = (s : ScanResultModel) × (get_scan i db ≡ some s) × Evolves r s

-- The primary key of scan results.
abbrev pub UniqueScans : Db → Type 0
UniqueScans db = Unique (λ r. r.id) db.scan_results

abbrev pub Keeps : Db → Db → Type 0
Keeps before after =
    UniqueScans after
    × ((i : ℕ) (r : ScanResultModel) → get_scan i before ≡ some r → Kept i r after)

pub Keeps-refl : (db : Db) → UniqueScans db → Keeps db db
Keeps-refl db u = (u, λ i r h. (r, h, Evolves-refl r))

-- An update of scan results that lets each row evolve.
module _ (q : ScanResultModel → Bool) (f : ScanResultModel → ScanResultModel) (db : Db)
    (u : UniqueScans db) (same_id : (a : ScanResultModel) → (f a).id ≡ a.id) where
  abbrev updated : Db
  updated = record db { scan_results = update_where q f db.scan_results }

  found : (i : ℕ) → get_scan i updated ≡ map_row (λ r. if q r then f r else r) (get_scan i db)
  unfolding get_scan
  found i =
      find_row-update_where (has_scan_id i) q f db.scan_results
        (λ a. ap (λ (n : ℕ). n == i) (same_id a))

  pub Keeps-update_where :
      ((i : ℕ) (r : ScanResultModel) → get_scan i db ≡ some r → q r ≡ true → Evolves r (f r))
      → Keeps db updated
  Keeps-update_where evolves = (
    Unique-update_where (λ r. r.id) q f db.scan_results same_id u,
    λ i r h. elim (Bool-cases (q r)) [
      | inl hit ↦ (f r, rw (found i, h, hit), evolves i r h hit)
      | inr miss ↦ (r, rw (found i, h, miss), Evolves-refl r)
    ],
  )

pub Keeps-trans : (a b c : Db) → Keeps a b → Keeps b c → Keeps a c
Keeps-trans a b c (u, h) (v, k) = (
  v,
  λ i r there.
      let (s, kept, e) = h i r there in
      let (t, still, f) = k i s kept in (t, still, Evolves-trans r s t e f),
)

-- A call that leaves the scan results alone.
pub Keeps-of_same :
    (before after : Db)
    → UniqueScans before
    → after.scan_results ≡ before.scan_results
    → Keeps before after
unfolding get_scan
Keeps-of_same before after u same = (rw same u, λ i r there. (r, rw same there, Evolves-refl r))

-- What an operation that returns has done.
abbrev pub After : {A : Type 0} → Db → Result (A × Db) → Type 0
After before (ok (a, after)) = Keeps before after
After before (err e) = Unit

pub After-check :
    {A : Type 0} (before : Db) (b : Bool) (r : Result (A × Db))
    → (b ≡ true → After before r)
    → After before (check b >> r)
After-check before true r h = h refl
After-check before false r h = tt

Keeps-commit :
    {A : Type 0} (before : Db) (r : Result (A × Db))
    → UniqueScans before
    → After before r
    → Keeps before (commit_or_rollback before r).1
unfolding commit_or_rollback
Keeps-commit before (ok (a, after)) u h = h
Keeps-commit before (err e) u h = Keeps-refl before u

pub Keeps-transact :
    {A : Type 0} (m : Repo A) (before : Db)
    → UniqueScans before
    → After before (m before)
    → Keeps before (transact m before).1
unfolding transact commit_or_rollback
Keeps-transact m before u h = Keeps-commit before (m before) u h
