-- ===== src/Db/Claims.antt =====
-- `claim_next_queued_scan` of app/infrastructure/db/repositories.py takes the oldest scan that waits.
use npm_sentinel.Base.{
  ℕ, ◌≡◌, refl, ◌⊎◌, inl, inr, Bool, true, false, ◌&&◌, none, some, arith, Option-cases, ◌<◌, ◌≤◌,
  Bool-cases, ltb,
}
use npm_sentinel.Core.Exceptions.{ok}
use npm_sentinel.Db.Models.{Db, ScanResultModel}
use npm_sentinel.Db.Table.{
  some_row_of_find_row, update_where, some_row, first_by, first_by-found, find_row-update_where,
}
use npm_sentinel.Db.Table.Order.{first_by-none, first_by-least}
use npm_sentinel.Db.Session.{has_scan_id}
use npm_sentinel.Db.Scans.{get_scan, claim_next_queued_scan, claimable, claimed, created_before}
use npm_sentinel.Db.Lifecycle.{UniqueScans}

created_before-asym :
    (a b : ScanResultModel) → created_before a b ≡ true → created_before b a ≡ false
created_before-asym a b h = ground arith

created_before-step :
    (a b c : ScanResultModel)
    → created_before a b ≡ false
    → created_before b c ≡ false
    → created_before a c ≡ false
created_before-step a b c h k = ground arith

-- The claimed row waits, unlocked, and of all that wait it is the one created first, and the one with the
-- least key of those.
abbrev pub Oldest : (ℕ → Bool) → ℕ → Db → ScanResultModel → Type 0
Oldest locked p db r =
    (claimable locked p r ≡ true)
    × (get_scan r.id db ≡ some r)
    × ((i : ℕ) (s : ScanResultModel)
        → get_scan i db ≡ some s
        → claimable locked p s ≡ true
        → (r.created_at < s.created_at) ⊎ ((r.created_at ≡ s.created_at) × (r.id ≤ s.id)))

not_before :
    (s r : ScanResultModel)
    → created_before s r ≡ false
    → (r.created_at < s.created_at) ⊎ ((r.created_at ≡ s.created_at) × (r.id ≤ s.id))
not_before s r h = elim (Bool-cases (ltb r.created_at s.created_at)) [
  | inl later ↦ inl (ground (arith, later))
  | inr not_later ↦ inr (ground (arith, not_later), ground (arith, not_later))
]

first_of_all :
    (locked : ℕ → Bool) (p i : ℕ) (db : Db) (r s : ScanResultModel)
    → some_row (λ t. claimable locked p t && created_before t r) db.scan_results ≡ false
    → get_scan i db ≡ some s
    → claimable locked p s ≡ true
    → (r.created_at < s.created_at) ⊎ ((r.created_at ≡ s.created_at) × (r.id ≤ s.id))
unfolding get_scan
first_of_all locked p i db r s none_before there waits = elim (Bool-cases (created_before s r)) [
  | inl earlier ↦ cc (
    some_row_of_find_row (has_scan_id i) (λ t. claimable locked p t && created_before t r) {r = s}
        db.scan_results there (rw (waits, earlier) refl),
    none_before,
  )
  | inr other ↦ not_before s r other
]

-- The tables after the row with the key is claimed.
abbrev pub with_claimed : ℕ → ℕ → Db → Db
with_claimed now i db = record db {
  scan_results = update_where (has_scan_id i) (claimed now) db.scan_results;
}

-- Where no two scan results have the same key, the operation never raises. It returns none and changes
-- nothing only if no scan of the package waits unlocked; otherwise it returns the oldest of those that
-- wait (the first created, and of those the one with the least key), started anew, and that is the row
-- that the table then has under its key.
pub claim_next_queued_scan-Oldest :
    (locked : ℕ → Bool) (now p : ℕ) (db : Db)
    → UniqueScans db
    → (claim_next_queued_scan locked now p db ≡ ok (none, db)
        × (some_row (claimable locked p) db.scan_results ≡ false))
      ⊎ ((r : ScanResultModel) × Oldest locked p db r
          × (claim_next_queued_scan locked now p db
              ≡ ok (some (claimed now r), with_claimed now r.id db))
          × (get_scan r.id (with_claimed now r.id db) ≡ some (claimed now r)))
unfolding claim_next_queued_scan get_scan
claim_next_queued_scan-Oldest locked now p db u =
    elim (Option-cases (first_by created_before (claimable locked p) db.scan_results)) [
      | inl nothing ↦ inl (
        rw (nothing, claim_next_queued_scan) refl,
        first_by-none created_before (claimable locked p) db.scan_results nothing,
      )
      | inr (b, best) ↦
          let (found, meets) =
            first_by-found (λ r. r.id) created_before (claimable locked p) db.scan_results {r = b} u
              best in
          let least =
            first_by-least created_before created_before-asym created_before-step
              (claimable locked p) db.scan_results {r = b} best in
          inr (
            b,
            (meets, found, λ i s there waits. first_of_all locked p i db b s least there waits),
            rw (best, claim_next_queued_scan) refl,
            rw
                (
                  find_row-update_where (has_scan_id b.id) (has_scan_id b.id) (claimed now)
                      db.scan_results (λ a. refl),
                  found,
                )
                (ground arith),
          )
    ]
