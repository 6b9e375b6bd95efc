-- ===== src/Db/Session.antt =====
-- What the operations of app/infrastructure/db/repositories.py share: their type, the values that the
-- columns accept, and the conditions on a row's key. What the database supplies is an argument of an
-- operation: the time, the key of a new row, the rows that other transactions hold locked.
-- A key that a row has already is refused, as is a key of another table that no row there has.
use npm_sentinel.Base.{ℕ, String, Bool, true, not, Option, none, some, ltb, leb, ◌==◌, count}
use npm_sentinel.Core.Exceptions.{database_error, Result, raise_if}
use npm_sentinel.Base.Int.{ℤ, pos, negsuc}
use npm_sentinel.Db.Models.{Db, PackageModel, ScanResultModel}
use Prim.Native.Nat.{◌^◌}

-- An operation in a session: it raises, or it returns with the tables as it leaves them.
abbrev pub Repo : Type 0 → Type 0
Repo A = Db → Result (A × Db)

abbrev pub fits : ℕ → String → Bool
fits n s = leb (count s) n

abbrev pub fits_opt : ℕ → Option String → Bool
fits_opt n none = true
fits_opt n (some s) = fits n s

-- A signed integer of 32 bits.
abbrev pub fits_int : Option ℤ → Bool
fits_int none = true
fits_int (some (pos n)) = ltb n (2 ^ 31)
fits_int (some (negsuc n)) = ltb n (2 ^ 31)

-- A value is refused by the database.
abbrev pub check : Bool → Result (Unit {0})
check b = raise_if (not b) database_error "refused by the database"

abbrev pub has_package_id : ℕ → PackageModel → Bool
has_package_id i r = r.id == i

abbrev pub has_scan_id : ℕ → ScanResultModel → Bool
has_scan_id i r = r.id == i
