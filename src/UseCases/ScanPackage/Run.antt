-- ===== src/UseCases/ScanPackage/Run.antt =====
-- `ScanPackageUseCase.execute` of app/application/use_cases/scan_package.py
use npm_sentinel.Base.{
  ℕ, String, Option, none, some, List, ltb, if◌then◌else◌, count, append, is_empty, strip, prefix,
}
use npm_sentinel.Core.Exceptions.{ExceptionClass, Exception, Result, ok, err, ◌>>=◌}
use npm_sentinel.Base.Int.{ℤ}
use npm_sentinel.Base.Dict.{Dict}
use npm_sentinel.Base.Json.{Json}
use npm_sentinel.Domain.Findings.{Finding}
use npm_sentinel.Db.Models.{Db}
use npm_sentinel.Db.Scans.{mark_scan_failed}
use npm_sentinel.Db.UnitOfWork.{transact}
use npm_sentinel.UseCases.ScanPackage.{
  Ports, Clock, PackageRegistryMetadata, RegistryVersionMetadata, begin_scan, record_versions,
  complete_scan,
}

-- One step after another: what a step leaves in the tables stays, if a later one raises.
unfoldable pub and_then : {A B : Type 0} → Result A × Db → (A → Db → Result B × Db) → Result B × Db
and_then (ok a, db) f = f a db
and_then (err e, db) f = (err e, db)

-- `_safe_error_message`; `class_name` are the names of the classes of exceptions.
unfoldable pub safe_error_message : (ExceptionClass → String) → Exception → String
unfolding strip prefix
safe_error_message class_name e =
    let stripped = strip e.message in
    let message = if is_empty stripped then class_name e.class else stripped in
    if ltb 500 (count message) then append (prefix 500 message) "..." else message

-- The handler: the scan is marked failed if it can be, and the exception is raised again.
unfoldable pub on_failure :
    (ExceptionClass → String) → Clock → ℕ → Result (Unit {0}) × Db → Result (Unit {0}) × Db
on_failure class_name clock scan_result_id (ok _, db) = (ok tt, db)
on_failure class_name clock scan_result_id (err e, db) = (
  err e,
  (transact (mark_scan_failed clock.failed_at scan_result_id (safe_error_message class_name e))
      db).1,
)

module _ {Archive Root : Type 0} (ports : Ports Archive Root) where
  -- The download of a version, and its extraction.
  unfoldable pub fetch_root : RegistryVersionMetadata → Result Root
  fetch_root metadata = do
    archive ← ports.download metadata.tarball_url metadata.integrity
    ports.extract archive

  unfoldable pub fetch_previous_root : Option RegistryVersionMetadata → Result (Option Root)
  fetch_previous_root none = ok none
  fetch_previous_root (some metadata) = do root ← fetch_root metadata; ok (some root)

  abbrev pub scripts_of : Option RegistryVersionMetadata → Option (Dict Json)
  scripts_of none = none
  scripts_of (some metadata) = some metadata.scripts

  abbrev pub size_of : Option RegistryVersionMetadata → Option ℤ
  size_of none = none
  size_of (some metadata) = metadata.unpacked_size

  -- What is done between the second and the third transaction.
  unfoldable pub inspect : PackageRegistryMetadata → Result (List Finding)
  inspect metadata = do
    latest_root ← fetch_root metadata.latest_version
    previous_root ← fetch_previous_root metadata.previous_version
    ports.analyze latest_root metadata.latest_version.scripts metadata.latest_version.unpacked_size
        previous_root (scripts_of metadata.previous_version) (size_of metadata.previous_version)

  -- The body of the `try`, from the fetch of the metadata.
  unfoldable pub scan_steps : Clock → String → ℕ → ℕ → Db → Result (Unit {0}) × Db
  scan_steps clock package_name package_id scan_result_id db =
      and_then (ports.fetch_metadata package_name, db)
        λ metadata db1.
          and_then (transact (record_versions clock package_id scan_result_id metadata) db1)
            λ _ db2.
              and_then (inspect metadata, db2)
                λ findings db3.
                  transact
                    (complete_scan clock package_id scan_result_id metadata.latest_version.version
                      findings)
                    db3

  unfoldable pub execute : (ExceptionClass → String) → Clock → String → Db → Result (Unit {0}) × Db
  execute class_name clock package_name db =
      and_then (transact (begin_scan clock package_name) db) λ keys db1.
        on_failure class_name clock keys.1 (scan_steps clock package_name keys.0 keys.1 db1)
