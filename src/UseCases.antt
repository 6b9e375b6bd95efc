-- ===== src/UseCases.antt =====
-- app/application/use_cases
mod Tests
pub mod PackageName
pub mod EnqueueScan
pub mod ScanPackage
pub mod TopPackagesBatch
pub mod MonitorUpdates
pub mod Lists
