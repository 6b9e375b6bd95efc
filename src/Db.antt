-- ===== src/Db.antt =====
-- app/infrastructure/db: the tables and the operations of the repository on them.
mod Tests
pub mod Models
pub mod Table
pub mod Select
pub mod Reads
pub mod Session
pub mod Packages
pub mod Scans
pub mod Jobs
pub mod Queries
pub mod Monad
pub mod UnitOfWork
pub mod Calls
pub mod Lifecycle
pub mod Claims
pub mod Holds
pub mod Raises
pub mod Effects
pub mod Findings
