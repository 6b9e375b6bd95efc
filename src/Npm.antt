-- ===== src/Npm.antt =====
-- app/infrastructure/npm: the registry's client and the downloader of archives.
mod Tests
pub mod Registry
pub mod Tarball
