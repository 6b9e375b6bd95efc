-- ===== src/Scanner.antt =====
-- app/infrastructure/scanner
mod Tests
pub mod InstallHooks
pub mod Size
pub mod Files
pub mod Binary
pub mod Obfuscation
pub mod Commands
pub mod PackageJson
pub mod Analyzer
pub mod Paths
pub mod Extractor
