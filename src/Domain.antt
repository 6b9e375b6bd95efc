-- ===== src/Domain.antt =====
-- app/domain
pub mod Enums
pub mod Findings
pub mod Scoring
