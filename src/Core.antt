-- ===== src/Core.antt =====
-- app/core
pub mod Exceptions
