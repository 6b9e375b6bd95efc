-- ===== src/Api.antt =====
-- app/api: the routes of the HTTP interface.
mod Tests
pub mod Schemas
pub mod Routes
