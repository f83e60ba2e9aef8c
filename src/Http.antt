-- ===== src/Http.antt =====
-- What the HTTP interface answers.
pub mod Errors
pub mod Statuses
