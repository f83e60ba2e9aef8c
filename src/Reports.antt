-- ===== src/Reports.antt =====
-- The report of a session: backend/src/application/use_cases/reports and
-- backend/src/infrastructure/persistence/in_memory/report_repository.py.
pub mod Builder
pub mod Diff
pub mod Live
pub mod Finalize
pub mod Read
