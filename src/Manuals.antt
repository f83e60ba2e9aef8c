-- ===== src/Manuals.antt =====
-- The manuals that the assistant searches: backend/src/application/use_cases/manuals, the chunker of
-- backend/src/infrastructure/services, and the in-memory repositories of manuals and chunks.
pub mod Chunker
pub mod Repository
pub mod Lifecycle
pub mod Index
pub mod Versions
