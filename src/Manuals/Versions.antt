-- ===== src/Manuals/Versions.antt =====
-- The versions of a model's manuals, however the operations are interleaved. A task that indexes a
-- manual is in `running` between its two steps, by the manual that it has read.
pub mod Kept
pub mod Tags
pub mod Fresh
pub mod Uploads
pub mod Runs
