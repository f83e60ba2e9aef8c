-- ===== src/Events.antt =====
-- The event log of a session and what appends to it.
pub mod Store
pub mod Append
pub mod Post
