-- ===== src/Sessions.antt =====
-- The use cases of a maintenance session.
pub mod Repository
pub mod Current
pub mod Pause
pub mod Start
pub mod Transition
pub mod History
pub mod Steps
pub mod Exclusive
pub mod Opening
pub mod Reachable
pub mod Reading
