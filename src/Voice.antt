-- ===== src/Voice.antt =====
-- The voice assistant: backend/src/application/use_cases/voice.
pub mod Tools
pub mod Query
pub mod Dispatch
pub mod Route
pub mod Webhook
pub mod Keeps
pub mod Deliveries
pub mod Foreign
pub mod Finding
