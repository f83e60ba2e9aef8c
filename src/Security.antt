-- ===== src/Security.antt =====
-- Who may call the API, and how often: backend/src/infrastructure/security,
-- backend/src/domain/services/token_service.py and backend/src/application/use_cases/auth.
pub mod RateLimiter
pub mod Blacklist
pub mod Tokens
pub mod Auth
pub mod Signature
