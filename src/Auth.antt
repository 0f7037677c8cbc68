-- ===== src/Auth.antt =====
-- packages/auth: local accounts, sessions and the limit on attempts.
pub mod RateLimiter
pub mod RateLimits
pub mod Escalation
pub mod Store
pub mod Policy
pub mod Sessions
pub mod Validity
pub mod Endings
pub mod Lasting
pub mod Cleanup
pub mod Users
pub mod Admins
pub mod Lockout
pub mod Setup
mod Tests
mod LimitTests
