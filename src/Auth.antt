-- ===== src/Auth.antt =====
-- internal/auth/service.go: the lockout of sources, sessions, and windows of privilege.
pub mod Lockout
pub mod Tracking
pub mod Sessions
pub mod Access
pub mod Barred
