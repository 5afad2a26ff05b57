-- ===== src/Scheduler.antt =====
-- internal/scheduler: refreshes of cards, their breaker, and the commits that are fenced by generation.
pub mod Backoff
pub mod Waits
pub mod Manager
pub mod Refresh
pub mod Commits
pub mod Breaker
pub mod Apply
pub mod Reload
pub mod Fence
