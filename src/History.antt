-- ===== src/History.antt =====
-- pkg/config/history_limiter.go.
pub mod Limit
pub mod Cleanup
pub mod Event
pub mod Selection
pub mod Enforcement
pub mod Bounds
pub mod Retained
pub mod Processed
pub mod Again
pub mod Selectors
