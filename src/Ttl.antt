-- ===== src/Ttl.antt =====
-- pkg/config/ttl_handler.go.
pub mod Annotation
pub mod Expiry
pub mod Event
pub mod Value
pub mod Written
pub mod Removal
pub mod Limits
pub mod Requeued
