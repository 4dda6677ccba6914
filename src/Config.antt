-- ===== src/Config.antt =====
-- pkg/config: the configuration types, the lookup of a setting, the store, and small helpers.
pub mod Spec
pub mod Select
pub mod Level
pub mod Field
pub mod Store
pub mod Workers
pub mod Helper
pub mod Precedence
pub mod Levels
pub mod Reference
pub mod Meets
pub mod Resolved
pub mod EntryOrder
pub mod Groups
pub mod Named
