-- ===== src/Go.antt =====
-- What the source uses of Go itself and of its standard library: maps, text, decimal numbers,
-- the stable sort, durations, and functions that return an error.
pub mod Dict
pub mod Exec
pub mod Text
pub mod Decimal
pub mod Sort
pub mod Time
