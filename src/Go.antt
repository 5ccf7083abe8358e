-- ===== src/Go.antt =====
-- What the source uses of Go: integers, texts, maps, errors, and statements with effects.
pub mod Int
pub mod Text
pub mod Map
pub mod Result
pub mod Exec
pub mod Holds
pub mod Keeps
