-- ===== src/Typed.antt =====
-- include/doarr/expr.hpp and include/doarr/import.hpp: the C++ types that wrap expressions.
pub mod Types
pub mod Wrappers
pub mod Terms
pub mod Check
pub mod Literals
pub mod Applied
pub mod Sound
pub mod Reads
pub mod Params
pub mod Imported
