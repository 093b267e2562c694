-- ===== src/Gen.antt =====
-- dcc/dcc_gen.c: the commands that dcc runs and the C code that it writes.
pub mod Args
pub mod Literal
pub mod Escape
pub mod Dump
pub mod Source
pub mod Part2
