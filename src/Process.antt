-- ===== src/Process.antt =====
-- dcc/dcc_gen.c and dcc/dcc_util.c: the processes that dcc starts for a file, as the sequence of
-- the calls that it makes.
-- How each call ends is up to the environment, which sees all that was done before.
pub mod Events
pub mod File
pub mod Tidy
pub mod Main
