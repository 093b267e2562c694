-- ===== src/Options.antt =====
-- dcc/dcc_options.c: the command line of dcc.
pub mod Table
pub mod Lookup
pub mod Parse
pub mod Help
