-- ===== src/Program.antt =====
-- dcc/dcc.c: main, which puts the parts of dcc together.
pub mod Variables
pub mod Prepare
pub mod Run
pub mod Removed
pub mod Ready
pub mod Checked
pub mod Ends
