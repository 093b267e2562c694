-- ===== src/Files.antt =====
-- dcc/dcc_gen.c and dcc/dcc_util.c: the temporary files and the output.
pub mod Os
pub mod Write
pub mod Map
pub mod Cat
pub mod NoLeftovers
pub mod Names
pub mod Messages
pub mod Child
pub mod Open
