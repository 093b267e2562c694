-- ===== src/Tests.antt =====
-- Runs of the definitions, and the theorems at concrete inputs.
mod OptionsTests
mod ScanTests
mod GenTests
mod RuntimeTests
mod FilesTests
mod ExprTests
mod CallTests
mod ProcessTests
mod FindTests
mod ProgramTests
mod TypedTests
