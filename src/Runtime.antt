-- ===== src/Runtime.antt =====
-- runtime/io.c and its headers: what a doarr program does with the code that dcc prepared.
pub mod Execute
pub mod TmpPath
pub mod System
pub mod Remover
pub mod Extract
pub mod Load
use doarr.Base.{Bytes, List}
use doarr.Base.Int.{ℤ}

-- struct guest_file: the bytes from `gch_data` to `gch_data_end`, the array `compiler_args`, whose
-- length is `num_compiler_args`, and the path of the extracted header, empty until it is there.
pub record GuestFile : Type 0 where
  pub gch_data : Bytes
  pub compiler_args : List Bytes
  pub pos_between_args : ℤ
  pub gch_tmp_path : Bytes
