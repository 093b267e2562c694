-- ===== src/Runtime/Execute.antt =====
-- runtime/io.c: the argument vector of `execute_compiler`.
pub mod Command
use mathlib.Core.Option
use doarr.Base.{
  ℕ, ◌-◌, Bytes, codes, Option, none, some, List, [], ◌∷◌, ◌++◌, ◌==◌, map, if◌then◌else◌,
}
use doarr.Base.Int.{to_size_t}
use doarr.Runtime.{GuestFile}

-- The loop that copies the first `k` arguments, and what `in_arg` is left at; `none` is a read
-- behind the end of the array.
pub copy_args : ℕ → List Bytes → Option (List Bytes × List Bytes)
copy_args k [] = if k == 0 then some ([], []) else none
copy_args k (a ∷ args) =
    let rest = Option.map (λ (done, left). (a ∷ done, left)) (copy_args (k - 1) args) in
    if k == 0 then some ([], a ∷ args) else rest

-- All entries of `argv`, `none` for the null pointer; no list is an access out of bounds.
unfoldable pub execute_compiler : Bytes → Bytes → GuestFile → Option (List (Option Bytes))
unfolding copy_args
execute_compiler cxx_file_name so_file_name file =
    elim (copy_args (to_size_t file.pos_between_args) file.compiler_args) [
      | none ↦ none
      | some (done, left) ↦
          some
            (map some (done ++ cxx_file_name ∷ left ++ codes "-o" ∷ so_file_name ∷ []) ++ none ∷ [])
    ]
