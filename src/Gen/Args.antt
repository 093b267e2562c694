-- ===== src/Gen/Args.antt =====
-- dcc/dcc_gen.c: the argument vectors of the compiler and the linker, in `arg_buff`.
-- A vector is the list of the entries that are written to the buffer from its start, `none` for
-- the null pointer at the end.
pub mod Bounds
pub mod Position
use doarr.Base.{
  ℕ, ◌+◌, Bytes, codes, length, take, drop, Bool, true, false, Option, none, some, List, [], ◌∷◌,
  ◌++◌, ◌&&◌, map, ltb, leb, if◌then◌else◌,
}
use doarr.Base.Int.{ℤ, pos, ◌+ℤ◌, ◌-ℤ◌}
use doarr.Options.Parse.{CompilerArg, InputFile, Config}

abbrev pub common_opts : List Bytes
common_opts = codes "-shared" ∷ codes "-fPIC" ∷ codes "-fvisibility=hidden" ∷ codes "-O3" ∷ []

-- The literals "-x" "c++-header" stand side by side, and so are one string.
abbrev pub export_finder_opts : List Bytes
export_finder_opts = codes "-E" ∷ codes "-P" ∷ codes "-xc++-header" ∷ []

abbrev pub precompiler_opts : List Bytes
precompiler_opts = codes "-xc++-header" ∷ []

unfoldable pub zmax : ℕ → ℕ → ℕ
zmax a b = if ltb b a then a else b

unfoldable pub max_cxx_args : Config → ℕ
unfolding zmax
max_cxx_args config =
    1
    + 1
    + length common_opts
    + zmax (length export_finder_opts) (length precompiler_opts)
    + (length config.compiler_args + 1)
    + 1

unfoldable pub dcc_gen_required_arg_buff_size : Config → ℕ → ℕ
unfolding max_cxx_args zmax
dcc_gen_required_arg_buff_size config num_files =
    let for_cxx = max_cxx_args config in
    elim config.output [
      | none ↦ for_cxx
      | some _ ↦ if config.compile then zmax for_cxx (2 + num_files + 2 + 1) else for_cxx
    ]

abbrev pub given : Option Bytes → List Bytes
given none = []
given (some a) = a ∷ []

-- The vector that `exec_cxx` executes; `program` is what `main` wrote to arg_buff[0]. `none` is a
-- position behind the end of compiler_args, where the first loop reads what is not there and writes
-- behind the end of the buffer.
unfoldable pub exec_cxx :
    Config
    → Bytes
    → Option Bytes
    → Option Bytes
    → List Bytes
    → InputFile
    → Option (List (Option Bytes))
exec_cxx config program argv1 argv2 specific_opts file =
    let args = map (λ a. a.arg) config.compiler_args in
    if leb file.pos_between_opts (length config.compiler_args)
    then some (
        map some (
          program ∷ given argv1
          ++ given argv2
          ++ common_opts
          ++ specific_opts
          ++ take file.pos_between_opts args
          ++ file.name ∷ drop file.pos_between_opts args)
        ++ none ∷ [])
    else none

unfoldable pub start_precompiler : Config → Bytes → InputFile → Bytes → Option (List (Option Bytes))
start_precompiler config program file out_name =
    exec_cxx config program (some (codes "-o")) (some out_name) precompiler_opts file

unfoldable pub start_preprocessor : Config → Bytes → InputFile → Option (List (Option Bytes))
start_preprocessor config program file = exec_cxx config program none none export_finder_opts file

-- The vector of the run of ld that combines the object files.
unfoldable pub combine_args : Bytes → List Bytes → Bytes → List (Option Bytes)
combine_args ld tmp_output_files tmp_output_combined =
    map some (ld ∷ codes "-r" ∷ tmp_output_files ++ codes "-o" ∷ tmp_output_combined ∷ [])
    ++ none ∷ []

-- The second loop of `build_runtime_args`: what was written so far, and `*pos_between_rt_args`.
pub runtime_loop : List CompilerArg → List Bytes → ℤ → List Bytes × ℤ
unfolding ◌-ℤ◌
runtime_loop [] out p = (out, p)
runtime_loop (a ∷ args) out p = elim a.also_runtime [
  | true ↦ runtime_loop args (out ++ a.arg ∷ []) p
  | false ↦ runtime_loop args out (p -ℤ pos 1)
]

-- The arguments of the runtime compiler, without the null pointer, and the position among them
-- for the file that is compiled at run time.
unfoldable pub build_runtime_args : Config → Bytes → ℕ → List Bytes × ℤ
unfolding runtime_loop ◌+ℤ◌
build_runtime_args config program pos_between_opts =
    runtime_loop config.compiler_args (program ∷ common_opts)
      (pos pos_between_opts +ℤ pos (1 + length common_opts))
