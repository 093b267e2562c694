-- ===== src/Gen/Args/Bounds.antt =====
-- dcc/dcc_gen.c: no argument vector is longer than `arg_buff`.
use doarr.Base.{
  ℕ, ◌+◌, ◌≤◌, Bytes, length, true, Option, none, some, List, [], ◌∷◌, ◌++◌, ◌≡◌, map, arith,
  length-append, length-take, length-drop, refl, ap, suc, leb, take, drop,
}
use doarr.Base.Int.{ℤ, pos, ◌+ℤ◌, ◌-ℤ◌}
use doarr.Options.Parse.{CompilerArg, InputFile, Config}
use doarr.Gen.Args.{
  common_opts, zmax, max_cxx_args, dcc_gen_required_arg_buff_size, given, exec_cxx,
  start_precompiler, start_preprocessor, combine_args, runtime_loop, build_runtime_args,
  precompiler_opts, export_finder_opts,
}

length-map {ℓ κ} :
    {A : Type ℓ} {B : Type κ} (f : A → B) (xs : List A) → length (map f xs) ≡ length xs
length-map f [] = refl
length-map f (x ∷ xs) = ap suc (length-map f xs)

length-given : (o : Option Bytes) → length (given o) ≤ 1
length-given none = omega arith
length-given (some a) = omega arith

max_cxx_args-eq : (config : Config) → max_cxx_args config ≡ length config.compiler_args + 11
unfolding max_cxx_args
max_cxx_args-eq config = omega arith

cxx-le-required :
    (config : Config) (num_files : ℕ)
    → max_cxx_args config ≤ dcc_gen_required_arg_buff_size config num_files
unfolding dcc_gen_required_arg_buff_size
cxx-le-required config num_files = ground arith

-- A vector is made, and it has room for so many entries.
abbrev pub FitsIn : ℕ → Option (List (Option Bytes)) → Type 0
FitsIn size made = (args : List (Option Bytes)) × (made ≡ some args) × (length args ≤ size)

exec_cxx-FitsIn :
    (config : Config) (program : Bytes) (argv1 argv2 : Option Bytes) (opts : List Bytes)
    (file : InputFile)
    → file.pos_between_opts ≤ length config.compiler_args
    → FitsIn
        (length (given argv1)
          + length (given argv2)
          + length opts
          + length config.compiler_args
          + 7)
        (exec_cxx config program argv1 argv2 opts file)
unfolding exec_cxx
exec_cxx-FitsIn config program argv1 argv2 opts file h =
    let inside : leb file.pos_between_opts (length config.compiler_args) ≡ true = ground arith in
    let args = map (λ a. a.arg) config.compiler_args in
    (
      map some (
            program ∷ given argv1
            ++ given argv2
            ++ common_opts
            ++ opts
            ++ take file.pos_between_opts args
            ++ file.name ∷ drop file.pos_between_opts args)
          ++ none ∷ [],
      rw inside refl,
      simp (length-append, length-map, length-take, length-drop) (omega arith),
    )

FitsIn-le : (m n : ℕ) (made : Option (List (Option Bytes))) → m ≤ n → FitsIn m made → FitsIn n made
FitsIn-le m n made h (args, e, l) = (args, e, omega arith)

length-runtime_loop :
    (args : List CompilerArg) (out : List Bytes) (p : ℤ)
    → length (runtime_loop args out p).0 ≤ length out + length args
unfolding runtime_loop
length-runtime_loop [] out p = omega arith
length-runtime_loop (a ∷ args) out p = ground (
  arith,
  length-append out (a.arg ∷ []),
  length-runtime_loop args (out ++ a.arg ∷ []) p,
  length-runtime_loop args out (p -ℤ pos 1),
)

-- For an input file whose position is within the compiler arguments, both runs of the C++ compiler, for
-- precompilation and for preprocessing, and the arguments kept for the runtime write at most as many
-- entries to `arg_buff` as `main` allocates for it, the null pointer included.
pub cxx_args_fit :
    (config : Config) (num_files : ℕ) (program out_name : Bytes) (file : InputFile)
    → file.pos_between_opts ≤ length config.compiler_args
    → FitsIn
        (dcc_gen_required_arg_buff_size config num_files)
        (start_precompiler config program file out_name)
      × FitsIn
          (dcc_gen_required_arg_buff_size config num_files)
          (start_preprocessor config program file)
      × (length (build_runtime_args config program file.pos_between_opts).0 + 1
          ≤ dcc_gen_required_arg_buff_size config num_files)
unfolding start_precompiler start_preprocessor build_runtime_args
cxx_args_fit config num_files program out_name file h =
    let required = cxx-le-required config num_files in
    let size = max_cxx_args-eq config in
    (
      FitsIn-le _ _ _ (omega (arith, required, size))
          (exec_cxx-FitsIn config program _ _ precompiler_opts file h),
      FitsIn-le _ _ _ (omega (arith, required, size))
          (exec_cxx-FitsIn config program none none export_finder_opts file h),
      omega (
        arith,
        required,
        size,
        length-runtime_loop config.compiler_args (program ∷ common_opts)
            (pos file.pos_between_opts +ℤ pos 5),
      ),
    )

-- The run of ld that combines the object files of `-c` with `-o` writes at most as many entries
-- to `arg_buff` as are allocated.
pub combine_args_fit :
    (config : Config) (ld combined output : Bytes) (files : List Bytes)
    → config.compile ≡ true
    → config.output ≡ some output
    → length (combine_args ld files combined) ≤ dcc_gen_required_arg_buff_size config (length files)
unfolding combine_args dcc_gen_required_arg_buff_size
combine_args_fit config ld combined output files c o =
    rw (o, c) (simp (length-append, length-map) (unfold zmax in ground arith))
