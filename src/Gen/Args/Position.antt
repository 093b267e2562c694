-- ===== src/Gen/Args/Position.antt =====
-- dcc/dcc_gen.c: `build_runtime_args` and the position for the file that is compiled at run time.
use doarr.Base.{
  ℕ, ◌+◌, ◌-◌, ◌≤◌, ◌<◌, suc, zero, Bytes, length, take, drop, List, [], ◌∷◌, ◌++◌, ◌≡◌, ◌↔◌, arith,
  ◌∙◌, append_assoc, append-nil, if◌then◌else◌,
}
use doarr.Base.Int.{ℤ, pos, negsuc, ◌-ℤ◌}
use doarr.Options.Parse.{CompilerArg, Config}
use doarr.Gen.Args.{common_opts, runtime_loop, build_runtime_args}

-- The arguments that are also for the runtime compiler.
abbrev pub runtime_words : List CompilerArg → List Bytes
runtime_words [] = []
runtime_words (a ∷ args) = if a.also_runtime then a.arg ∷ runtime_words args else runtime_words args

-- How many are not.
abbrev pub count_left_out : List CompilerArg → ℕ
count_left_out [] = 0
count_left_out (a ∷ args) =
    if a.also_runtime then count_left_out args else suc (count_left_out args)

runtime_loop-words :
    (args : List CompilerArg) (out : List Bytes) (p : ℤ)
    → (runtime_loop args out p).0 ≡ out ++ runtime_words args
unfolding runtime_loop
runtime_loop-words [] out p = rw append-nil
runtime_loop-words (a ∷ args) out p = ground (
  arith,
  append_assoc out (a.arg ∷ []) (runtime_words args),
  runtime_loop-words args (out ++ a.arg ∷ []) p,
  runtime_loop-words args out (p -ℤ pos 1),
)

sub_one : (p : ℤ) (n : ℕ) → (p -ℤ pos 1) -ℤ pos n ≡ p -ℤ pos (suc n)
unfolding ◌-ℤ◌
sub_one p n = ground arith

sub_none : (p : ℤ) → p -ℤ pos 0 ≡ p
unfolding ◌-ℤ◌
sub_none p = ground arith

runtime_loop-position :
    (args : List CompilerArg) (out : List Bytes) (p : ℤ)
    → (runtime_loop args out p).1 ≡ p -ℤ pos (count_left_out args)
unfolding runtime_loop
runtime_loop-position [] out p = ground (arith, sub_none p)
runtime_loop-position (a ∷ args) out p = ground (
  arith,
  sub_one p (count_left_out args),
  runtime_loop-position args (out ++ a.arg ∷ []) p,
  runtime_loop-position args out (p -ℤ pos 1),
)

-- The arguments kept for the runtime are the program, the common options and the user's arguments
-- that are also for the runtime.
pub build_runtime_args-words :
    (config : Config) (program : Bytes) (k : ℕ)
    → (build_runtime_args config program k).0
      ≡ program ∷ common_opts ++ runtime_words config.compiler_args
unfolding build_runtime_args
build_runtime_args-words config program k =
    runtime_loop-words config.compiler_args (program ∷ common_opts) _

position_eq :
    (config : Config) (program : Bytes) (k : ℕ)
    → (build_runtime_args config program k).1
      ≡ pos (k + 5) -ℤ pos (count_left_out config.compiler_args)
unfolding build_runtime_args
position_eq config program k =
    runtime_loop-position config.compiler_args (program ∷ common_opts) _ ∙ ground arith

counts :
    (k : ℕ) (args : List CompilerArg)
    → k ≤ length args
    → (length (runtime_words (take k args)) + count_left_out (take k args) ≡ k)
      × (count_left_out (take k args) + count_left_out (drop k args) ≡ count_left_out args)
      × (count_left_out args ≤ length args)
counts zero [] h = omega arith
counts zero (a ∷ args) h = ground (arith, counts zero args)
counts (suc k) [] h = absurd (omega arith)
counts (suc k) (a ∷ args) h = ground (arith, counts k args)

-- For an input file that stands behind the first `k` compiler arguments, the position that is
-- computed for the runtime is the one behind the program, the common options and those of the `k`
-- arguments that are kept, exactly when no argument behind the file is left out at run time.
pub position_iff :
    (config : Config) (program : Bytes) (k : ℕ)
    → k ≤ length config.compiler_args
    → ((build_runtime_args config program k).1
        ≡ pos (1 + length common_opts + length (runtime_words (take k config.compiler_args))))
      ↔ (count_left_out (drop k config.compiler_args) ≡ 0)
position_iff config program k h =
    unfold ◌-ℤ◌ in
    (
      λ e. ground (arith, position_eq config program k, counts k config.compiler_args h),
      λ e. ground (arith, position_eq config program k, counts k config.compiler_args h),
    )

-- Where more than `k + 5` of the arguments are not for the runtime, the position is negative.
pub position_negative :
    (config : Config) (program : Bytes) (k : ℕ)
    → k + 5 < count_left_out config.compiler_args
    → (build_runtime_args config program k).1
      ≡ negsuc (count_left_out config.compiler_args - (k + 5) - 1)
unfolding ◌-ℤ◌
position_negative config program k h = ground (arith, position_eq config program k)

pub count_left_out-le : (args : List CompilerArg) → count_left_out args ≤ length args
count_left_out-le args = omega (arith, counts 0 args (omega arith))
