-- ===== src/Runtime/Execute/Command.antt =====
-- dcc/dcc_gen.c and runtime/io.c together: the command line of the runtime compiler.
use mathlib.Core.Option
use mathlib.Core.Option.{none-ne-some, some-injective}
use doarr.Base.{
  ℕ, zero, suc, ◌+◌, ◌-◌, ◌≤◌, ◌<◌, ◌^◌, Bytes, codes, none, some, List, [], ◌∷◌, ◌++◌, ◌≡◌, map,
  length, take, drop, arith, refl, ap, ◌∙◌, sym, subst, All, Option, Option-cases, inl, inr,
}
use doarr.Base.Int.{pos, to_size_t}
use doarr.Options.Parse.{CompilerArg, Config}
use doarr.Gen.Args.{common_opts, build_runtime_args}
use doarr.Gen.Literal.{is_hex_digit, read_literal}
use doarr.Gen.Escape.{escape}
use doarr.Gen.Escape.RoundTrip.{IsEscapable, decode-escape}
use doarr.Gen.Args.Position.{
  runtime_words, count_left_out, build_runtime_args-words, position_iff, position_negative,
  count_left_out-le,
}
use doarr.Runtime.{GuestFile}
use doarr.Runtime.Execute.{copy_args, execute_compiler}

copy_args-append :
    (xs ys : List Bytes) (k : ℕ) → k ≡ length xs → copy_args k (xs ++ ys) ≡ some (xs, ys)
unfolding copy_args
copy_args-append [] [] k h = ground arith
copy_args-append [] (y ∷ ys) k h = ground arith
copy_args-append (x ∷ xs) ys k h = ground (arith, copy_args-append xs ys (k - 1))

copy_args-none : (args : List Bytes) (k : ℕ) → length args < k → copy_args k args ≡ none
unfolding copy_args
copy_args-none [] k h = ground arith
copy_args-none (x ∷ xs) k h = ground (arith, copy_args-none xs (k - 1))

runtime_words-split :
    (k : ℕ) (args : List CompilerArg)
    → runtime_words args ≡ runtime_words (take k args) ++ runtime_words (drop k args)
runtime_words-split zero args = refl
runtime_words-split (suc k) [] = refl
runtime_words-split (suc k) (a ∷ args) = ground (arith, runtime_words-split k args)

execute_compiler-append :
    (cxx so : Bytes) (file : GuestFile) (xs ys : List Bytes)
    → file.pos_between_args ≡ pos (length xs)
    → file.compiler_args ≡ xs ++ ys
    → execute_compiler cxx so file
      ≡ some (map some (xs ++ cxx ∷ ys ++ codes "-o" ∷ so ∷ []) ++ none ∷ [])
unfolding execute_compiler
execute_compiler-append cxx so file xs ys p a = ground (
  arith,
  copy_args-append xs ys (to_size_t file.pos_between_args),
  copy_args-append xs ys (length xs),
)

execute_compiler-none :
    (cxx so : Bytes) (file : GuestFile)
    → length file.compiler_args < to_size_t file.pos_between_args
    → execute_compiler cxx so file ≡ none
unfolding execute_compiler
execute_compiler-none cxx so file h =
    ground (arith, copy_args-none file.compiler_args (to_size_t file.pos_between_args))

length-runtime_words :
    (args : List CompilerArg) → length (runtime_words args) + count_left_out args ≡ length args
length-runtime_words [] = refl
length-runtime_words (a ∷ args) = ground (arith, length-runtime_words args)

-- The strings of the array `compiler_args`, as the C compiler reads the literals that
-- `generate_c_part1` writes for them.
abbrev pub compiled_args : List Bytes → Option (List Bytes)
compiled_args [] = some []
compiled_args (a ∷ args) = elim (read_literal (escape a ++ b'"' ∷ b',' ∷ [])) [
  | none ↦ none
  | some (b, _) ↦ Option.map (λ bs. b ∷ bs) (compiled_args args)
]

-- The guest file that is compiled from what dcc writes for an input file behind the first `k` compiler
-- arguments; `none` where the C compiler rejects a literal.
abbrev pub guest_file : Config → Bytes → ℕ → Bytes → Option GuestFile
guest_file config program k precompiled =
    let (args, position) = build_runtime_args config program k in
    Option.map
      (λ compiled. record {
        gch_data = precompiled;
        compiler_args = compiled;
        pos_between_args = position;
        gch_tmp_path = [];
      })
      (compiled_args args)

common_opts-IsEscapable :
    (ws : List Bytes) → All IsEscapable ws → All IsEscapable (common_opts ++ ws)
unfolding is_hex_digit
common_opts-IsEscapable ws h = ground arith

compiled_args-same : (args : List Bytes) → All IsEscapable args → compiled_args args ≡ some args
compiled_args-same [] h = refl
compiled_args-same (a ∷ args) (ha, h) =
    rw (decode-escape a [] ha, compiled_args-same args h, compiled_args) refl

map-some {ℓ κ} :
    {A : Type ℓ} {B : Type κ} (f : A → B) (o : Option A) (b : B)
    → Option.map f o ≡ some b
    → (a : A) × (o ≡ some a) × (f a ≡ b)
map-some f none b h = absurd (none-ne-some b h)
map-some f (some a) b h = (a, refl, some-injective (f a) b h)

length-compiled_args :
    (args compiled : List Bytes)
    → compiled_args args ≡ some compiled
    → length compiled ≡ length args
length-compiled_args [] compiled h = ground arith
length-compiled_args (a ∷ args) compiled h =
    elim (Option-cases (read_literal (escape a ++ b'"' ∷ b',' ∷ []))) [
      | inl e ↦ ground arith
      | inr ((b, rest), e) ↦
          let (bs, made, same) =
            map-some (λ bs. b ∷ bs) (compiled_args args) compiled (rw (e, compiled_args) at h) in
          ap length (sym same) ∙ ap suc (length-compiled_args args bs made)
    ]

-- For an input file behind the first `k` compiler arguments, none of the later ones left out at
-- run time, and where neither the program nor an argument that is kept has a byte that is written as
-- `\x..` with a hexadecimal digit behind it, the literals that dcc writes are compiled, and the runtime
-- compiler is called as the user called dcc: the program, the common options, the arguments before the
-- file that are kept, the generated file, those after it, then `-o` and the shared library, with a null
-- pointer at the end.
pub runtime_command :
    (config : Config) (program cxx so precompiled : Bytes) (k : ℕ)
    → k ≤ length config.compiler_args
    → count_left_out (drop k config.compiler_args) ≡ 0
    → IsEscapable program
    → All IsEscapable (runtime_words config.compiler_args)
    → (file : GuestFile) × (guest_file config program k precompiled ≡ some file)
      × (execute_compiler cxx so file
          ≡ some (
              map some (
                program ∷ common_opts
                ++ runtime_words (take k config.compiler_args)
                ++ cxx ∷ runtime_words (drop k config.compiler_args)
                ++ codes "-o" ∷ so ∷ [])
              ++ none ∷ []))
runtime_command config program cxx so precompiled k h kept hp ha =
    let args = build_runtime_args-words config program k in
    let compiled : compiled_args (build_runtime_args config program k).0
        ≡ some (build_runtime_args config program k).0 =
      compiled_args-same _ (
        subst (All IsEscapable) (sym args)
          (hp, (common_opts-IsEscapable (runtime_words config.compiler_args) ha))) in
    (
      record {
        gch_data = precompiled;
        compiler_args = (build_runtime_args config program k).0;
        pos_between_args = (build_runtime_args config program k).1;
        gch_tmp_path = [];
      },
      rw compiled refl,
      execute_compiler-append cxx so _
          (program ∷ common_opts ++ runtime_words (take k config.compiler_args))
          (runtime_words (drop k config.compiler_args))
          ((position_iff config program k h).1 kept ∙ ap pos (omega arith))
          (args
            ∙ ap (λ ws. program ∷ common_opts ++ ws) (runtime_words-split k config.compiler_args)),
    )

-- Where more than `k + 5` of at most 2^31 arguments are not for the runtime, `execute_compiler`
-- reads behind the end of the array: the negative position is converted to a huge `size_t`.
pub runtime_command_overrun :
    (config : Config) (program cxx so precompiled : Bytes) (k : ℕ) (file : GuestFile)
    → guest_file config program k precompiled ≡ some file
    → k + 5 < count_left_out config.compiler_args
    → length config.compiler_args < 2 ^ 31
    → execute_compiler cxx so file ≡ none
runtime_command_overrun config program cxx so precompiled k file made h small =
    let (compiled, read, same) =
      map-some _ (compiled_args (build_runtime_args config program k).0) file made in
    let args : file.compiler_args ≡ compiled = ap (λ g. g.compiler_args) (sym same) in
    let position : file.pos_between_args ≡ (build_runtime_args config program k).1 =
      ap (λ g. g.pos_between_args) (sym same) in
    let size = length-compiled_args (build_runtime_args config program k).0 compiled read in
    execute_compiler-none cxx so file (
      rw
        (
          args,
          position,
          size,
          build_runtime_args-words config program k,
          position_negative config program k h,
        )
        (omega (
          arith,
          length-runtime_words config.compiler_args,
          count_left_out-le config.compiler_args,
        )))
