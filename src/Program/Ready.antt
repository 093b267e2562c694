-- ===== src/Program/Ready.antt =====
-- dcc/dcc.c: main makes the temporary directory only when everything is there.
use doarr.Base.{
  ℕ, ◌<◌, ◌≡◌, Bytes, Bool, true, false, not, Option, none, some, List, [], ◌∷◌, length, ltb,
  if◌then◌else◌, arith, refl, sym, ◌∙◌,
}
use doarr.Options.Parse.{Parse, Outcome, dcc_parse_args}
use doarr.Options.Parse.Reports.{has_errors, dcc_parse_args-Reported}
use doarr.Find.{Tool, fd_to_abs_path}
use doarr.Find.Tools.{resolve_all}
use doarr.Program.Variables.{
  EnvVar, env_cxx, env_cc, env_ld, env_objcopy, env_path, env_tmp, all_env_vars, env_value,
}
use doarr.Program.Prepare.{
  Host, Failure, Ending, Step, ok, ends, fails, helped, crashes, ◌>>=◌, ◌>>◌, require, required,
  parse_ending, same_flags, copy_values, env, is_empty, read_arguments, find_compiler, Prepared,
  prepare, cxx_fd, name_outputs, tmp_outputs,
}

-- What holds of a step that goes on, and of one that ends the program.
unfoldable pub Post {ℓ} : {A : Type ℓ} → (A → Type 0) → (Ending → Type 0) → Step A → Type 0
Post P E (ok a) = P a
Post P E (ends e) = E e

pub then_Post {ℓ κ} :
    {A : Type ℓ} {B : Type κ} (P : A → Type 0) (Q : B → Type 0) (E : Ending → Type 0) (m : Step A)
    (g : A → Step B)
    → Post P E m
    → ((a : A) → P a → Post Q E (g a))
    → Post Q E (m >>= g)
unfolding Post ◌>>=◌
then_Post P Q E (ok a) g h step = step a h
then_Post P Q E (ends e) g h step = h

pub ok_Post {ℓ} :
    {A : Type ℓ} (P : A → Type 0) (E : Ending → Type 0) (a : A) → P a → Post P E (ok a)
unfolding Post
ok_Post P E a h = h

pub require-Post :
    (E : Ending → Type 0) (b : Bool) (e : Failure)
    → E (fails e)
    → Post (λ _. b ≡ true) E (require b e)
unfolding Post require
require-Post E true e h = refl
require-Post E false e h = h

pub required-Post :
    {A : Type 0} (E : Ending → Type 0) (o : Option A) (e : Failure)
    → E (fails e)
    → Post (λ a. o ≡ some a) E (required o e)
unfolding Post required
required-Post E none e h = h
required-Post E (some a) e h = refl

-- The command line asks for exactly one of the two outputs of at least one file, and the parser has
-- printed no error message.
abbrev pub Asks : List Bytes → Parse → Type 0
Asks argv st =
    (dcc_parse_args argv ≡ Outcome.parsed st)
    × (has_errors st.errors ≡ false)
    × (is_empty st.inputs ≡ false)
    × (st.config.compile ≡ not st.config.preproc)

differ : (a b : Bool) → not (same_flags a b) ≡ true → a ≡ not b
differ true true h = cc
differ true false h = refl
differ false true h = refl
differ false false h = cc

flag_false : (b : Bool) → not b ≡ true → b ≡ false
flag_false true h = cc
flag_false false h = refl

asked :
    (argv : List Bytes) (st : Parse)
    → dcc_parse_args argv ≡ Outcome.parsed st
    → not st.config.invalid ≡ true
    → not (is_empty st.inputs) ≡ true
    → not (same_flags st.config.compile st.config.preproc) ≡ true
    → Asks argv st
asked argv st parsed_to valid some_files one = (
  parsed_to,
  sym (dcc_parse_args-Reported argv st parsed_to) ∙ flag_false _ valid,
  flag_false _ some_files,
  differ st.config.compile st.config.preproc one,
)

-- The tools that the names of the environment stand for, and the path of the compiler among them.
abbrev pub Finds : Host → ℕ → Bytes → Type 0
Finds host fuel path =
    let values = env_value host.getenv in
    (tools : List Tool) × (resolve_all host.open_tool host.open_dir host.openat host.is_executable
        (values env_path) (values env_cxx ∷ values env_cc ∷ values env_ld ∷ values env_objcopy ∷ [])
      ≡ some tools)
    × (fd_to_abs_path (host.readlinkat (cxx_fd tools)) host.path_alloc fuel ≡ some (some path))

-- What main knows when it makes the temporary directory.
abbrev pub IsReady : Host → List Bytes → (Bytes → Type 0) → Prepared → Type 0
IsReady host argv Q p =
    (st : Parse) × Asks argv st
    × (p.config ≡ st.config)
    × (p.files ≡ st.inputs)
    × Q p.compiler
    × (length (env_value host.getenv env_tmp) < 1024)

module _ (host : Host) (E : Ending → Type 0) (on_failure : (e : Failure) → E (fails e))
    (on_help : E helped) (on_crash : E crashes) where
  parse_ending-Post : (o : Outcome) → Post (λ st. o ≡ Outcome.parsed st) E (parse_ending o)
  unfolding Post
  parse_ending-Post (Outcome.parsed st) = refl
  parse_ending-Post Outcome.exited = on_help
  parse_ending-Post Outcome.undefined = on_crash

  behind :
      {A : Type 0} (b : Bool) (e : Failure) (Q : A → Type 0) (k : Step A)
      → (b ≡ true → Post Q E k)
      → Post Q E (require b e >> k)
  unfolding ◌>>◌
  behind b e Q k h =
      then_Post _ Q E (require b e) (λ _. k) (require-Post E b e (on_failure e)) (λ _. h)

  read_arguments-Post : (argv : List Bytes) → Post (Asks argv) E (read_arguments host argv)
  unfolding read_arguments
  read_arguments-Post argv = behind _ _ _ _ λ _. behind _ _ _ _ λ _. behind _ _ _ _ λ _.
      behind _ _ _ _ λ _. behind _ _ _ _ λ _.
        then_Post _ (Asks argv) E _ _ (parse_ending-Post (dcc_parse_args argv)) λ st parsed_to.
          behind _ _ _ _ λ valid. behind _ _ _ _ λ some_files.
            behind _ _ _ _
              λ one. ok_Post (Asks argv) E st (asked argv st parsed_to valid some_files one)

  copy_values-Post : (vs : List EnvVar) → Post (λ _. Unit) E (copy_values host vs)
  unfolding Post copy_values
  copy_values-Post [] = tt
  copy_values-Post (v ∷ vs) =
      behind (host.allocates (env v)) _ (λ _. Unit) (copy_values host vs) λ _. copy_values-Post vs

  allocated-Post : (b : Bool) → Post (λ _. Unit) E (if b then ok (tt {0}) else ends crashes)
  unfolding Post
  allocated-Post true = tt
  allocated-Post false = on_crash

  prepared-IsReady :
      (argv : List Bytes) (Q : Bytes → Type 0) (st : Parse) (path : Bytes)
      → Asks argv st
      → Q path
      → ltb (length (env_value host.getenv env_tmp)) 1024 ≡ true
      → Post (IsReady host argv Q) E (
          ok (record {
            config = st.config;
            files = st.inputs;
            output_names = name_outputs 0 st.inputs;
            values = env_value host.getenv;
            compiler = path;
          }))
  unfolding Post
  prepared-IsReady argv Q st path asks q short = (st, asks, refl, refl, q, ground arith)

  -- What holds of the compiler's path, holds where main goes on.
  pub prepare-Post :
      (fuel : ℕ) (argv : List Bytes) (Q : Bytes → Type 0)
      → Post Q E (find_compiler host fuel (env_value host.getenv))
      → Post (IsReady host argv Q) E (prepare host fuel argv)
  unfolding prepare ◌>>◌ ◌>>=◌
  prepare-Post fuel argv Q found =
      then_Post _ (IsReady host argv Q) E _ _ (read_arguments-Post argv) λ st asks.
        then_Post _ (IsReady host argv Q) E _ _ (allocated-Post (host.allocates tmp_outputs)) λ _ _.
          then_Post _ (IsReady host argv Q) E _ _ (copy_values-Post all_env_vars) λ _ _.
            then_Post _ (IsReady host argv Q) E _ _ found
              λ compiler q. behind _ _ _ _ λ short. prepared-IsReady argv Q st compiler asks q short
