-- ===== src/Program/Prepare.antt =====
-- dcc/dcc.c: main up to the temporary directory.
use doarr.Base.{
  ℕ, suc, Bytes, Bool, true, false, not, Option, none, some, List, [], ◌∷◌, leb, ltb, length,
  if◌then◌else◌,
}
use doarr.Options.Parse.{InputFile, Config, Parse, Outcome, dcc_parse_args}
use doarr.Files.Names.{tmp_output}
use doarr.Find.{Tool, find_all_tools, fd_to_abs_path}
use doarr.Process.Events.{History, Env}
use doarr.Program.Variables.{
  EnvVar, env_cxx, env_cc, env_ld, env_objcopy, env_path, env_tmp, all_env_vars, env_value,
}

-- The calls of malloc, in the code's words for what they give, and of strdup.
pub data Allocation : Type 0 where
  inputs compiler_args tmp_outputs arg_buff tmp tmp_pch_abs : Allocation
  env : EnvVar → Allocation

-- How the calls of the system end. A descriptor that is missing is an error. `readlinkat` is called
-- on a descriptor, and gives what it writes to a buffer of a capacity. `work` answers the calls of
-- dcc_gen_main, and `rmdir` sees all of these.
pub record Host : Type 0 where
  pub allocates : Allocation → Bool
  pub dev_null : Option ℕ
  pub dev_fd : Option ℕ
  pub getenv : Bytes → Option Bytes
  pub open_tool : Bytes → Option ℕ
  pub open_dir : Bytes → Option ℕ
  pub openat : ℕ → Bytes → Option ℕ
  pub is_executable : ℕ → Bool
  pub readlinkat : ℕ → ℕ → Option Bytes
  pub path_alloc : ℕ → Bool
  pub mkdtemp : Bytes → Option Bytes
  pub open_tmp : Bytes → Bool
  pub work : Env
  pub rmdir : Bytes → History → Bool

-- What makes the status 1. Some functions have reported their own errors.
pub data Failure : Type 0 where
  out_of_memory no_dev_null no_standard_streams no_dev_fd invalid_arguments no_input_files : Failure
  one_of_c_and_e_required missing_tool no_compiler_path path_name_too_long : Failure
  cannot_create_tmp cannot_open_tmp work_failed cannot_remove_tmp : Failure

-- An early end: `return 1`, the exit of --help, or a crash. Fuel is no end of the program.
pub data Ending : Type 0 where
  fails : Failure → Ending
  helped crashes out_of_fuel : Ending

pub data Step {ℓ} (A : Type ℓ) : Type ℓ where
  ok : A → Step A
  ends : Ending → Step A

infixl 5 ◌>>=◌ ◌>>◌
unfoldable pub ◌>>=◌ {ℓ κ} : {A : Type ℓ} {B : Type κ} → Step A → (A → Step B) → Step B
ok a >>= f = f a
ends e >>= f = ends e

unfoldable pub ◌>>◌ {ℓ} : {B : Type ℓ} → Step (Unit {0}) → Step B → Step B
unfolding ◌>>=◌
m >> k = m >>= λ _. k

unfoldable pub require : Bool → Failure → Step (Unit {0})
require true e = ok tt
require false e = ends (fails e)

unfoldable pub required {ℓ} : {A : Type ℓ} → Option A → Failure → Step A
required none e = ends (fails e)
required (some a) e = ok a

-- What main knows in front of mkdtemp.
pub record Prepared : Type 0 where
  pub config : Config
  pub files : List InputFile
  pub output_names : List Bytes
  pub values : EnvVar → Bytes
  pub compiler : Bytes

abbrev pub is_open : Option ℕ → Bool
is_open none = false
is_open (some fd) = true

abbrev pub above_stderr : Option ℕ → Bool
above_stderr none = true
above_stderr (some fd) = leb 3 fd

abbrev pub same_flags : Bool → Bool → Bool
same_flags true b = b
same_flags false b = not b

abbrev pub is_empty {ℓ} : {A : Type ℓ} → List A → Bool
is_empty [] = true
is_empty (_ ∷ _) = false

abbrev pub parse_ending : Outcome → Step Parse
parse_ending (Outcome.parsed st) = ok st
parse_ending Outcome.exited = ends helped
parse_ending Outcome.undefined = ends crashes

-- The names of the temporary outputs, from the index `i` on.
abbrev pub name_outputs : ℕ → List InputFile → List Bytes
name_outputs i [] = []
name_outputs i (input ∷ rest) = tmp_output i input.name ∷ name_outputs (suc i) rest

-- `tools[ToolCXX].exec_fd`
abbrev pub cxx_fd : List Tool → ℕ
cxx_fd [] = 0
cxx_fd (t ∷ tools) = elim t.exec_fd [ none ↦ 0 | some fd ↦ fd ]

module _ (host : Host) where
  unfoldable pub copy_values : List EnvVar → Step (Unit {0})
  copy_values [] = ok tt
  copy_values (v ∷ vs) = do require (host.allocates (env v)) out_of_memory; copy_values vs

  -- From the start to the checks of the configuration; `argv` is what follows the program's name.
  unfoldable pub read_arguments : List Bytes → Step Parse
  read_arguments argv = do
    require (host.allocates inputs) out_of_memory
    require (host.allocates compiler_args) out_of_memory
    require (is_open host.dev_null) no_dev_null
    require (above_stderr host.dev_null) no_standard_streams
    require (is_open host.dev_fd) no_dev_fd
    st ← parse_ending (dcc_parse_args argv)
    require (not st.config.invalid) invalid_arguments
    require (not (is_empty st.inputs)) no_input_files
    require (not (same_flags st.config.compile st.config.preproc)) one_of_c_and_e_required
    ok st

  -- find_all_tools, arg_buff, and the path of the compiler, with the fuel of its loop.
  unfoldable pub find_compiler : ℕ → (EnvVar → Bytes) → Step Bytes
  find_compiler fuel values = do
    tools ←
        required
          (find_all_tools host.open_tool host.open_dir host.openat host.is_executable
            (values env_cxx ∷ values env_cc ∷ values env_ld ∷ values env_objcopy ∷ [])
            (values env_path))
          missing_tool
    require (host.allocates arg_buff) out_of_memory
    elim (fd_to_abs_path (host.readlinkat (cxx_fd tools)) host.path_alloc fuel) [
      | none ↦ ends out_of_fuel
      | some path ↦ required path no_compiler_path
    ]

  -- malloc of tmp_outputs is not checked.
  unfoldable pub prepare : ℕ → List Bytes → Step Prepared
  prepare fuel argv = do
    st ← read_arguments argv
    (if host.allocates tmp_outputs then ok tt else ends crashes)
    copy_values all_env_vars
    compiler ← find_compiler fuel (env_value host.getenv)
    require (ltb (length (env_value host.getenv env_tmp)) 1024) path_name_too_long
    ok (record {
      config = st.config;
      files = st.inputs;
      output_names = name_outputs 0 st.inputs;
      values = env_value host.getenv;
      compiler = compiler;
    })
