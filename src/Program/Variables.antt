-- ===== src/Program/Variables.antt =====
-- dcc/dcc.c and dcc/dcc.h: the environment variables, and `concat`.
use doarr.Base.{Bytes, codes, Bool, Option, none, some, List, [], ◌∷◌, ◌++◌, if◌then◌else◌}

-- enum env_var
pub data EnvVar : Type 0 where
  env_cxx env_cc env_ld env_objcopy env_path env_tmp : EnvVar

-- struct env_var_info
pub record EnvVarInfo : Type 0 where
  pub name : Bytes
  pub default_value : Bytes
  pub desc : Bytes

abbrev pub env_vars : EnvVar → EnvVarInfo
env_vars env_cxx = record {
  name = codes "DCC_CXX";
  default_value = codes "c++";
  desc = codes "C++ compiler - used for both precompilation and runtime specialization";
}
env_vars env_cc = record {
  name = codes "CC";
  default_value = codes "cc";
  desc = codes "C compiler - used internally during build";
}
env_vars env_ld = record {
  name = codes "LD";
  default_value = codes "ld";
  desc = codes "linker - used internally during build";
}
env_vars env_objcopy = record {
  name = codes "OBJCOPY";
  default_value = codes "objcopy";
  desc = codes "objcopy - used internally during build";
}
env_vars env_path = record {
  name = codes "PATH";
  default_value = codes "/usr/local/bin:/usr/bin:/bin";
  desc = codes "used to resolve the above programs";
}
env_vars env_tmp = record {
  name = codes "TMP";
  default_value = codes "/tmp";
  desc = codes "directory to store temporary files";
}

-- The indices of the array, in order.
abbrev pub all_env_vars : List EnvVar
all_env_vars = env_cxx ∷ env_cc ∷ env_ld ∷ env_objcopy ∷ env_path ∷ env_tmp ∷ []

-- The value of a variable that is set, else its default.
unfoldable pub env_value : (Bytes → Option Bytes) → EnvVar → Bytes
env_value getenv v = elim (getenv (env_vars v).name) [
  | none ↦ (env_vars v).default_value
  | some value ↦ value
]

-- The flag says whether malloc succeeds; `none` is NULL.
unfoldable pub concat : Bool → Bytes → Bytes → Option Bytes
concat allocated a b = if allocated then some (a ++ b) else none
