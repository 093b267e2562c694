-- ===== src/Options/Help.antt =====
-- dcc/dcc_options.c: the text of --help.
pub mod Listed
use doarr.Base.{Bytes, codes, Bool, true, false, Option, none, some, List, [], ◌∷◌, ◌++◌}
use doarr.Options.Table.{
  OptionSyntax, no_arg, immediate, separate, imm_or_sep, OptAction, reject, OptionKey, option_keys,
}
use doarr.Program.Variables.{EnvVar, env_vars, all_env_vars}

-- What `puts` writes in front of the table.
abbrev introduction : List Bytes
introduction =
    codes "Example usage:"
    ∷ codes "  dcc -c INPUT_FILES..."
    ∷ codes "    Compile to object files, one per INPUT_FILE. Each output"
    ∷ codes "    file name is created by replacing the extension with '.o'."
    ∷ codes "  dcc -c INPUT_FILES... -o OUTPUT_FILE"
    ∷ codes "    Compile to single object file."
    ∷ codes "  dcc -E INPUT_FILES..."
    ∷ codes "    Compile to C code, written to standard output."
    ∷ codes "  dcc -E INPUT_FILES... -o OUTPUT_FILE"
    ∷ codes "    Compile to C code, written to OUTPUT_FILE."
    ∷ []
    ∷ codes "Using '-c' will generally produce a large file, which may"
    ∷ codes "be slow to process later (although runtime is not affected)."
    ∷ codes "As such, '-E' should be preferred over '-c'."
    ∷ []
    ∷ codes "Most other C++ compiler options may be used as well."
    ∷ codes "They are generally just forwarded to the C++ compiler."
    ∷ []
    ∷ codes "Summary of supported options:"
    ∷ []

abbrev pub is_reject : Option OptAction → Bool
is_reject (some reject) = true
is_reject _ = false

-- The switch over `key.syntax`.
abbrev pub usage : Bytes → OptionSyntax → Bytes
usage str no_arg = codes "  " ++ str
usage str immediate = codes "  " ++ str ++ codes "..."
usage str imm_or_sep = codes "  " ++ str ++ codes " ..."
usage str separate = codes "  " ++ str ++ codes " ..."

abbrev description : Option Bytes → List Bytes
description none = []
description (some desc) = (codes "    " ++ desc) ∷ []

-- The body of the loop over the table. An entry without a string is a blank line.
unfoldable pub key_lines : OptionKey → List Bytes
key_lines key = elim key.str [
  | none ↦ [] ∷ []
  | some str ↦ elim (is_reject key.action) [
    | true ↦ []
    | false ↦ usage str key.syntax ∷ description key.desc
  ]
]

unfoldable pub table_lines : List OptionKey → List Bytes
unfolding key_lines
table_lines [] = []
table_lines (key ∷ keys) = key_lines key ++ table_lines keys

-- The loop over the environment variables.
abbrev pub variable_lines : List EnvVar → List Bytes
variable_lines [] = []
variable_lines (v ∷ vs) =
    (codes "  "
      ++ (env_vars v).name
      ++ codes " (defaults to '"
      ++ (env_vars v).default_value
      ++ codes "')")
    ∷ (codes "    " ++ (env_vars v).desc)
    ∷ variable_lines vs

-- The lines that are written to standard output.
unfoldable pub help : List Bytes
unfolding table_lines option_keys
help =
    introduction
    ++ table_lines option_keys
    ++ ([] ∷ codes "Supported environment variables:" ∷ variable_lines all_env_vars)
