-- ===== src/Gen/Source.antt =====
-- dcc/dcc_gen.c: the first part of the generated source, `generate_c_part1`.
-- The text of runtime_struct_defs.h, which the build makes a string, is a parameter.
pub mod Entries
pub mod Total
use doarr.Base.{ℕ, zero, suc, ◌+◌, Bytes, codes, Bool, Option, none, some, List, [], ◌∷◌, ◌++◌}
use doarr.Base.Decimal.{digits, decimal}
use doarr.Scan.Chars.{weight}
use doarr.Scan.{ScanResult, failed, clean_eof, export, dcc_scan_up_to_next_export}
use doarr.Gen.Escape.{escape}

unfoldable pub generated_file_prolog : Bytes → ℕ → Bytes
unfolding digits
generated_file_prolog struct_defs file_index =
    codes "// generated code, consider not modifying!\n"
    ++ codes "\n"
    ++ codes "#ifndef doarr__seen_prolog\n"
    ++ codes "#define doarr__seen_prolog\n"
    ++ codes "\n"
    ++ codes "#ifdef __cplusplus\n"
    ++ codes "#warning \"This file is not intended to be compiled with a C++ compiler\"\n"
    ++ codes "#endif\n"
    ++ codes "\n"
    ++ struct_defs
    ++ codes "\n"
    ++ codes "#endif\n"
    ++ codes "\n"
    ++ codes "static struct guest_file doarr__file_"
    ++ decimal file_index
    ++ codes ";\n"
    ++ codes "\n"

unfoldable pub generated_file_fn_entry : Bytes → ℕ → Bytes
unfolding digits
generated_file_fn_entry ident file_index =
    codes "#ifndef doarr__seen_"
    ++ decimal file_index
    ++ codes "_"
    ++ ident
    ++ codes "\n"
    ++ codes "#define doarr__seen_"
    ++ decimal file_index
    ++ codes "_"
    ++ ident
    ++ codes "\n"
    ++ codes "const struct guest_fn "
    ++ ident
    ++ codes " = {\n"
    ++ codes " .file = &doarr__file_"
    ++ decimal file_index
    ++ codes ",\n"
    ++ codes " .name = \""
    ++ ident
    ++ codes "\",\n"
    ++ codes "};\n"
    ++ codes "#endif\n"
    ++ codes "\n"

unfoldable pub arg_literals : List Bytes → Bytes
unfolding escape
arg_literals [] = []
arg_literals (arg ∷ args) = codes " \"" ++ escape arg ++ codes "\"," ++ arg_literals args

unfoldable pub compiler_args_text : List Bytes → Bytes
unfolding arg_literals
compiler_args_text args =
    codes "#ifndef doarr__seen_args\n"
    ++ codes "#define doarr__seen_args\n"
    ++ codes "static const char *const doarr__compiler_args[] = {\n"
    ++ arg_literals args
    ++ codes "\n};\n#endif\n"

-- false; true with no functions, and nothing written; or true with what was written.
pub data Part1 : Type 0 where
  scan_error no_functions : Part1
  generated : Bytes → Part1

module _ (fails : Bool) (alloc : ℕ → Bool) where
  -- The loop over the functions, on fuel: the entries that it writes, `none` in the inner option
  -- for an error of the scanner.
  unfoldable pub entries_loop : ℕ → ℕ → Bytes → Option (Option Bytes)
  entries_loop zero file_index s = none
  entries_loop (suc fuel) file_index s = elim (dcc_scan_up_to_next_export fails alloc s) [
    | none ↦ none
    | some (failed _, rest) ↦ some none
    | some (clean_eof, rest) ↦ some (some [])
    | some (export ident, rest) ↦ elim (entries_loop fuel file_index rest) [
      | some (some entries) ↦ some (some (generated_file_fn_entry ident file_index ++ entries))
      | other ↦ other
    ]
  ]

  unfoldable pub generate_c_part1 : Bytes → ℕ → Bytes → List Bytes → Option Part1
  generate_c_part1 struct_defs file_index s compiler_args =
      elim (dcc_scan_up_to_next_export fails alloc s) [
        | none ↦ none
        | some (failed _, rest) ↦ some scan_error
        | some (clean_eof, rest) ↦ some no_functions
        | some (export ident, rest) ↦ elim (entries_loop (suc (weight rest)) file_index rest) [
          | none ↦ none
          | some none ↦ some scan_error
          | some (some entries) ↦ some (
              generated (
                generated_file_prolog struct_defs file_index
                ++ generated_file_fn_entry ident file_index
                ++ entries
                ++ compiler_args_text compiler_args))
        ]
      ]
