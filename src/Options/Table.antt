-- ===== src/Options/Table.antt =====
-- dcc/dcc_options.c: the table `option_keys`. A field that an initialiser leaves out is `none`, and
-- `{0}` is an entry with no string.
use Prim.Native.String.{String}
use doarr.Base.{Bytes, codes, Option, none, some, List, [], ◌∷◌}

-- enum option_syntax
pub data OptionSyntax : Type 0 where
  no_arg immediate separate imm_or_sep : OptionSyntax

-- The functions of type `opt_action_t`.
pub data OptAction : Type 0 where
  forward forward_no_rt reject set_output set_compile set_preproc set_nowarn set_verbose : OptAction
  dummy_set_language help_and_exit : OptAction

pub record OptionKey : Type 0 where
  pub str : Option Bytes
  pub syntax : OptionSyntax
  pub desc : Option Bytes
  pub action : Option OptAction

abbrev key : String → OptionSyntax → String → OptAction → OptionKey
key s x d a = record { str = some (codes s); syntax = x; desc = some (codes d); action = some a }

abbrev described : String → OptionSyntax → String → OptionKey
described s x d = record { str = some (codes s); syntax = x; desc = some (codes d); action = none }

abbrev bare : String → OptionSyntax → OptionKey
bare s x = record { str = some (codes s); syntax = x; desc = none; action = none }

abbrev separator : OptionKey
separator = record { str = none; syntax = no_arg; desc = none; action = none }

unfoldable pub option_keys : List OptionKey
option_keys =
    (key "-c" no_arg "compile to object file (do not link)" set_compile)
    ∷ (key "-d" immediate "compiler debugging" reject)
    ∷ (key "-e" imm_or_sep "entry point" reject)
    ∷ (key "-f" immediate "various options" forward)
    ∷ (key "-g" immediate "debug" forward)
    ∷ (key "-h" imm_or_sep "undocumented" reject)
    ∷ (key "-l" imm_or_sep "library" forward)
    ∷ (key "-m" immediate "machine options" forward)
    ∷ (key "-n" no_arg "undocumented" reject)
    ∷ (key "-o" imm_or_sep "output file" set_output)
    ∷ (key "-p" no_arg "profiling" reject)
    ∷ (key "-pg" no_arg "profiling" reject)
    ∷ (key "-r" no_arg "relocatable" reject)
    ∷ (key "-s" no_arg "strip symbols" reject)
    ∷ (key "-t" no_arg "linker trace" forward)
    ∷ (key "-u" imm_or_sep "undefine symbol" forward)
    ∷ (key "-v" no_arg "verbose" set_verbose)
    ∷ (key "-w" no_arg "disable warnings" set_nowarn)
    ∷ (key "-x" imm_or_sep "language" dummy_set_language)
    ∷ (key "-z" imm_or_sep "linker keyword" forward)
    ∷ separator
    ∷ (key "-A" imm_or_sep "assertion" forward)
    ∷ (key "-B" imm_or_sep "compiler installation prefix" forward)
    ∷ (bare "-C" no_arg)
    ∷ (key "-CC" no_arg "keep comments" forward)
    ∷ (key "-D" imm_or_sep "define macro" forward)
    ∷ (key "-E" no_arg "preprocess only (compile to C)" set_preproc)
    ∷ (key "-F" imm_or_sep "framework dir" forward)
    ∷ (key "-H" no_arg "verbose #include" forward)
    ∷ (key "-I" imm_or_sep "include path" forward)
    ∷ (key "-J" imm_or_sep "undocumented" reject)
    ∷ (key "-L" imm_or_sep "library path" forward)
    ∷ (key "-M" immediate "rules for make" reject)
    ∷ (key "-N" no_arg "undocumented" reject)
    ∷ (key "-O" immediate "optimization" forward)
    ∷ (key "-P" no_arg "no linemarkers" forward)
    ∷ (key "-Q" no_arg "compiler stats" forward)
    ∷ (key "-R" imm_or_sep "undocumented" reject)
    ∷ (key "-S" no_arg "produce assembly" reject)
    ∷ (key "-T" imm_or_sep "linker script" reject)
    ∷ (key "-U" imm_or_sep "undefine macro" forward)
    ∷ (key "-W" immediate "warnings" forward)
    ∷ (key "-X" no_arg "undocumented" reject)
    ∷ (key "-Z" no_arg "unknown linker flag" reject)
    ∷ separator
    ∷ (bare "-iquote" imm_or_sep)
    ∷ (bare "-iprefix" imm_or_sep)
    ∷ (bare "-iwithprefix" imm_or_sep)
    ∷ (bare "-iwithprefixbefore" imm_or_sep)
    ∷ (bare "-isysroot" imm_or_sep)
    ∷ (key "-imultilib" imm_or_sep "include path" forward_no_rt)
    ∷ (bare "-include" imm_or_sep)
    ∷ (key "-imacros" imm_or_sep "include file" forward_no_rt)
    ∷ separator
    ∷ (bare "-std" immediate)
    ∷ (described "--std" immediate "language standard version")
    ∷ (bare "-pedantic" no_arg)
    ∷ (described "-pedantic-errors" no_arg "language standard pedantry")
    ∷ separator
    ∷ (bare "-Wp," immediate)
    ∷ (key "-Xpreprocessor" separate "preprocessor option" forward)
    ∷ (bare "-Wl," immediate)
    ∷ (key "-Xlinker" separate "linker option" forward)
    ∷ (bare "-Wa," immediate)
    ∷ (key "-Xassembler" separate "assembler option" forward)
    ∷ separator
    ∷ (bare "-help" immediate)
    ∷ (key "--help" immediate "display help" help_and_exit)
    ∷ []
