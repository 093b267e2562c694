-- ===== src/Tests/OptionsTests.antt =====
-- dcc/dcc_options.c at concrete command lines.
use doarr.Base.{All, ◌≢◌, Bytes, codes, true, false, none, some, List, [], ◌∷◌, ◌≡◌, refl}
use doarr.Options.Table.{set_output, imm_or_sep, forward_no_rt}
use doarr.Options.Lookup.{FoundKey, lookup_opt}
use doarr.Options.Lookup.Longest.{IsLongest, lookup_opt-IsLongest}
use doarr.Options.Help.{key_lines}
use doarr.Options.Parse.Order.{Fits, dcc_parse_args-Fits}
use doarr.Options.Parse.Reports.{has_errors, dcc_parse_args-Reported}
use doarr.Options.Parse.Defined.{dcc_parse_args-ne-undefined}
use doarr.Options.Parse.{Parse, Outcome, parsed, exited, unsupported_option, dcc_parse_args}

abbrev command_line : List Bytes
command_line =
    codes "-c"
    ∷ codes "-I"
    ∷ codes "inc"
    ∷ codes "a.cpp"
    ∷ codes "-includeb.h"
    ∷ codes "-O2"
    ∷ codes "-oout.o"
    ∷ []

abbrev result : Parse
result = record {
  config = record {
    compiler_args =
        record { arg = codes "-I"; also_runtime = true }
        ∷ record { arg = codes "inc"; also_runtime = true }
        ∷ record { arg = codes "-includeb.h"; also_runtime = false }
        ∷ record { arg = codes "-O2"; also_runtime = true }
        ∷ [];
    output = some (codes "out.o");
    compile = true;
    preproc = false;
    nowarn = false;
    verbose = false;
    invalid = false;
  };
  inputs = record { name = codes "a.cpp"; pos_between_opts = 2 } ∷ [];
  errors = [];
}

parses : dcc_parse_args command_line ≡ parsed result
unfolding dcc_parse_args
parses = refl

asks_for_help : dcc_parse_args (codes "a" ∷ codes "--help" ∷ []) ≡ exited
unfolding dcc_parse_args
asks_for_help = refl

dcc_parse_args-Fits_example : All (Fits result.config.compiler_args command_line) result.inputs
dcc_parse_args-Fits_example = dcc_parse_args-Fits command_line result parses

abbrev rejected : Parse
rejected = record {
  config = record {
    compiler_args = [];
    output = none;
    compile = false;
    preproc = false;
    nowarn = false;
    verbose = false;
    invalid = true;
  };
  inputs = [];
  errors = unsupported_option (codes "-M") ∷ [];
}

rejects : dcc_parse_args (codes "-M" ∷ []) ≡ parsed rejected
unfolding dcc_parse_args
rejects = refl

dcc_parse_args-Reported_example : true ≡ has_errors (unsupported_option (codes "-M") ∷ [])
dcc_parse_args-Reported_example = dcc_parse_args-Reported (codes "-M" ∷ []) rejected rejects

dcc_parse_args-ne-undefined_example : dcc_parse_args (codes "-o" ∷ []) ≢ Outcome.undefined
dcc_parse_args-ne-undefined_example = dcc_parse_args-ne-undefined (codes "-o" ∷ [])

abbrev found : FoundKey
found = record {
  str = codes "-include";
  syntax = imm_or_sep;
  desc = some (codes "include file");
  action = some forward_no_rt;
}

finds_include : lookup_opt (codes "-includeb.h") ≡ some found
unfolding lookup_opt
finds_include = refl

lookup_opt-IsLongest_example : IsLongest (codes "-includeb.h") (lookup_opt (codes "-includeb.h"))
lookup_opt-IsLongest_example = lookup_opt-IsLongest (codes "-includeb.h")

finds_no_key : lookup_opt (codes "-q") ≡ none
unfolding lookup_opt
finds_no_key = refl

help_of_output :
    key_lines (record {
      str = some (codes "-o");
      syntax = imm_or_sep;
      desc = some (codes "output file");
      action = some set_output;
    })
    ≡ codes "  -o ..." ∷ codes "    output file" ∷ []
unfolding key_lines
help_of_output = refl
