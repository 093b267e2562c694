-- ===== src/Options/Parse.antt =====
-- dcc/dcc_options.c: the actions of the options and the loop `dcc_parse_args`.
-- The unread part of `argp` is a list. What the code prints to standard error is a list of
-- `Diagnostic`. `help_and_exit` ends the process, and a call through an `action` that was never
-- set is `undefined`.
pub mod Forwards
pub mod Order
pub mod Reports
pub mod Defined
use mathlib.Core.List.{head?}
use doarr.Base.{
  ℕ, Bytes, codes, bytes_eq, length, drop, Bool, true, false, Option, none, some, List, [], ◌∷◌,
  ◌++◌, ◌==◌, if◌then◌else◌,
}
use doarr.Options.Table.{
  OptionSyntax, no_arg, immediate, separate, imm_or_sep, OptAction, forward, forward_no_rt, reject,
  set_output, set_compile, set_preproc, set_nowarn, set_verbose, dummy_set_language, help_and_exit,
}
use doarr.Options.Lookup.{FoundKey, lookup_opt}

-- struct compiler_arg
pub record CompilerArg : Type 0 where
  pub arg : Bytes
  pub also_runtime : Bool

-- struct input_file
pub record InputFile : Type 0 where
  pub name : Bytes
  pub pos_between_opts : ℕ

-- The part of struct config that the command line sets; `num_compiler_args` is the list's length.
pub record Config : Type 0 where
  pub compiler_args : List CompilerArg
  pub output : Option Bytes
  pub compile : Bool
  pub preproc : Bool
  pub nowarn : Bool
  pub verbose : Bool
  pub invalid : Bool

-- One constructor for each message.
pub data Diagnostic : Type 0 where
  unsupported_option unsupported_language : Bytes → Diagnostic
  at_files_not_implemented too_many_outputs : Diagnostic
  missing_value : Bytes → Option Bytes → Diagnostic

-- What the loop changes: the configuration, `out_inputs`, and what is written to standard error.
pub record Parse : Type 0 where
  pub config : Config
  pub inputs : List InputFile
  pub errors : List Diagnostic

-- struct opt_action_param; `arg` is argp[0] and `next` is argp[1].
pub record OptActionParam : Type 0 where
  pub value : Option Bytes
  pub arg : Bytes
  pub next : Option Bytes
  pub is_separate : Bool

pub fwd : Bytes → Bool → Parse → Parse
fwd arg also_runtime st =
    let added : CompilerArg = record { arg = arg; also_runtime = also_runtime } in
    record st {
      config = record (st.config) { compiler_args = st.config.compiler_args ++ added ∷ [] };
    }

-- An error message, and `config->invalid = true`.
pub fail : Diagnostic → Parse → Parse
fail e st = record st {
  config = record (st.config) { invalid = true };
  errors = st.errors ++ e ∷ [];
}

pub reject_arg : Bytes → Parse → Parse
unfolding fail
reject_arg arg st = fail (unsupported_option arg) st

-- forward and forward_no_rt. argp[1] is there whenever `separate` is set.
pub forward_args : Bool → OptActionParam → Parse → Parse
unfolding fwd
forward_args also_runtime p st =
    let first = fwd p.arg also_runtime st in
    if p.is_separate
    then elim p.next [ none ↦ first | some v ↦ fwd v also_runtime first ]
    else first

pub set_output_to : Option Bytes → Parse → Parse
unfolding fail
set_output_to value st = elim st.config.output [
  | some _ ↦ fail too_many_outputs st
  | none ↦ record st { config = record (st.config) { output = value } }
]

-- The value is there: `-x` takes one.
pub check_language : Option Bytes → Parse → Parse
unfolding fail bytes_eq
check_language none st = st
check_language (some v) st =
    if bytes_eq v (codes "c++") then st else fail (unsupported_language v) st

-- The action functions; `none` is `exit(0)`.
pub act : OptAction → OptActionParam → Parse → Option Parse
unfolding forward_args reject_arg set_output_to check_language
act forward p st = some (forward_args true p st)
act forward_no_rt p st = some (forward_args false p st)
act reject p st = some (reject_arg p.arg st)
act set_output p st = some (set_output_to p.value st)
act set_compile p st = some (record st { config = record (st.config) { compile = true } })
act set_preproc p st = some (record st { config = record (st.config) { preproc = true } })
act set_nowarn p st =
    some (forward_args true p (record st { config = record (st.config) { nowarn = true } }))
act set_verbose p st =
    some (forward_args true p (record st { config = record (st.config) { verbose = true } }))
act dummy_set_language p st = some (check_language p.value st)
act help_and_exit p st = none

-- How a round of the loop ends; the flag of `advance` asks for one more shift of `argp`.
pub data Turn : Type 0 where
  advance : Parse → Bool → Turn
  exits undefined : Turn

pub run_action : Option OptAction → OptActionParam → Bool → Parse → Turn
unfolding act
run_action none p shift st = undefined
run_action (some a) p shift st = elim (act a p st) [ none ↦ exits | some st' ↦ advance st' shift ]

-- The label `value_in_next_arg`.
pub value_in_next_arg : FoundKey → Bytes → Option Bytes → Parse → Turn
unfolding run_action fail
value_in_next_arg key arg none st = advance (fail (missing_value key.str key.desc) st) false
value_in_next_arg key arg (some v) st =
    run_action key.action (record { value = some v; arg = arg; next = some v; is_separate = true })
      true st

-- A value that stands in the same argument; `none` where the option takes none.
pub run_here : FoundKey → Option Bytes → Bytes → Option Bytes → Parse → Turn
unfolding run_action
run_here key value arg next st =
    run_action key.action (record { value = value; arg = arg; next = next; is_separate = false })
      false st

-- The switch over `key.syntax`, with `*value` split off.
pub parse_value : OptionSyntax → FoundKey → Bytes → Bytes → Option Bytes → Parse → Turn
unfolding run_here value_in_next_arg reject_arg
parse_value immediate key value arg next st = run_here key (some value) arg next st
parse_value imm_or_sep key (c ∷ value) arg next st = run_here key (some (c ∷ value)) arg next st
parse_value imm_or_sep key [] arg next st = value_in_next_arg key arg next st
parse_value separate key (c ∷ value) arg next st = advance (reject_arg arg st) false
parse_value separate key [] arg next st = value_in_next_arg key arg next st
parse_value no_arg key (c ∷ value) arg next st = advance (reject_arg arg st) false
parse_value no_arg key [] arg next st = run_here key none arg next st

-- An argument that begins with a dash, and the entry that was looked up for it.
pub parse_found : Option FoundKey → Bytes → Option Bytes → Parse → Turn
unfolding parse_value reject_arg
parse_found none arg next st = advance (reject_arg arg st) false
parse_found (some key) arg next st =
    parse_value key.syntax key (drop (length key.str) arg) arg next st

pub parse_option : Bytes → Option Bytes → Parse → Turn
unfolding lookup_opt parse_found
parse_option arg next st = parse_found (lookup_opt arg) arg next st

pub add_input : Bytes → Parse → Parse
add_input arg st =
    let file : InputFile = record {
      name = arg;
      pos_between_opts = length st.config.compiler_args;
    } in
    record st { inputs = st.inputs ++ file ∷ [] }

-- One round of the loop, at an argument and the one behind it.
pub parse_arg : Bytes → Option Bytes → Parse → Turn
unfolding add_input reject_arg fail
parse_arg [] next st = advance (add_input [] st) false
parse_arg (c ∷ arg) next st =
    if c == b'@'
    then advance (fail at_files_not_implemented (reject_arg (c ∷ arg) st)) false
    else if c == b'-'
    then parse_option (c ∷ arg) next st
    else advance (add_input (c ∷ arg) st) false

-- How `dcc_parse_args` ends.
pub data Outcome : Type 0 where
  parsed : Parse → Outcome
  exited undefined : Outcome

-- The flag is set where the argument was taken by the option before it.
pub parse_loop : List Bytes → Bool → Parse → Outcome
unfolding parse_arg
parse_loop [] shift st = parsed st
parse_loop (arg ∷ rest) true st = parse_loop rest false st
parse_loop (arg ∷ rest) false st = elim (parse_arg arg (head? rest) st) [
  | advance st' shift ↦ parse_loop rest shift st'
  | exits ↦ exited
  | Turn.undefined ↦ Outcome.undefined
]

abbrev pub start : Parse
start = record {
  config = record {
    compiler_args = [];
    output = none;
    compile = false;
    preproc = false;
    nowarn = false;
    verbose = false;
    invalid = false;
  };
  inputs = [];
  errors = [];
}

-- `argv` is what follows the program's name.
unfoldable pub dcc_parse_args : List Bytes → Outcome
unfolding parse_loop parse_option
dcc_parse_args argv = parse_loop argv false start
