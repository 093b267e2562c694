-- ===== src/Options/Parse/Reports.antt =====
-- dcc/dcc_options.c: `config->invalid` is set exactly where an error has been reported.
use mathlib.Core.List.{head?}
use doarr.Base.{
  ◌≡◌, inl, inr, Bool, true, false, Bytes, Option, none, some, List, [], ◌∷◌, ◌++◌, arith, refl,
  Option-cases,
}
use doarr.Options.Table.{
  OptionSyntax, no_arg, immediate, separate, imm_or_sep, OptAction, reject, set_output,
  dummy_set_language,
}
use doarr.Options.Lookup.{FoundKey, lookup_opt}
use doarr.Options.Parse.{
  Diagnostic, Parse, OptActionParam, fail, act, advance, run_action, value_in_next_arg, run_here,
  parse_value, parse_found, parse_option, parse_arg, parsed, parse_loop, start, dcc_parse_args,
}
use doarr.Options.Parse.Forwards.{run_action-eq-advance}
use doarr.Options.Parse.Order.{Turn-cases}

abbrev pub has_errors : List Diagnostic → Bool
has_errors [] = false
has_errors (_ ∷ _) = true

has_errors-append : (es : List Diagnostic) (e : Diagnostic) → has_errors (es ++ e ∷ []) ≡ true
has_errors-append [] e = refl
has_errors-append (_ ∷ es) e = refl

abbrev Reported : Parse → Type 0
Reported st = st.config.invalid ≡ has_errors st.errors

fail-Reported : (e : Diagnostic) (st : Parse) → Reported (fail e st)
unfolding fail
fail-Reported e st = ground (arith, has_errors-append st.errors e)

act-Reported :
    (a : OptAction) (p : OptActionParam) (st st' : Parse)
    → Reported st
    → act a p st ≡ some st'
    → Reported st'
unfolding act
act-Reported reject p st st' r h =
    ground (arith, has_errors-append st.errors (Diagnostic.unsupported_option p.arg))
act-Reported set_output p st st' r h =
    ground (arith, has_errors-append st.errors Diagnostic.too_many_outputs)
act-Reported dummy_set_language p st st' r h = elim (Option-cases p.value) [
  | inl e ↦ ground arith
  | inr (v, e) ↦ ground (arith, has_errors-append st.errors (Diagnostic.unsupported_language v))
]
act-Reported _ p st st' r h = ground arith

run_action-Reported :
    (a : Option OptAction) (p : OptActionParam) (b : Bool) (st st' : Parse) (shift : Bool)
    → Reported st
    → run_action a p b st ≡ advance st' shift
    → Reported st'
run_action-Reported none p b st st' shift r h = unfold run_action in cc
run_action-Reported (some a) p b st st' shift r h =
    act-Reported a p st st' r (run_action-eq-advance a p b st st' shift h).0

value_in_next_arg-Reported :
    (key : FoundKey) (arg : Bytes) (next : Option Bytes) (st st' : Parse) (shift : Bool)
    → Reported st
    → value_in_next_arg key arg next st ≡ advance st' shift
    → Reported st'
unfolding value_in_next_arg
value_in_next_arg-Reported key arg none st st' shift r h =
    ground (arith, has_errors-append st.errors (Diagnostic.missing_value key.str key.desc))
value_in_next_arg-Reported key arg (some v) st st' shift r h =
    run_action-Reported key.action _ true st st' shift r h

run_here-Reported :
    (key : FoundKey) (value : Option Bytes) (arg : Bytes) (next : Option Bytes) (st st' : Parse)
    (shift : Bool)
    → Reported st
    → run_here key value arg next st ≡ advance st' shift
    → Reported st'
unfolding run_here
run_here-Reported key value arg next st st' shift r h =
    run_action-Reported key.action _ false st st' shift r h

parse_value-Reported :
    (x : OptionSyntax) (key : FoundKey) (value arg : Bytes) (next : Option Bytes) (st st' : Parse)
    (shift : Bool)
    → Reported st
    → parse_value x key value arg next st ≡ advance st' shift
    → Reported st'
unfolding parse_value
parse_value-Reported immediate key value arg next st st' shift r h =
    run_here-Reported key _ arg next st st' shift r h
parse_value-Reported imm_or_sep key (c ∷ value) arg next st st' shift r h =
    run_here-Reported key _ arg next st st' shift r h
parse_value-Reported imm_or_sep key [] arg next st st' shift r h =
    value_in_next_arg-Reported key arg next st st' shift r h
parse_value-Reported separate key (c ∷ value) arg next st st' shift r h =
    ground (arith, has_errors-append st.errors (Diagnostic.unsupported_option arg))
parse_value-Reported separate key [] arg next st st' shift r h =
    value_in_next_arg-Reported key arg next st st' shift r h
parse_value-Reported no_arg key (c ∷ value) arg next st st' shift r h =
    ground (arith, has_errors-append st.errors (Diagnostic.unsupported_option arg))
parse_value-Reported no_arg key [] arg next st st' shift r h =
    run_here-Reported key _ arg next st st' shift r h

parse_found-Reported :
    (found : Option FoundKey) (arg : Bytes) (next : Option Bytes) (st st' : Parse) (shift : Bool)
    → Reported st
    → parse_found found arg next st ≡ advance st' shift
    → Reported st'
unfolding parse_found
parse_found-Reported none arg next st st' shift r h =
    ground (arith, has_errors-append st.errors (Diagnostic.unsupported_option arg))
parse_found-Reported (some k) arg next st st' shift r h =
    parse_value-Reported k.syntax k _ arg next st st' shift r h

parse_option-Reported :
    (arg : Bytes) (next : Option Bytes) (st st' : Parse) (shift : Bool)
    → Reported st
    → parse_option arg next st ≡ advance st' shift
    → Reported st'
parse_option-Reported arg next st st' shift r h =
    parse_found-Reported (lookup_opt arg) arg next st st' shift r (unfold parse_option in h)

parse_arg-Reported :
    (arg : Bytes) (next : Option Bytes) (st st' : Parse) (shift : Bool)
    → Reported st
    → parse_arg arg next st ≡ advance st' shift
    → Reported st'
unfolding parse_arg
parse_arg-Reported [] next st st' shift r h = ground arith
parse_arg-Reported (c ∷ arg) next st st' shift r h = ground (
  arith,
  parse_option-Reported (c ∷ arg) next st st' shift,
  has_errors-append (st.errors ++ Diagnostic.unsupported_option (c ∷ arg) ∷ [])
      Diagnostic.at_files_not_implemented,
)

parse_loop-Reported :
    (argv : List Bytes) (shift : Bool) (st st' : Parse)
    → Reported st
    → parse_loop argv shift st ≡ parsed st'
    → Reported st'
unfolding parse_loop
parse_loop-Reported [] shift st st' r h = ground arith
parse_loop-Reported (arg ∷ rest) true st st' r h = parse_loop-Reported rest false st st' r h
parse_loop-Reported (arg ∷ rest) false st st' r h =
    elim (Turn-cases (parse_arg arg (head? rest) st)) [
      | inl (s, b, e) ↦
          parse_loop-Reported rest b s st' (parse_arg-Reported arg (head? rest) st s b r e)
            (rw (e, parse_loop) at h)
      | inr (inl e) ↦ ground arith
      | inr (inr e) ↦ ground arith
    ]

-- When the loop ends, `config->invalid` is true if an error message was printed, and false if none
-- was: `main` stops without a message of its own exactly where there has been one.
pub dcc_parse_args-Reported :
    (argv : List Bytes) (st : Parse)
    → dcc_parse_args argv ≡ parsed st
    → st.config.invalid ≡ has_errors st.errors
dcc_parse_args-Reported argv st h =
    unfold dcc_parse_args in parse_loop-Reported argv false start st refl h
