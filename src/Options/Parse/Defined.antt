-- ===== src/Options/Parse/Defined.antt =====
-- dcc/dcc_options.c: the loop never calls through an `action` that was not set.
use mathlib.Core.List.{head?}
use doarr.Base.{
  Bytes, Bool, true, false, Option, none, some, List, [], ◌∷◌, ◌≡◌, ◌≢◌, arith, inl, inr, refl,
  Option-cases,
}
use doarr.Options.Table.{OptionSyntax, no_arg, immediate, separate, imm_or_sep, OptAction}
use doarr.Options.Lookup.{FoundKey, lookup_opt}
use doarr.Options.Lookup.Complete.{lookup_opt-IsFilled}
use doarr.Options.Parse.{
  Parse, OptActionParam, act, Turn, run_action, parse_value, parse_found, parse_option, parse_arg,
  parse_loop, Outcome, start, dcc_parse_args,
}
use doarr.Options.Parse.Order.{Turn-cases}

abbrev IsDefined : Turn → Type 0
IsDefined t = t ≢ Turn.undefined

run_action-IsDefined :
    (a : Option OptAction) (p : OptActionParam) (b : Bool) (st : Parse)
    → a ≢ none
    → IsDefined (run_action a p b st)
unfolding run_action
run_action-IsDefined none p b st h = absurd (h refl)
run_action-IsDefined (some a) p b st h =
    λ e. elim (Option-cases (act a p st)) [ inl q ↦ ground arith | inr (s, q) ↦ ground arith ]

parse_value-IsDefined :
    (x : OptionSyntax) (key : FoundKey) (value arg : Bytes) (next : Option Bytes) (st : Parse)
    → key.action ≢ none
    → IsDefined (parse_value x key value arg next st)
unfolding parse_value
parse_value-IsDefined immediate key value arg next st h =
    run_action-IsDefined key.action _ false st h
parse_value-IsDefined imm_or_sep key (c ∷ value) arg next st h =
    run_action-IsDefined key.action _ false st h
parse_value-IsDefined imm_or_sep key [] arg none st h = λ e. cc
parse_value-IsDefined imm_or_sep key [] arg (some v) st h =
    run_action-IsDefined key.action _ true st h
parse_value-IsDefined separate key (c ∷ value) arg next st h = λ e. cc
parse_value-IsDefined separate key [] arg none st h = λ e. cc
parse_value-IsDefined separate key [] arg (some v) st h =
    run_action-IsDefined key.action _ true st h
parse_value-IsDefined no_arg key (c ∷ value) arg next st h = λ e. cc
parse_value-IsDefined no_arg key [] arg next st h = run_action-IsDefined key.action _ false st h

parse_found-IsDefined :
    (found : Option FoundKey) (arg : Bytes) (next : Option Bytes) (st : Parse)
    → ((k : FoundKey) → found ≡ some k → k.action ≢ none)
    → IsDefined (parse_found found arg next st)
unfolding parse_found
parse_found-IsDefined none arg next st h = λ e. cc
parse_found-IsDefined (some k) arg next st h =
    parse_value-IsDefined k.syntax k _ arg next st (h k refl)

parse_option-IsDefined :
    (arg : Bytes) (next : Option Bytes) (st : Parse) → IsDefined (parse_option arg next st)
parse_option-IsDefined arg next st e =
    parse_found-IsDefined (lookup_opt arg) arg next st (λ k q. (lookup_opt-IsFilled arg k q).2)
      (unfold parse_option in e)

parse_arg-IsDefined :
    (arg : Bytes) (next : Option Bytes) (st : Parse) → IsDefined (parse_arg arg next st)
unfolding parse_arg
parse_arg-IsDefined [] next st = λ e. cc
parse_arg-IsDefined (c ∷ arg) next st =
    λ e. ground (arith, parse_option-IsDefined (c ∷ arg) next st)

parse_loop-ne-undefined :
    (argv : List Bytes) (shift : Bool) (st : Parse) → parse_loop argv shift st ≢ Outcome.undefined
unfolding parse_loop
parse_loop-ne-undefined [] shift st = λ e. cc
parse_loop-ne-undefined (arg ∷ rest) true st = parse_loop-ne-undefined rest false st
parse_loop-ne-undefined (arg ∷ rest) false st = λ h.
    elim (Turn-cases (parse_arg arg (head? rest) st)) [
      | inl (s, b, e) ↦ parse_loop-ne-undefined rest b s (rw (e, parse_loop) at h)
      | inr (inl e) ↦ ground arith
      | inr (inr e) ↦ parse_arg-IsDefined arg (head? rest) st e
    ]

-- Whatever the command line, the loop ends by returning or by `exit(0)` for the help text: no
-- option of the table is run through an action pointer that was never assigned.
pub dcc_parse_args-ne-undefined : (argv : List Bytes) → dcc_parse_args argv ≢ Outcome.undefined
unfolding dcc_parse_args
dcc_parse_args-ne-undefined argv = parse_loop-ne-undefined argv false start
