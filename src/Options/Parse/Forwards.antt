-- ===== src/Options/Parse/Forwards.antt =====
-- dcc/dcc_options.c: what one option adds to the compiler's arguments.
use mathlib.Core.List.{Sublist, nil-sublist}
use mathlib.Core.List.Sublist
use doarr.Base.{
  ◌≤◌, Bytes, length, Bool, true, false, Option, none, some, List, [], ◌∷◌, ◌++◌, ◌≡◌, suc, subst,
  Option-cases, refl, ap, map, arith, inl, inr, if◌then◌else◌, append_assoc, append-nil,
}
use doarr.Options.Table.{
  OptionSyntax, no_arg, immediate, separate, imm_or_sep, OptAction, forward, forward_no_rt,
  set_nowarn, set_verbose,
}
use doarr.Options.Lookup.{FoundKey, lookup_opt}
use doarr.Options.Parse.{
  CompilerArg, Parse, OptActionParam, act, Turn, advance, run_action, value_in_next_arg, run_here,
  parse_value, parse_option, parse_found, reject_arg, fail, forward_args,
}

abbrev pub words : List CompilerArg → List Bytes
words = map (λ a. a.arg)

-- The option's own effect on the arrays, when it is given the arguments `ws`.
abbrev pub Forwards : Parse → Parse → List Bytes → Type 0
Forwards st st' ws =
    (xs : List CompilerArg) × (st'.config.compiler_args ≡ st.config.compiler_args ++ xs)
    × (st'.inputs ≡ st.inputs)
    × Sublist (words xs) ws
    × (length xs ≤ length ws)

-- The arguments that a parameter shows to an action.
abbrev shown : OptActionParam → List Bytes
shown p = p.arg ∷ (if p.is_separate then elim p.next [ none ↦ [] | some v ↦ v ∷ [] ] else [])

pub keeps :
    (st st' : Parse) (ws : List Bytes)
    → st'.config.compiler_args ≡ st.config.compiler_args
    → st'.inputs ≡ st.inputs
    → Forwards st st' ws
keeps st st' ws a i = ([], rw append-nil a, i, nil-sublist ws, omega arith)

tag : Bool → List Bytes → List CompilerArg
tag flag [] = []
tag flag (w ∷ ws) = record { arg = w; also_runtime = flag } ∷ tag flag ws

words-tag : (flag : Bool) (ws : List Bytes) → words (tag flag ws) ≡ ws
unfolding tag
words-tag flag [] = refl
words-tag flag (w ∷ ws) = ap (λ t. w ∷ t) (words-tag flag ws)

length-tag : (flag : Bool) (ws : List Bytes) → length (tag flag ws) ≡ length ws
unfolding tag
length-tag flag [] = refl
length-tag flag (w ∷ ws) = ap suc (length-tag flag ws)

forward_args-tag :
    (flag : Bool) (p : OptActionParam) (st : Parse)
    → (forward_args flag p st).config.compiler_args ≡ st.config.compiler_args ++ tag flag (shown p)
unfolding forward_args tag
forward_args-tag flag p st = elim (Option-cases p.next) [
  | inl e ↦ ground arith
  | inr (v, e) ↦ ground (arith, append_assoc st.config.compiler_args (one p.arg) (one v))
]
  where
    one : Bytes → List CompilerArg
    one w = record { arg = w; also_runtime = flag } ∷ []

forward_args-inputs :
    (flag : Bool) (p : OptActionParam) (st : Parse) → (forward_args flag p st).inputs ≡ st.inputs
unfolding forward_args
forward_args-inputs flag p st = ground arith

forwards :
    (flag : Bool) (p : OptActionParam) (st st' : Parse)
    → st'.config.compiler_args ≡ st.config.compiler_args ++ tag flag (shown p)
    → st'.inputs ≡ st.inputs
    → Forwards st st' (shown p)
forwards flag p st st' a i = (
  tag flag (shown p),
  a,
  i,
  rw words-tag (Sublist.refl (shown p)),
  omega (arith, length-tag flag (shown p)),
)

act-Forwards :
    (a : OptAction) (p : OptActionParam) (st st' : Parse)
    → act a p st ≡ some st'
    → Forwards st st' (shown p)
unfolding act
act-Forwards forward p st st' h =
    forwards true p st st' (ground (arith, forward_args-tag true p st))
      (ground (arith, forward_args-inputs true p st))
act-Forwards forward_no_rt p st st' h =
    forwards false p st st' (ground (arith, forward_args-tag false p st))
      (ground (arith, forward_args-inputs false p st))
act-Forwards set_nowarn p st st' h =
    let s = record st { config = record (st.config) { nowarn = true } } in
    forwards true p st st' (ground (arith, forward_args-tag true p s))
      (ground (arith, forward_args-inputs true p s))
act-Forwards set_verbose p st st' h =
    let s = record st { config = record (st.config) { verbose = true } } in
    forwards true p st st' (ground (arith, forward_args-tag true p s))
      (ground (arith, forward_args-inputs true p s))
act-Forwards _ p st st' h = keeps st st' (shown p) (ground arith) (ground arith)

-- The arguments that a round takes from the command line.
abbrev pub taken : Bytes → Option Bytes → Bool → List Bytes
taken arg next shift = arg ∷ (if shift then elim next [ none ↦ [] | some v ↦ v ∷ [] ] else [])

pub run_action-eq-advance :
    (a : OptAction) (p : OptActionParam) (b : Bool) (st st' : Parse) (shift : Bool)
    → run_action (some a) p b st ≡ advance st' shift
    → (act a p st ≡ some st') × (b ≡ shift)
unfolding run_action
run_action-eq-advance a p b st st' shift h = elim (Option-cases (act a p st)) [
  | inl e ↦ ground arith
  | inr (s, e) ↦ (ground arith, ground arith)
]

run_action-Forwards :
    (a : Option OptAction) (p : OptActionParam) (st st' : Parse) (shift : Bool)
    → run_action a p p.is_separate st ≡ advance st' shift
    → Forwards st st' (taken p.arg p.next shift)
run_action-Forwards none p st st' shift h = unfold run_action in cc
run_action-Forwards (some a) p st st' shift h =
    let (e, q) = run_action-eq-advance a p p.is_separate st st' shift h in
    subst (λ b. Forwards st st' (taken p.arg p.next b)) q (act-Forwards a p st st' e)

run_here-Forwards :
    (key : FoundKey) (value : Option Bytes) (arg : Bytes) (next : Option Bytes) (st st' : Parse)
    (shift : Bool)
    → run_here key value arg next st ≡ advance st' shift
    → Forwards st st' (taken arg next shift)
unfolding run_here
run_here-Forwards key value arg next st st' shift h =
    run_action-Forwards key.action _ st st' shift h

value_in_next_arg-Forwards :
    (key : FoundKey) (arg : Bytes) (next : Option Bytes) (st st' : Parse) (shift : Bool)
    → value_in_next_arg key arg next st ≡ advance st' shift
    → Forwards st st' (taken arg next shift)
unfolding value_in_next_arg
value_in_next_arg-Forwards key arg none st st' shift h =
    keeps st st' _ (unfold fail in ground arith) (unfold fail in ground arith)
value_in_next_arg-Forwards key arg (some v) st st' shift h =
    run_action-Forwards key.action _ st st' shift h

reject_arg-Forwards :
    (arg : Bytes) (st st' : Parse) (ws : List Bytes) (b shift : Bool)
    → ◌≡◌ {A = Turn} (advance (reject_arg arg st) b) (advance st' shift)
    → Forwards st st' ws
unfolding reject_arg
reject_arg-Forwards arg st st' ws b shift h = keeps st st' ws (ground arith) (ground arith)

parse_value-Forwards :
    (x : OptionSyntax) (key : FoundKey) (value arg : Bytes) (next : Option Bytes) (st st' : Parse)
    (shift : Bool)
    → parse_value x key value arg next st ≡ advance st' shift
    → Forwards st st' (taken arg next shift)
unfolding parse_value
parse_value-Forwards immediate key value arg next st st' shift h =
    run_here-Forwards key _ arg next st st' shift h
parse_value-Forwards imm_or_sep key (c ∷ value) arg next st st' shift h =
    run_here-Forwards key _ arg next st st' shift h
parse_value-Forwards imm_or_sep key [] arg next st st' shift h =
    value_in_next_arg-Forwards key arg next st st' shift h
parse_value-Forwards separate key (c ∷ value) arg next st st' shift h =
    reject_arg-Forwards arg st st' _ false shift h
parse_value-Forwards separate key [] arg next st st' shift h =
    value_in_next_arg-Forwards key arg next st st' shift h
parse_value-Forwards no_arg key (c ∷ value) arg next st st' shift h =
    reject_arg-Forwards arg st st' _ false shift h
parse_value-Forwards no_arg key [] arg next st st' shift h =
    run_here-Forwards key _ arg next st st' shift h

parse_found-Forwards :
    (found : Option FoundKey) (arg : Bytes) (next : Option Bytes) (st st' : Parse) (shift : Bool)
    → parse_found found arg next st ≡ advance st' shift
    → Forwards st st' (taken arg next shift)
unfolding parse_found
parse_found-Forwards none arg next st st' shift h = reject_arg-Forwards arg st st' _ false shift h
parse_found-Forwards (some k) arg next st st' shift h =
    parse_value-Forwards k.syntax k _ arg next st st' shift h

pub parse_option-Forwards :
    (arg : Bytes) (next : Option Bytes) (st st' : Parse) (shift : Bool)
    → parse_option arg next st ≡ advance st' shift
    → Forwards st st' (taken arg next shift)
parse_option-Forwards arg next st st' shift h =
    parse_found-Forwards (lookup_opt arg) arg next st st' shift (unfold parse_option in h)
