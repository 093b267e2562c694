-- ===== src/Options/Parse/Order.antt =====
-- dcc/dcc_options.c: the order and the number of what the loop writes to its two arrays.
use mathlib.Core.List.{head?, Sublist, sublist-append_left, map-append}
use mathlib.Core.List.Sublist
use doarr.Base.{
  ◌+◌, ◌≤◌, Bytes, length, take, drop, Bool, true, false, Option, List, [], ◌∷◌, ◌++◌, ◌≡◌, ◌==◌,
  Bool-cases, subst, refl, arith, All, ◌⊎◌, inl, inr, if◌then◌else◌, append_assoc, append-nil,
  length-append, All-append, take-length_self, drop-length_self, take-append_le, drop-append_le,
}
use doarr.Options.Parse.{
  CompilerArg, InputFile, Parse, Turn, advance, parse_arg, add_input, parsed, parse_loop, start,
  dcc_parse_args,
}
use doarr.Options.Parse.Forwards.{words, Forwards, keeps, taken, parse_option-Forwards}

abbrev pub line : List CompilerArg → InputFile → List Bytes
line args file =
    words (take file.pos_between_opts args) ++ (file.name ∷ words (drop file.pos_between_opts args))

-- What holds of an input file when the arguments `seen` have been read.
abbrev pub Fits : List CompilerArg → List Bytes → InputFile → Type 0
Fits args seen file = (file.pos_between_opts ≤ length args) × Sublist (line args file) seen

record Inv (seen : List Bytes) (st : Parse) : Type 0 where
  in_order : Sublist (words st.config.compiler_args) seen
  files : All (Fits st.config.compiler_args seen) st.inputs
  room : length st.config.compiler_args + length st.inputs ≤ length seen

line-append :
    (args xs : List CompilerArg) (file : InputFile)
    → file.pos_between_opts ≤ length args
    → line (args ++ xs) file ≡ line args file ++ words xs
line-append args xs file h = simp (
  take-append_le file.pos_between_opts args xs h,
  drop-append_le file.pos_between_opts args xs h,
  map-append,
  append_assoc,
)

Fits-append :
    (args xs : List CompilerArg) (seen ws : List Bytes) (files : List InputFile)
    → Sublist (words xs) ws
    → All (Fits args seen) files
    → All (Fits (args ++ xs) (seen ++ ws)) files
Fits-append args xs seen ws [] s h = tt
Fits-append args xs seen ws (f ∷ fs) s ((le, sub), h) = (
  (omega (arith, length-append args xs), rw (line-append args xs f le) (Sublist.append sub s)),
  Fits-append args xs seen ws fs s h,
)

Forwards-Inv :
    (seen ws : List Bytes) (st st' : Parse)
    → Inv seen st
    → Forwards st st' ws
    → Inv (seen ++ ws) st'
Forwards-Inv seen ws st st' inv (xs, a, i, s, le) = record {
  in_order = rw (a, map-append) (Sublist.append inv.in_order s);
  files = rw (a, i) (Fits-append st.config.compiler_args xs seen ws st.inputs s inv.files);
  room =
      rw (a, i)
        (omega (arith, length-append st.config.compiler_args xs, length-append seen ws, inv.room));
}

Fits-later :
    (args : List CompilerArg) (seen ws : List Bytes) (files : List InputFile)
    → All (Fits args seen) files
    → All (Fits args (seen ++ ws)) files
Fits-later args seen ws [] h = tt
Fits-later args seen ws (f ∷ fs) ((le, sub), h) =
    ((le, Sublist.trans sub (sublist-append_left seen ws)), Fits-later args seen ws fs h)

add_input-Inv :
    (seen : List Bytes) (arg : Bytes) (st : Parse)
    → Inv seen st
    → Inv (seen ++ arg ∷ []) (add_input arg st)
unfolding add_input
add_input-Inv seen arg st inv = record {
  in_order = Sublist.trans inv.in_order (sublist-append_left seen (arg ∷ []));
  files =
      All-append (Fits args (seen ++ arg ∷ [])) st.inputs _
        (Fits-later args seen (arg ∷ []) st.inputs inv.files)
        (
          (
            omega arith,
            rw (take-length_self args, drop-length_self args)
                (Sublist.append inv.in_order (Sublist.refl (arg ∷ []))),
          ),
          tt,
        );
  room = omega (arith, length-append {0} st.inputs, length-append {0} seen, inv.room);
}
  where
    args : List CompilerArg
    args = st.config.compiler_args

parse_arg-cases :
    (arg : Bytes) (next : Option Bytes) (st st' : Parse) (shift : Bool)
    → parse_arg arg next st ≡ advance st' shift
    → Forwards st st' (taken arg next shift) ⊎ ((st' ≡ add_input arg st) × (shift ≡ false))
unfolding parse_arg
parse_arg-cases [] next st st' shift h = inr (ground arith, ground arith)
parse_arg-cases (c ∷ arg) next st st' shift h = elim (Bool-cases (c == b'@')) [
  | inl e ↦ inl (keeps st st' _ (ground arith) (ground arith))
  | inr e ↦ elim (Bool-cases (c == b'-')) [
    | inl d ↦ inl (parse_option-Forwards (c ∷ arg) next st st' shift (ground arith))
    | inr d ↦ inr (ground arith, ground arith)
  ]
]

parse_arg-Inv :
    (seen : List Bytes) (arg : Bytes) (next : Option Bytes) (st st' : Parse) (shift : Bool)
    → parse_arg arg next st ≡ advance st' shift
    → Inv seen st
    → Inv (seen ++ taken arg next shift) st'
parse_arg-Inv seen arg next st st' shift h inv = elim (parse_arg-cases arg next st st' shift h) [
  | inl f ↦ Forwards-Inv seen _ st st' inv f
  | inr (e, f) ↦ rw (e, f) (add_input-Inv seen arg st inv)
]

pub Turn-cases :
    (t : Turn)
    → ((st : Parse) × (shift : Bool) × (t ≡ advance st shift))
      ⊎ ((t ≡ Turn.exits) ⊎ (t ≡ Turn.undefined))
Turn-cases (advance st shift) = inl (st, shift, refl)
Turn-cases Turn.exits = inr (inl refl)
Turn-cases Turn.undefined = inr (inr refl)

-- What is left of the command line behind an argument.
abbrev left : Bool → List Bytes → List Bytes
left shift rest = if shift then drop 1 rest else rest

left-append :
    (seen : List Bytes) (arg : Bytes) (rest : List Bytes) (shift : Bool)
    → (seen ++ taken arg (head? rest) shift) ++ left shift rest ≡ seen ++ arg ∷ rest
left-append seen arg [] true = rw (append_assoc)
left-append seen arg [] false = rw (append_assoc)
left-append seen arg (v ∷ rest) true = rw (append_assoc)
left-append seen arg (v ∷ rest) false = rw (append_assoc)

parse_loop-Inv :
    (argv : List Bytes) (shift : Bool) (seen : List Bytes) (st st' : Parse)
    → Inv seen st
    → parse_loop argv shift st ≡ parsed st'
    → Inv (seen ++ left shift argv) st'
unfolding parse_loop
parse_loop-Inv [] shift seen st st' inv h = ground (arith, append-nil seen)
parse_loop-Inv (arg ∷ rest) true seen st st' inv h = parse_loop-Inv rest false seen st st' inv h
parse_loop-Inv (arg ∷ rest) false seen st st' inv h =
    elim (Turn-cases (parse_arg arg (head? rest) st)) [
      | inl (s, b, e) ↦
          subst (λ ws. Inv ws st') (left-append seen arg rest b)
            (parse_loop-Inv rest b (seen ++ taken arg (head? rest) b) s st'
              (parse_arg-Inv seen arg (head? rest) st s b e inv) (rw (e, parse_loop) at h))
      | inr (inl e) ↦ ground arith
      | inr (inr e) ↦ ground arith
    ]

start-Inv : Inv [] start
start-Inv = record { in_order = Sublist.refl []; files = tt; room = omega arith }

module _ (argv : List Bytes) (st : Parse) (h : dcc_parse_args argv ≡ parsed st) where
  inv : Inv argv st
  unfolding dcc_parse_args
  inv = parse_loop-Inv argv false [] start st start-Inv h

  -- When the loop over the arguments `argv` ends, the entries written to `compiler_args` and to
  -- `inputs` are together at most as many as the arguments. Each array is allocated with one
  -- entry more than that, so no write is out of bounds.
  pub dcc_parse_args-le : length st.config.compiler_args + length st.inputs ≤ length argv
  dcc_parse_args-le = inv.room

  -- For every input file that was found, its position lies within the compiler's arguments, and
  -- the arguments before it, its name and the arguments after it, as `exec_cxx` passes them, are a
  -- subsequence of the user's command line.
  pub dcc_parse_args-Fits : All (Fits st.config.compiler_args argv) st.inputs
  dcc_parse_args-Fits = inv.files
