-- ===== src/Gen/Source/Entries.antt =====
-- dcc/dcc_gen.c: an entry is written for each exported function of the source.
use doarr.Base.{
  ℕ, zero, suc, ◌<◌, ◌≡◌, Bytes, Bool, true, false, some, List, [], ◌∷◌, ◌++◌, arith, refl,
  append_assoc,
}
use doarr.Scan.Chars.{char_is_ident, weight}
use doarr.Scan.Total.{dcc_scan-export-lt}
use doarr.Scan.Tokens.{
  Token, spell_all, prev_after_all, CanFollowAll, dcc_scan-finds, dcc_scan-finds_none,
}
use doarr.Scan.Declarations.{Declaration, IsGood, declared}
use doarr.Gen.Source.{
  generated, entries_loop, generate_c_part1, generated_file_prolog, generated_file_fn_entry,
  compiler_args_text,
}

-- An exported function with the text in front of it, and a source of such parts and a last text.
pub record Part : Type 0 where
  pub before : List Token
  pub exported : Declaration

abbrev pub source_of : List Part → List Token → Bytes
source_of [] tail = spell_all tail []
source_of (p ∷ ps) tail = spell_all p.before (declared p.exported (source_of ps tail))

abbrev pub IsPart : Part → Type 0
IsPart p =
    CanFollowAll b' ' p.before
    × (char_is_ident (prev_after_all b' ' p.before) ≡ false)
    × IsGood p.exported

abbrev pub AreParts : List Part → Type 0
AreParts [] = Unit
AreParts (p ∷ ps) = IsPart p × AreParts ps

abbrev pub entries_of : ℕ → List Part → Bytes
entries_of file_index [] = []
entries_of file_index (p ∷ ps) =
    generated_file_fn_entry p.exported.name file_index ++ entries_of file_index ps

module _ (alloc : ℕ → Bool) (enough : (n : ℕ) → alloc n ≡ true) where
  entries_loop-entries_of :
      (fuel file_index : ℕ) (ps : List Part) (tail : List Token)
      → AreParts ps
      → CanFollowAll b' ' tail
      → weight (source_of ps tail) < fuel
      → entries_loop false alloc fuel file_index (source_of ps tail)
        ≡ some (some (entries_of file_index ps))
  unfolding entries_loop
  entries_loop-entries_of zero i ps tail h t lt = absurd (omega arith)
  entries_loop-entries_of (suc fuel) i [] tail h t lt =
      rw (dcc_scan-finds_none alloc tail t, entries_loop) refl
  entries_loop-entries_of (suc fuel) i (p ∷ ps) tail ((c, o, g), h) t lt =
      let rest = source_of ps tail in
      let found = dcc_scan-finds false alloc p.before p.exported rest enough c o g in
      let less =
        dcc_scan-export-lt false alloc (source_of (p ∷ ps) tail) p.exported.name rest found in
      rw (found, entries_loop-entries_of fuel i ps tail h t (omega arith), entries_loop) refl

-- For a source with at least one exported function, and any tokens (Scan/Tokens) around the functions,
-- the first part is the prolog, an entry for each function in their order, each once, and the
-- literals of the compiler's arguments, if the stream has no error and the memory suffices.
pub generate_c_part1-entries_of :
    (alloc : ℕ → Bool) (struct_defs : Bytes) (file_index : ℕ) (args : List Bytes) (p : Part)
    (ps : List Part) (tail : List Token)
    → ((n : ℕ) → alloc n ≡ true)
    → AreParts (p ∷ ps)
    → CanFollowAll b' ' tail
    → generate_c_part1 false alloc struct_defs file_index (source_of (p ∷ ps) tail) args
      ≡ some (
          generated (
            generated_file_prolog struct_defs file_index
            ++ entries_of file_index (p ∷ ps)
            ++ compiler_args_text args))
unfolding generate_c_part1
generate_c_part1-entries_of alloc struct_defs i args p ps tail enough ((c, o, g), h) t =
    rw
      (
        dcc_scan-finds false alloc p.before p.exported (source_of ps tail) enough c o g,
        entries_loop-entries_of alloc enough (suc (weight (source_of ps tail))) i ps tail h t
            (omega arith),
        generate_c_part1,
      )
      (cc (
        append_assoc (generated_file_prolog struct_defs i)
          (generated_file_fn_entry p.exported.name i) (entries_of i ps)))
