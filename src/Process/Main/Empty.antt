-- ===== src/Process/Main/Empty.antt =====
-- dcc/dcc_gen.c: the whole of dcc_gen_main.
use doarr.Base.{
  ℕ, suc, ◌+◌, ◌≡◌, Bytes, codes, Bool, true, false, ◌&&◌, ◌||◌, ltb, leb, All, map, length, Option,
  none, some, List, [], ◌∷◌, ◌++◌, if◌then◌else◌, Bool-cases, inl, inr, refl, arith, sym, ◌∙◌,
  subst,
}
use doarr.Options.Parse.{InputFile, Config}
use doarr.Process.Events.{
  TmpFile, tmp_pch, tmp_c, tmp_o, tmp_output_combined, tmp_output_file, word, file, tool, tool_ld,
  start, wait, open_final, preprocessor_output, History, Env, try, left_over, same_file, names,
}
use doarr.Process.File.{Tools, Result, run_tool, process_single_file}
use doarr.Process.Tidy.{IsTidy, after_file}
use doarr.Process.Tidy.Stages.{process_single_file-IsTidy}
use doarr.Process.Main.{
  outputs, unlink_outputs, process_files, combine_objects, write_outputs, checked_outputs,
  dcc_gen_main,
}
use doarr.Process.Main.Clean.{
  between, Behind, IsClean, given_up, unlinked, first-outputs, join_outputs-IsClean,
  move_objects-IsClean, combined_objects-IsClean,
}

or_assoc : (a b c : Bool) → (a || (b || c)) ≡ ((a || b) || c)
or_assoc true b c = refl
or_assoc false b c = refl

-- The command that combines the outputs names these and all.o.
names-combined :
    (fs : List TmpFile) (f : TmpFile)
    → names (map file fs ++ word (codes "-o") ∷ file tmp_output_combined ∷ []) f
      ≡ (names (map file fs) f || same_file tmp_output_combined f)
names-combined [] f = ground arith
names-combined (g ∷ fs) f = rw (names-combined fs f) (or_assoc (same_file g f) _ _)

written_combined : (a b c : Bool) → c ≡ a → ((a || b) || c) ≡ (b || a)
written_combined true true c e = refl
written_combined true false c e = refl
written_combined false true c e = refl
written_combined false false c e = e

-- A file's work behind which the loop goes on, or ends.
Stepped : ℕ → Result → Type 0
Stepped i (none, h) = Unit
Stepped i (some ok, h) = if ok then Behind 0 (suc i) h else Behind 0 i h

after_file-between :
    (i : ℕ) (before : TmpFile → Bool) (f : TmpFile)
    → ((f : TmpFile) → before f ≡ between 0 i f)
    → (after_file i true before f ≡ between 0 (suc i) f)
      × (after_file i false before f ≡ between 0 i f)
after_file-between i before tmp_pch e = (refl, refl)
after_file-between i before tmp_c e = (refl, refl)
after_file-between i before tmp_o e = (refl, refl)
after_file-between i before tmp_output_combined e = (e tmp_output_combined, e tmp_output_combined)
after_file-between i before (tmp_output_file j) e =
    let b : before (tmp_output_file j) ≡ (leb 0 j && ltb j i) = e (tmp_output_file j) in
    (ground (arith, b), ground (arith, b))

IsTidy-Stepped : (i : ℕ) (h : History) (r : Result) → IsTidy i h r → Behind 0 i h → Stepped i r
unfolding IsTidy Stepped
IsTidy-Stepped i h (none, h') t b = tt
IsTidy-Stepped i h (some true, h') (k, files) (only, e) = (
  subst (All (λ x. x ≡ preprocessor_output)) (sym k) (refl, only),
  λ f. files f ∙ (after_file-between i (left_over h) f e).0,
)
IsTidy-Stepped i h (some false, h') (k, files) (only, e) = (
  subst (All (λ x. x ≡ preprocessor_output)) (sym k) only,
  λ f. files f ∙ (after_file-between i (left_over h) f e).1,
)

-- The end of the loop.
Looped : ℕ → Result → Type 0
Looped n (none, h) = Unit
Looped n (some ok, h) = if ok then Behind 0 n h else IsClean (some false, h)

if_IsClean : (b : Bool) (x y : Result) → IsClean x → IsClean y → IsClean (if b then x else y)
if_IsClean true x y p q = p
if_IsClean false x y p q = q

either_IsClean :
    (o : Option Bytes) (x : Bytes → Result) (y : Result)
    → ((output : Bytes) → IsClean (x output))
    → IsClean y
    → IsClean (elim o [ some output ↦ x output | none ↦ y ])
either_IsClean none x y p q = q
either_IsClean (some output) x y p q = p output

nothing_yet : (f : TmpFile) → false ≡ between 0 0 f
nothing_yet tmp_pch = refl
nothing_yet tmp_c = refl
nothing_yet tmp_o = refl
nothing_yet tmp_output_combined = refl
nothing_yet (tmp_output_file j) = ground arith

finished-Looped : (n : ℕ) (h : History) → Behind 0 n h → Looped n (some true, h)
unfolding Looped
finished-Looped n h b = b

module _ (tools : Tools) (env : Env) (config : Config) where
  loop_step :
      (i n : ℕ) (inputs : List InputFile) (result : Option Bool) (h : History)
      → Stepped i (result, h)
      → (Behind 0 (suc i) h → Looped n (process_files tools env config (suc i) inputs h))
      → Looped n (elim result [
        | none ↦ (none, h)
        | some ok ↦
            let rest = process_files tools env config (suc i) inputs h in
            if ok
            then rest
            else (some false, (unlink_outputs tools env config (outputs 0 i) true h).1)
      ])
  unfolding Stepped Looped
  loop_step i n inputs none h s rest = tt
  loop_step i n inputs (some true) h s rest = rest s
  loop_step i n inputs (some false) h s rest = unlinked tools env config i true false h s

  process_files-Looped :
      (i n : ℕ) (inputs : List InputFile) (h : History)
      → n ≡ i + length inputs
      → Behind 0 i h
      → Looped n (process_files tools env config i inputs h)
  unfolding process_files
  process_files-Looped i n [] h e b =
      let same : i ≡ n = omega (arith, e) in finished-Looped n h (subst (λ m. Behind 0 m h) same b)
  process_files-Looped i n (input ∷ inputs) h e b =
      let r = process_single_file tools env config i input h in
      let s =
        IsTidy-Stepped i h r
          (process_single_file-IsTidy tools env config i input h (b.1 tmp_c) (b.1 tmp_o)) b in
      loop_step i n inputs r.0 r.1 s (process_files-Looped (suc i) n inputs r.1 (omega (arith, e)))

  combine_objects-IsClean :
      (n : ℕ) (output : Bytes) (h : History)
      → Behind 0 n h
      → IsClean (combine_objects tools env config n output h)
  unfolding combine_objects run_tool try
  combine_objects-IsClean n output h (only, files) =
      let args =
        word (codes "-r") ∷ map file (outputs 0 n)
        ++ word (codes "-o") ∷ file tmp_output_combined ∷ [] in
      let started = start (tool tool_ld) (word (tools.name tool_ld) ∷ args) in
      let named : (f : TmpFile)
          → (names args f || left_over h f) ≡ (same_file tmp_output_combined f || between 0 n f) =
        λ f.
          rw (names-combined (outputs 0 n) f, first-outputs n f)
            (written_combined _ _ _ (files f)) in
      elim (Bool-cases (env h started)) [
        | inr e ↦ rw e (combined_objects-IsClean tools env config n output false false _ only files)
        | inl e ↦ elim (Bool-cases (env ((started, true) ∷ h) (wait (tool tool_ld)))) [
          | inl d ↦
              rw (e, d) (combined_objects-IsClean tools env config n output true true _ only named)
          | inr d ↦
              rw (e, d) (combined_objects-IsClean tools env config n output true false _ only named)
        ]
      ]

  write_outputs-IsClean :
      (inputs : List InputFile) (h : History)
      → Behind 0 (length inputs) h
      → IsClean (write_outputs tools env config inputs h)
  unfolding write_outputs try
  write_outputs-IsClean inputs h b =
      let n = length inputs in
      either_IsClean config.output _ _
        (λ output. if_IsClean config.compile _ _ (combine_objects-IsClean n output h b) (
          if_IsClean (env h open_final) _ _ (join_outputs-IsClean tools env config n _ b)
            (unlinked tools env config n true false _ b)))
        (if_IsClean config.compile _ _
          (move_objects-IsClean tools env config 0 n inputs true h (omega arith) b)
          (join_outputs-IsClean tools env config n h b))

  checked_outputs-IsClean :
      (inputs : List InputFile) (h : History)
      → Behind 0 (length inputs) h
      → IsClean (checked_outputs tools env config inputs h)
  unfolding checked_outputs
  checked_outputs-IsClean inputs h b =
      let written = write_outputs-IsClean inputs h b in
      if_IsClean config.preproc _ _ (if_IsClean config.compile _ _ (given_up h) written)
        (if_IsClean config.compile _ _ written (given_up h))

  main_step :
      (inputs : List InputFile) (result : Option Bool) (h : History)
      → Looped (length inputs) (result, h)
      → IsClean (elim result [
        | none ↦ (none, h)
        | some ok ↦ if ok then checked_outputs tools env config inputs h else (some false, h)
      ])
  unfolding Looped
  main_step inputs none h l = given_up h
  main_step inputs (some true) h l = checked_outputs-IsClean inputs h l
  main_step inputs (some false) h l = l

  -- Behind dcc_gen_main every file that may have been made was to be removed.
  pub dcc_gen_main-IsClean :
      (inputs : List InputFile) → IsClean (dcc_gen_main tools env config inputs [])
  unfolding dcc_gen_main
  dcc_gen_main-IsClean inputs =
      let r = process_files tools env config 0 inputs [] in
      main_step inputs r.0 r.1
        (process_files-Looped 0 (length inputs) inputs [] (omega arith) (tt, nothing_yet))
