-- ===== src/Process/Main/Clean.antt =====
-- dcc/dcc_gen.c: behind dcc_gen_main the temporary directory is empty.
use doarr.Base.{
  ℕ, zero, suc, ◌+◌, ◌<◌, ◌≡◌, ◌==◌, Bytes, Bool, true, false, not, ◌&&◌, ◌||◌, ltb, leb, All, map,
  length, none, some, List, [], ◌∷◌, Bool-cases, Option-cases, inl, inr, refl, arith, ap, sym, ◌∙◌,
  subst,
}
use doarr.Options.Parse.{InputFile, Config}
use doarr.Files.Names.{object_name}
use doarr.Process.Events.{
  TmpFile, tmp_pch, tmp_c, tmp_o, tmp_output_combined, tmp_output_file, file, unlink,
  cat_unlink_close, move_from_tmp, preprocessor_output, History, Env, tell, try, held, left_over,
  same_file, names,
}
use doarr.Process.File.{Tools, Result}
use doarr.Process.Main.{outputs, unlink_outputs, combined_objects, join_outputs, move_objects}

-- The outputs from the index `i` on in front of the index `n`.
abbrev pub between : ℕ → ℕ → TmpFile → Bool
between i n (tmp_output_file j) = leb i j && ltb j n
between i n tmp_pch = false
between i n tmp_c = false
between i n tmp_o = false
between i n tmp_output_combined = false

-- Nothing is held but the outputs of preprocessors.
abbrev pub OnlyOutputs : History → Type 0
OnlyOutputs h = All (λ x. x ≡ preprocessor_output) (held h)

abbrev pub Behind : ℕ → ℕ → History → Type 0
Behind i n h = OnlyOutputs h × ((f : TmpFile) → left_over h f ≡ between i n f)

-- The function has given up at an assertion or at a null stream; or every file was to be removed, and
-- dcc_wait has been called for every child.
unfoldable pub IsClean : Result → Type 0
IsClean (none, h) = Unit
IsClean (some ok, h) = OnlyOutputs h × ((f : TmpFile) → left_over h f ≡ false)

pub emptied-IsClean :
    (ok : Bool) (h : History)
    → OnlyOutputs h
    → ((f : TmpFile) → left_over h f ≡ false)
    → IsClean (some ok, h)
unfolding IsClean
emptied-IsClean ok h only gone = (only, gone)

pub given_up : (h : History) → IsClean (none, h)
unfolding IsClean
given_up h = tt

pub names-outputs : (i n : ℕ) (f : TmpFile) → names (map file (outputs i n)) f ≡ between i (i + n) f
names-outputs i zero tmp_pch = refl
names-outputs i zero tmp_c = refl
names-outputs i zero tmp_o = refl
names-outputs i zero tmp_output_combined = refl
names-outputs i zero (tmp_output_file j) = ground arith
names-outputs i (suc n) tmp_pch = names-outputs (suc i) n tmp_pch
names-outputs i (suc n) tmp_c = names-outputs (suc i) n tmp_c
names-outputs i (suc n) tmp_o = names-outputs (suc i) n tmp_o
names-outputs i (suc n) tmp_output_combined = names-outputs (suc i) n tmp_output_combined
names-outputs i (suc n) (tmp_output_file j) =
    ap (λ rest. (i == j) || rest) (names-outputs (suc i) n (tmp_output_file j)) ∙ ground arith

pub first-outputs : (n : ℕ) (f : TmpFile) → names (map file (outputs 0 n)) f ≡ between 0 n f
first-outputs n f =
    let e : 0 + n ≡ n = omega arith in names-outputs 0 n f ∙ ap (λ m. between 0 m f) e

empty_between : (i n : ℕ) (f : TmpFile) → n ≡ i → between i n f ≡ false
empty_between i n tmp_pch e = refl
empty_between i n tmp_c e = refl
empty_between i n tmp_o e = refl
empty_between i n tmp_output_combined e = refl
empty_between i n (tmp_output_file j) e = ground arith

first_moved :
    (i n : ℕ) (f : TmpFile)
    → i < n
    → (not (same_file (tmp_output_file i) f) && between i n f) ≡ between (suc i) n f
first_moved i n tmp_pch e = refl
first_moved i n tmp_c e = refl
first_moved i n tmp_o e = refl
first_moved i n tmp_output_combined e = refl
first_moved i n (tmp_output_file j) e = ground arith

merged : (a b c : Bool) → (not b && (not a && c)) ≡ (not (a || b) && c)
merged true true c = refl
merged true false c = refl
merged false true c = refl
merged false false c = refl

none_left : (a b : Bool) → a ≡ b → (not a && b) ≡ false
none_left true b e = refl
none_left false b e = sym e

rest_gone : (made a b c : Bool) → b ≡ c → (not a && (not b && ((made && a) || c))) ≡ false
rest_gone made true b c e = refl
rest_gone true false true c e = refl
rest_gone true false false c e = sym e
rest_gone false false true c e = refl
rest_gone false false false c e = sym e

module _ (tools : Tools) (env : Env) (config : Config) where
  unlink_outputs-present :
      (fs : List TmpFile) (ok : Bool) (h : History) (f : TmpFile)
      → left_over (unlink_outputs tools env config fs ok h).1 f
        ≡ (not (names (map file fs) f) && left_over h f)
  unfolding unlink_outputs tell
  unlink_outputs-present [] ok h f = refl
  unlink_outputs-present (g ∷ fs) ok h f =
      unlink_outputs-present fs (ok && env h (unlink g)) ((unlink g, env h (unlink g)) ∷ h) f
      ∙ merged (same_file g f) (names (map file fs) f) (left_over h f)

  unlink_outputs-held :
      (fs : List TmpFile) (ok : Bool) (h : History)
      → held (unlink_outputs tools env config fs ok h).1 ≡ held h
  unfolding unlink_outputs tell
  unlink_outputs-held [] ok h = refl
  unlink_outputs-held (g ∷ fs) ok h =
      unlink_outputs-held fs (ok && env h (unlink g)) ((unlink g, env h (unlink g)) ∷ h)

  -- The outputs of the first `n` files are removed.
  pub unlinked :
      (n : ℕ) (ok b : Bool) (h : History)
      → Behind 0 n h
      → IsClean (some b, (unlink_outputs tools env config (outputs 0 n) ok h).1)
  unlinked n ok b h (only, files) =
      emptied-IsClean b (unlink_outputs tools env config (outputs 0 n) ok h).1
        (subst (All (λ x. x ≡ preprocessor_output)) (sym (unlink_outputs-held (outputs 0 n) ok h))
          only)
        (λ f.
          unlink_outputs-present (outputs 0 n) ok h f
          ∙ none_left _ _ (first-outputs n f ∙ sym (files f)))

  pub join_outputs-IsClean :
      (n : ℕ) (h : History) → Behind 0 n h → IsClean (join_outputs tools env config n h)
  unfolding join_outputs try
  join_outputs-IsClean n h (only, files) =
      let gone : (f : TmpFile) → (not (names (map file (outputs 0 n)) f) && left_over h f) ≡ false =
        λ f. none_left _ _ (first-outputs n f ∙ sym (files f)) in
      elim (Bool-cases (env h (cat_unlink_close (outputs 0 n)))) [
        | inl e ↦ rw e (emptied-IsClean true _ only gone)
        | inr e ↦ rw e (emptied-IsClean false _ only gone)
      ]

  pub move_objects-IsClean :
      (i n : ℕ) (inputs : List InputFile) (ok : Bool) (h : History)
      → n ≡ i + length inputs
      → Behind i n h
      → IsClean (move_objects tools env config i inputs ok h)
  unfolding move_objects tell
  move_objects-IsClean i n [] ok h e (only, files) =
      emptied-IsClean ok h only (λ f. files f ∙ empty_between i n f (ground arith))
  move_objects-IsClean i n (input ∷ inputs) ok h e (only, files) =
      elim (Option-cases (object_name input.name)) [
        | inl a ↦ rw (move_objects, a) (given_up h)
        | inr (name, a) ↦
            let moved = move_from_tmp (tmp_output_file i) name in
            rw (move_objects, a)
              (move_objects-IsClean (suc i) n inputs (ok && env h moved) ((moved, env h moved) ∷ h)
                (ground arith)
                (
                  only,
                  λ f.
                      ap (λ b. not (same_file (tmp_output_file i) f) && b) (files f)
                      ∙ first_moved i n f (ground arith),
                ))
      ]

  pub combined_objects-IsClean :
      (n : ℕ) (output : Bytes) (made ok : Bool) (h : History)
      → OnlyOutputs h
      → ((f : TmpFile)
          → left_over h f ≡ ((made && same_file tmp_output_combined f) || between 0 n f))
      → IsClean (combined_objects tools env config n output ok h)
  unfolding combined_objects tell try
  combined_objects-IsClean n output made ok h only files =
      let (ok', h') = unlink_outputs tools env config (outputs 0 n) ok h in
      let only' : OnlyOutputs h' =
        subst (All (λ x. x ≡ preprocessor_output)) (sym (unlink_outputs-held (outputs 0 n) ok h))
          only in
      let gone : (f : TmpFile) → (not (same_file tmp_output_combined f) && left_over h' f) ≡ false =
        λ f.
          ap (λ b. not (same_file tmp_output_combined f) && b)
            (unlink_outputs-present (outputs 0 n) ok h f
              ∙ ap (λ b. not (names (map file (outputs 0 n)) f) && b) (files f))
          ∙ rest_gone made _ _ _ (first-outputs n f) in
      elim (Bool-cases (unlink_outputs tools env config (outputs 0 n) ok h).0) [
        | inl e ↦ elim (Bool-cases (env h' (move_from_tmp tmp_output_combined output))) [
          | inl b ↦ rw (e, b) (emptied-IsClean true _ only' gone)
          | inr b ↦ rw (e, b) (emptied-IsClean false _ only' gone)
        ]
        | inr e ↦ rw e (emptied-IsClean false _ only' gone)
      ]
