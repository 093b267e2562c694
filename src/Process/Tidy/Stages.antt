-- ===== src/Process/Tidy/Stages.antt =====
-- dcc/dcc_gen.c: process_single_file from its end to its start.
use doarr.Base.{
  ℕ, ◌≡◌, Bool, true, false, ◌∷◌, if◌then◌else◌, Bool-cases, inl, inr, refl, ap, ==_refl,
}
use doarr.Options.Parse.{InputFile, Config}
use doarr.Process.Events.{
  tmp_pch, tmp_c, tmp_o, tmp_output_file, tool_ld, History, Env, tell, child, c_file,
  preprocessor_output, precompiler, preprocessor, open_c, give_back, held, left_over,
}
use doarr.Process.File.{
  Tools, Locals, no_functions, end_source, write_part2, after_part1, write_source, null_source,
  with_pipe, process_single_file,
}
use doarr.Process.Tidy.{
  after_file_rule, IsTidy, Keeps, IsGood, if-IsTidy, try_rule, processed-IsTidy,
}
use doarr.Process.Tidy.Errors.{give_up_file-IsTidy}
use doarr.Process.Tidy.RunTool.{output_only, run_tool-rule, make_object-IsTidy}

abbrev with_c_file : Locals
with_c_file = record output_only { c_file = true }

abbrev all_held : Locals
all_held = record {
  precompiler_pid = true;
  preprocessor_pid = true;
  c_file = true;
  preprocessor_output = true;
}

abbrev precompiler_only : Locals
precompiler_only = record {
  precompiler_pid = true;
  preprocessor_pid = false;
  c_file = false;
  preprocessor_output = false;
}

-- The files behind part 1: there is no object, and with -E the C source is the output.
abbrev IsWritten : Bool → ℕ → History → Type 0
IsWritten preproc i h =
    (left_over h tmp_o ≡ false)
    × (preproc ≡ true → (left_over h tmp_c ≡ false) × (left_over h (tmp_output_file i) ≡ true))

opened-IsWritten :
    (preproc : Bool) (i : ℕ) (h : History)
    → left_over h tmp_c ≡ false
    → left_over h tmp_o ≡ false
    → IsWritten preproc i ((open_c (if preproc then tmp_output_file i else tmp_c), true) ∷ h)
opened-IsWritten true i h no_source no_object = (no_object, λ e. (no_source, rw (==_refl i) refl))
opened-IsWritten false i h no_source no_object = (no_object, λ e. absurd (cc))

opened-Keeps :
    (preproc : Bool) (i : ℕ) (h0 h : History)
    → Keeps i h0 h
    → Keeps i h0 ((open_c (if preproc then tmp_output_file i else tmp_c), true) ∷ h)
opened-Keeps true i h0 h (combined, others) = (combined, λ j e. rw e (others j e))
opened-Keeps false i h0 h keeps = keeps

module _ (tools : Tools) (env : Env) where
  no_functions-IsTidy :
      (config : Config) (i : ℕ) (h0 h : History)
      → IsGood i with_c_file h0 h
      → IsWritten config.preproc i h
      → IsTidy i h0 (no_functions tools env config i with_c_file h)
  unfolding no_functions tell
  no_functions-IsTidy config i h0 h (k, keeps) (no_object, written) =
      let err = give_up_file-IsTidy tools env i output_only h0 in
      let k' : give_back c_file (held h) ≡ preprocessor_output ∷ held h0 =
        ap (give_back c_file) k in
      try_rule i h0 env _ _ _ _
        (elim (Bool-cases config.preproc) [
          | inl e ↦ rw e (
              processed-IsTidy i h0 _ k' (
                after_file_rule i true (left_over h0) _ refl (written e).0 no_object keeps.0
                  (written e).1 keeps.1))
          | inr e ↦ rw e (
              try_rule i h0 env _ _ _ _
                (run_tool-rule tools env i tool_ld _ output_only h0 _ _ _ (refl, λ j e. rw e refl)
                  (k', keeps)
                  (λ (k, (combined, others)). processed-IsTidy i h0 _ k (
                    after_file_rule i true (left_over h0) _ refl refl no_object combined
                      (rw (==_refl i) refl) others))
                  err)
                (err _ (k', keeps)))
        ])
        (err _ (k', keeps))

  end_source-IsTidy :
      (config : Config) (i : ℕ) (h0 h : History)
      → IsGood i with_c_file h0 h
      → IsWritten config.preproc i h
      → (config.preproc ≡ true → left_over h tmp_pch ≡ false)
      → IsTidy i h0 (end_source tools env config i with_c_file h)
  unfolding end_source
  end_source-IsTidy config i h0 h (k, keeps) (no_object, written) no_header =
      let k' : give_back c_file (held h) ≡ preprocessor_output ∷ held h0 =
        ap (give_back c_file) k in
      try_rule i h0 env _ _ _ _
        (elim (Bool-cases config.preproc) [
          | inl e ↦ rw e (
              processed-IsTidy i h0 _ k' (
                after_file_rule i true (left_over h0) _ (no_header e) (written e).0 no_object
                  keeps.0 (written e).1 keeps.1))
          | inr e ↦ rw e (make_object-IsTidy tools env i h0 _ (k', keeps))
        ])
        (give_up_file-IsTidy tools env i output_only h0 _ (k', keeps))

  write_part2-IsTidy :
      (config : Config) (i : ℕ) (h0 h : History)
      → IsGood i with_c_file h0 h
      → IsWritten config.preproc i h
      → IsTidy i h0 (write_part2 tools env config i with_c_file h)
  unfolding write_part2 tell
  write_part2-IsTidy config i h0 h g w =
      let err = give_up_file-IsTidy tools env i with_c_file h0 in
      if-IsTidy i h0 config.preproc _ _
        (λ e.
          try_rule i h0 env _ _ _ _
            (try_rule i h0 env _ _ _ _ (end_source-IsTidy config i h0 _ g w (λ e. refl)) (err _ g))
            (err _ g))
        (λ e.
          try_rule i h0 env _ _ _ _ (end_source-IsTidy config i h0 _ g w (λ e'. absurd (cc)))
            (err _ g))

  after_part1-IsTidy :
      (config : Config) (i : ℕ) (h0 h : History)
      → IsGood i all_held h0 h
      → IsWritten config.preproc i h
      → IsTidy i h0 (after_part1 tools env config i all_held h)
  unfolding after_part1
  after_part1-IsTidy config i h0 h (k, keeps) w =
      let k1 : give_back (child preprocessor) (held h)
          ≡ c_file ∷ preprocessor_output ∷ child precompiler ∷ held h0 =
        ap (give_back (child preprocessor)) k in
      let k2 : give_back (child precompiler) (give_back (child preprocessor) (held h))
          ≡ c_file ∷ preprocessor_output ∷ held h0 =
        ap (give_back (child precompiler)) k1 in
      try_rule i h0 env _ _ _ _
        (try_rule i h0 env _ _ _ _
          (try_rule i h0 env _ _ _ _ (write_part2-IsTidy config i h0 _ (k2, keeps) w)
            (no_functions-IsTidy config i h0 _ (k2, keeps) w))
          (give_up_file-IsTidy tools env i with_c_file h0 _ (k2, keeps)))
        (give_up_file-IsTidy tools env i (record all_held { preprocessor_pid = false }) h0 _
          (k1, keeps))

  null_source-IsTidy :
      (i : ℕ) (h0 h : History)
      → IsGood i (record all_held { c_file = false }) h0 h
      → IsTidy i h0 (null_source tools env i (record all_held { c_file = false }) h)
  unfolding null_source IsTidy
  null_source-IsTidy i h0 h (k, keeps) =
      let k1 : give_back (child preprocessor) (held h)
          ≡ preprocessor_output ∷ child precompiler ∷ held h0 =
        ap (give_back (child preprocessor)) k in
      let k2 : give_back (child precompiler) (give_back (child preprocessor) (held h))
          ≡ preprocessor_output ∷ held h0 =
        ap (give_back (child precompiler)) k1 in
      try_rule i h0 env _ _ _ _ tt (
        try_rule i h0 env _ _ _ _
          (try_rule i h0 env _ _ _ _
            (try_rule i h0 env _ _ _ _ tt
              (give_up_file-IsTidy tools env i output_only h0 _ (k2, keeps)))
            (give_up_file-IsTidy tools env i
              (record all_held { c_file = false; preprocessor_pid = false }) h0 _ (k1, keeps)))
          (give_up_file-IsTidy tools env i (record all_held { c_file = false }) h0 _ (k, keeps)))

  write_source-IsTidy :
      (config : Config) (i : ℕ) (h0 h : History)
      → IsGood i (record all_held { c_file = false }) h0 h
      → left_over h tmp_c ≡ false
      → left_over h tmp_o ≡ false
      → IsTidy i h0 (write_source tools env config i (record all_held { c_file = false }) h)
  unfolding write_source IsTidy
  write_source-IsTidy config i h0 h (k, keeps) no_source no_object =
      let k' = ap (λ rest. c_file ∷ rest) k in
      let w = opened-IsWritten config.preproc i h no_source no_object in
      let keeps' = opened-Keeps config.preproc i h0 h keeps in
      try_rule i h0 env _ _ _ _
        (try_rule i h0 env _ _ _ _ (after_part1-IsTidy config i h0 _ (k', keeps') w)
          (give_up_file-IsTidy tools env i all_held h0 _ (k', keeps')))
        (null_source-IsTidy i h0 _ (k, keeps))

  with_pipe-IsTidy :
      (config : Config) (i : ℕ) (input : InputFile) (h0 h : History)
      → IsGood i precompiler_only h0 h
      → left_over h tmp_c ≡ false
      → left_over h tmp_o ≡ false
      → IsTidy i h0 (with_pipe tools env config i input precompiler_only h)
  unfolding with_pipe tell
  with_pipe-IsTidy config i input h0 h (k, keeps) no_source no_object =
      let k1 = ap (λ rest. child preprocessor ∷ rest) k in
      let k2 = ap (λ rest. preprocessor_output ∷ rest) k1 in
      let err =
        give_up_file-IsTidy tools env i (record precompiler_only { preprocessor_pid = true }) h0 in
      try_rule i h0 env _ _ _ _
        (try_rule i h0 env _ _ _ _
          (try_rule i h0 env _ _ _ _
            (write_source-IsTidy config i h0 _ (k2, keeps) no_source no_object) (err _ (k1, keeps)))
          (err _ (k1, keeps)))
        (give_up_file-IsTidy tools env i precompiler_only h0 _ (k, keeps))

  -- The same of what the calls are to remove, where one may fail.
  pub process_single_file-IsTidy :
      (config : Config) (i : ℕ) (input : InputFile) (h : History)
      → left_over h tmp_c ≡ false
      → left_over h tmp_o ≡ false
      → IsTidy i h (process_single_file tools env config i input h)
  unfolding process_single_file
  process_single_file-IsTidy config i input h no_source no_object =
      let keeps : Keeps i h h = (refl, λ j e. refl) in
      try_rule i h env _ _ _ _
        (try_rule i h env _ _ _ _
          (with_pipe-IsTidy config i input h _ (refl, keeps) no_source no_object)
          (give_up_file-IsTidy tools env i precompiler_only h _ (refl, keeps)))
        (give_up_file-IsTidy tools env i (record precompiler_only { precompiler_pid = false }) h _
          (refl, keeps))
