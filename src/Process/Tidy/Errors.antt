-- ===== src/Process/Tidy/Errors.antt =====
-- dcc/dcc_gen.c: the label `error` of process_single_file.
use doarr.Base.{
  ℕ, ◌≡◌, ◌==◌, Bool, true, false, not, ◌&&◌, List, ◌∷◌, ◌++◌, refl, ◌∙◌, append_assoc, ==_refl,
}
use doarr.Process.Events.{
  TmpFile, tmp_output_combined, tmp_output_file, Event, wait, close_c, close_output, History, Env,
  tell, Held, child, c_file, preprocessor_output, precompiler, preprocessor, held, held_eq,
  give_back, left_over,
}
use doarr.Process.File.{Tools, Locals, tell_if, give_up_file}
use doarr.Process.Tidy.{after_file_rule, IsTidy, when, IsGood}

-- A call that gives something back.
GivesBack : Event → Held → Type 0
GivesBack e x =
    (held_eq x x ≡ true)
    × ((h : History) (b : Bool) → held ((e, b) ∷ h) ≡ give_back x (held h))
    × ((h : History) (b : Bool) (f : TmpFile) → left_over ((e, b) ∷ h) f ≡ left_over h f)

close_c-GivesBack : GivesBack close_c c_file
unfolding GivesBack
close_c-GivesBack = (refl, λ h b. refl, λ h b f. refl)

close_output-GivesBack : GivesBack close_output preprocessor_output
unfolding GivesBack
close_output-GivesBack = (refl, λ h b. refl, λ h b f. refl)

preprocessor-GivesBack : GivesBack (wait preprocessor) (child preprocessor)
unfolding GivesBack
preprocessor-GivesBack = (refl, λ h b. refl, λ h b f. refl)

precompiler-GivesBack : GivesBack (wait precompiler) (child precompiler)
unfolding GivesBack
precompiler-GivesBack = (refl, λ h b. refl, λ h b f. refl)

unseen : (i : ℕ) (b : Bool) → (not (i == i) && b) ≡ false
unseen i b = rw (==_refl i) refl

module _ (tools : Tools) (env : Env) where
  held-tell_if :
      (b : Bool) (e : Event) (x : Held) (h : History) (rest : List Held)
      → GivesBack e x
      → held h ≡ when b x ++ rest
      → held (tell_if tools env b e h) ≡ rest
  unfolding GivesBack tell tell_if
  held-tell_if false e x h rest g k = k
  held-tell_if true e x h rest (same, g, _) k = g h (env h e) ∙ rw (k, same) refl

  left_over-tell_if :
      (b : Bool) (e : Event) (x : Held) (h : History) (f : TmpFile)
      → GivesBack e x
      → left_over (tell_if tools env b e h) f ≡ left_over h f
  unfolding GivesBack tell tell_if
  left_over-tell_if false e x h f g = refl
  left_over-tell_if true e x h f (_, _, g) = g h (env h e) f

  -- The function gives back all that the local variables name, and removes the four files.
  pub give_up_file-IsTidy :
      (i : ℕ) (st : Locals) (h0 h : History)
      → IsGood i st h0 h
      → IsTidy i h0 (give_up_file tools env i st h)
  unfolding give_up_file tell IsTidy
  give_up_file-IsTidy i st h0 h (k, (combined, others)) =
      let c = when st.c_file c_file in
      let o = when st.preprocessor_output preprocessor_output in
      let a = when st.preprocessor_pid (child preprocessor) in
      let b = when st.precompiler_pid (child precompiler) in
      let k0 : held h ≡ c ++ (o ++ (a ++ (b ++ held h0))) = k ∙ simp append_assoc in
      let h1 = tell_if tools env st.c_file close_c h in
      let h2 = tell_if tools env st.preprocessor_output close_output h1 in
      let h3 = tell_if tools env st.preprocessor_pid (wait preprocessor) h2 in
      let h4 = tell_if tools env st.precompiler_pid (wait precompiler) h3 in
      let k1 =
        held-tell_if st.c_file close_c c_file h (o ++ (a ++ (b ++ held h0))) close_c-GivesBack k0 in
      let k2 =
        held-tell_if st.preprocessor_output close_output preprocessor_output h1
          (a ++ (b ++ held h0)) close_output-GivesBack k1 in
      let k3 =
        held-tell_if st.preprocessor_pid (wait preprocessor) (child preprocessor) h2 (b ++ held h0)
          preprocessor-GivesBack k2 in
      let k4 =
        held-tell_if st.precompiler_pid (wait precompiler) (child precompiler) h3 (held h0)
          precompiler-GivesBack k3 in
      let same : (f : TmpFile) → left_over h4 f ≡ left_over h f = λ f.
        left_over-tell_if st.precompiler_pid (wait precompiler) (child precompiler) h3 f
          precompiler-GivesBack
        ∙ left_over-tell_if st.preprocessor_pid (wait preprocessor) (child preprocessor) h2 f
            preprocessor-GivesBack
        ∙ left_over-tell_if st.preprocessor_output close_output preprocessor_output h1 f
            close_output-GivesBack
        ∙ left_over-tell_if st.c_file close_c c_file h f close_c-GivesBack in
      (
        k4,
        after_file_rule i false (left_over h0) (left_over (give_up_file tools env i st h).1) refl
            refl refl (same tmp_output_combined ∙ combined) (unseen i _)
            (λ j e. rw e (same (tmp_output_file j) ∙ others j e)),
      )
