-- ===== src/Process/Tidy/RunTool.antt =====
-- dcc/dcc_gen.c: the runs of the tools in process_single_file.
use doarr.Base.{ℕ, ◌≡◌, ◌==◌, Bool, true, false, List, ◌∷◌, refl, ◌∙◌, ==_refl}
use doarr.Process.Events.{
  tmp_output_combined, tmp_output_file, ToolId, tool_cc, tool_ld, tool_objcopy, Word, start, wait,
  tool, History, Env, held, names, left_over,
}
use doarr.Process.File.{Tools, Locals, Result, run_tool, make_object}
use doarr.Process.Tidy.{after_file_rule, IsTidy, IsGood, try_rule, processed-IsTidy}
use doarr.Process.Tidy.Errors.{give_up_file-IsTidy}

-- The locals behind part 1: only the preprocessor's output is open.
abbrev pub output_only : Locals
output_only = record {
  precompiler_pid = false;
  preprocessor_pid = false;
  c_file = false;
  preprocessor_output = true;
}

-- A command that names no temporary file but those of the work on the file of index `i`.
abbrev pub NamesOwn : ℕ → List Word → Type 0
NamesOwn i args =
    (names args tmp_output_combined ≡ false)
    × ((j : ℕ) → (i == j) ≡ false → names args (tmp_output_file j) ≡ false)

pub ran_held :
    (t : ToolId) (args : List Word) (b : Bool) (h : History)
    → held ((wait (tool t), b) ∷ (start (tool t) args, true) ∷ h) ≡ held h
ran_held tool_cc args b h = refl
ran_held tool_ld args b h = refl
ran_held tool_objcopy args b h = refl

ran-IsGood :
    (i : ℕ) (t : ToolId) (args : List Word) (b : Bool) (st : Locals) (h0 h : History)
    → NamesOwn i args
    → IsGood i st h0 h
    → IsGood i st h0 ((wait (tool t), b) ∷ (start (tool t) args, true) ∷ h)
ran-IsGood i t args b st h0 h (no_combined, no_others) (k, (combined, others)) =
    (ran_held t args b h ∙ k, (rw no_combined combined, λ j e. rw (no_others j e) (others j e)))

module _ (tools : Tools) (env : Env) where
  -- A run of a tool on the files of the index: dcc_wait is called for the child whether it fails or not.
  pub run_tool-rule :
      (i : ℕ) (t : ToolId) (args : List Word) (st : Locals) (h0 h : History)
      (ok err : History → Result)
      → NamesOwn i args
      → IsGood i st h0 h
      → (IsGood i st h0
            ((wait (tool t), true) ∷ (start (tool t) (Word.word (tools.name t) ∷ args), true) ∷ h)
          → IsTidy i h0 (
              ok (
                (wait (tool t), true)
                ∷ (start (tool t) (Word.word (tools.name t) ∷ args), true)
                ∷ h)))
      → ((h' : History) → IsGood i st h0 h' → IsTidy i h0 (err h'))
      → IsTidy i h0 (run_tool tools env t args h ok err)
  unfolding run_tool
  run_tool-rule i t args st h0 h ok err own g on_ok on_err =
      let args' = Word.word (tools.name t) ∷ args in
      try_rule i h0 env _ _ _ _
        (try_rule i h0 env _ _ _ _ (on_ok (ran-IsGood i t args' true st h0 h own g))
          (on_err _ (ran-IsGood i t args' false st h0 h own g)))
        (on_err _ g)

  pub make_object-IsTidy :
      (i : ℕ) (h0 h : History)
      → IsGood i output_only h0 h
      → IsTidy i h0 (make_object tools env i output_only h)
  unfolding make_object
  make_object-IsTidy i h0 h g =
      let err = give_up_file-IsTidy tools env i output_only h0 in
      run_tool-rule i tool_cc _ output_only h0 h _ _ (refl, λ j e. refl) g
        (λ g.
          try_rule i h0 env _ _ _ _
            (run_tool-rule i tool_ld _ output_only h0 _ _ _ (refl, λ j e. rw e refl) g
              (λ g.
                try_rule i h0 env _ _ _ _
                  (try_rule i h0 env _ _ _ _
                    (run_tool-rule i tool_objcopy _ output_only h0 _ _ _ (refl, λ j e. rw e refl) g
                      (λ (k, (combined, others)). processed-IsTidy i h0 _ k (
                        after_file_rule i true (left_over h0) _ refl refl refl combined
                          (rw (==_refl i) refl) others))
                      err)
                    (err _ g))
                  (err _ g))
              err)
            (err _ g))
        err
