-- ===== src/Process/File.antt =====
-- dcc/dcc_gen.c: process_single_file.
use doarr.Base.{
  ℕ, Bytes, codes, Bool, true, false, Option, none, some, List, [], ◌∷◌, if◌then◌else◌,
}
use doarr.Options.Parse.{InputFile, Config}
use doarr.Gen.Args.{start_precompiler, start_preprocessor}
use doarr.Process.Events.{
  tmp_pch, tmp_c, tmp_o, tmp_output_file, Word, word, file, ToolId, tool_cc, tool_ld, tool_objcopy,
  precompiler, preprocessor, tool, Event, make_pipe, close_write_end, open_output, close_pipe,
  start, wait, open_c, write_part1, write_null, have_any_functions, close_c, close_output,
  check_close_c, unlink, unlink_if_ex, map_file, stat_file, unmap, write_part2_txt, write_part2_bin,
  History, Env, tell, try,
}

-- The rest of struct config that is used: the names of the tools, the program that stands in
-- arg_buff[0], and tmp_pch_abs.
pub record Tools : Type 0 where
  pub name : ToolId → Bytes
  pub program : Bytes
  pub tmp_pch_abs : Bytes

-- The words of a vector in front of its null.
abbrev pub words : List (Option Bytes) → List Word
words [] = []
words (none ∷ args) = []
words (some s ∷ args) = word s ∷ words args

-- The same of the C++ compiler's; there is no vector at a position behind the arguments, which no input
-- file has (Options/Parse/Order).
abbrev pub cxx_words : Option (List (Option Bytes)) → List Word
cxx_words none = []
cxx_words (some args) = words args

-- The local variables of process_single_file at its label `error`: which children run, and which
-- streams are open.
pub record Locals : Type 0 where
  pub precompiler_pid : Bool
  pub preprocessor_pid : Bool
  pub c_file : Bool
  pub preprocessor_output : Bool

-- The result with the record of the calls; no result is a write to a null stream.
abbrev pub Result : Type 0
Result = Option Bool × History

module _ (tools : Tools) (env : Env) where
  -- The fork, the vector of the child with the tool's name, and dcc_wait.
  unfoldable pub run_tool :
      ToolId → List Word → History → (History → Result) → (History → Result) → Result
  run_tool t args h ok err =
      try env (start (tool t) (word (tools.name t) ∷ args)) h
        (λ h. try env (wait (tool t)) h ok err) err

  unfoldable pub tell_if : Bool → Event → History → History
  tell_if b e h = if b then tell env e h else h

  -- What stands at `error`.
  unfoldable pub give_up_file : ℕ → Locals → History → Result
  give_up_file i st h =
      let h1 = tell_if st.c_file close_c h in
      let h2 = tell_if st.preprocessor_output close_output h1 in
      let h3 = tell_if st.preprocessor_pid (wait preprocessor) h2 in
      let h4 = tell_if st.precompiler_pid (wait precompiler) h3 in
      let h5 = tell env (unlink_if_ex tmp_pch) h4 in
      let h6 = tell env (unlink_if_ex tmp_c) h5 in
      let h7 = tell env (unlink_if_ex tmp_o) h6 in
      (some false, tell env (unlink_if_ex (tmp_output_file i)) h7)

  abbrev pub processed : History → Result
  processed h = (some true, h)

  -- From the run of cc on.
  unfoldable pub make_object : ℕ → Locals → History → Result
  make_object i st h =
      let err = give_up_file i st in
      run_tool tool_cc
        (word (codes "-c") ∷ word (codes "-xc") ∷ file tmp_c ∷ word (codes "-o") ∷ file tmp_o ∷ [])
        h
        (λ h.
          try env (unlink tmp_c) h
            (λ h.
              run_tool tool_ld
                (word (codes "-r")
                  ∷ file tmp_o
                  ∷ word (codes "-b")
                  ∷ word (codes "binary")
                  ∷ file tmp_pch
                  ∷ word (codes "-o")
                  ∷ file (tmp_output_file i)
                  ∷ word (codes "-z")
                  ∷ word (codes "noexecstack")
                  ∷ [])
                h
                (λ h.
                  try env (unlink tmp_o) h
                    (λ h.
                      try env (unlink tmp_pch) h
                        (λ h.
                          run_tool tool_objcopy
                            (word (codes "-L")
                              ∷ word (codes "_binary_doarr__precompiled_start")
                              ∷ word (codes "-N")
                              ∷ word (codes "_binary_doarr__precompiled_end")
                              ∷ word (codes "-N")
                              ∷ word (codes "_binary_doarr__precompiled_size")
                              ∷ word (codes "-g")
                              ∷ file (tmp_output_file i)
                              ∷ [])
                            h processed err)
                        err)
                    err)
                err)
            err)
        err

  -- A file without exported functions, from the fclose on.
  unfoldable pub no_functions : Config → ℕ → Locals → History → Result
  no_functions config i st h =
      let st' = record st { c_file = false } in
      let err = give_up_file i st' in
      try env (unlink tmp_pch) (tell env close_c h)
        (λ h.
          if config.preproc
          then processed h
          else try env (unlink tmp_c) h
              (λ h.
                run_tool tool_ld
                  (word (codes "-r")
                    ∷ word (codes "/dev/null")
                    ∷ word (codes "-o")
                    ∷ file (tmp_output_file i)
                    ∷ [])
                  h processed err)
              err)
        err

  -- The end of the C source: ferror and fclose.
  unfoldable pub end_source : Config → ℕ → Locals → History → Result
  end_source config i st h =
      let st' = record st { c_file = false } in
      try env check_close_c h (λ h. if config.preproc then processed h else make_object i st' h)
        (give_up_file i st')

  -- The second part of the C source.
  unfoldable pub write_part2 : Config → ℕ → Locals → History → Result
  write_part2 config i st h =
      let err = give_up_file i st in
      if config.preproc
      then try env (map_file tmp_pch) h
          (λ h.
            try env (unlink tmp_pch) h
              (λ h. end_source config i st (tell env unmap (tell env write_part2_txt h))) err)
          err
      else try env (stat_file tmp_pch) h (λ h. end_source config i st (tell env write_part2_bin h))
          err

  -- From the two calls of dcc_wait on.
  unfoldable pub after_part1 : Config → ℕ → Locals → History → Result
  after_part1 config i st h =
      let st1 = record st { preprocessor_pid = false } in
      let st2 = record st1 { precompiler_pid = false } in
      try env (wait preprocessor) h
        (λ h.
          try env (wait precompiler) h
            (λ h.
              try env have_any_functions h (write_part2 config i st2) (no_functions config i st2))
            (give_up_file i st2))
        (give_up_file i st1)

  -- Behind a dcc_fopenat that failed. The scanner can fail, or find no function, before anything is
  -- written to the null stream; where no function was found the stream is closed behind the two calls of
  -- dcc_wait, which crashes too.
  unfoldable pub null_source : ℕ → Locals → History → Result
  null_source i st h =
      let st1 = record st { preprocessor_pid = false } in
      let st2 = record st1 { precompiler_pid = false } in
      try env write_null h (λ h. (none, h))
        (λ h.
          try env write_part1 h
            (λ h.
              try env (wait preprocessor) h
                (λ h. try env (wait precompiler) h (λ h. (none, h)) (give_up_file i st2))
                (give_up_file i st1))
            (give_up_file i st))

  -- From dcc_fopenat on.
  unfoldable pub write_source : Config → ℕ → Locals → History → Result
  write_source config i st h =
      let st' = record st { c_file = true } in
      try env (open_c (if config.preproc then tmp_output_file i else tmp_c)) h
        (λ h. try env write_part1 h (after_part1 config i st') (give_up_file i st'))
        (null_source i st)

  -- From the fork in start_preprocessor on.
  unfoldable pub with_pipe : Config → ℕ → InputFile → Locals → History → Result
  with_pipe config i input st h =
      let st1 = record st { preprocessor_pid = true } in
      let st2 = record st1 { preprocessor_output = true } in
      try env (start preprocessor (cxx_words (start_preprocessor config tools.program input))) h
        (λ h.
          try env close_write_end h
            (λ h. try env open_output h (write_source config i st2) (give_up_file i st1))
            (give_up_file i st1))
        (λ h. give_up_file i st (tell env close_pipe h))

  unfoldable pub process_single_file : Config → ℕ → InputFile → History → Result
  process_single_file config i input h =
      let st0 : Locals = record {
        precompiler_pid = false;
        preprocessor_pid = false;
        c_file = false;
        preprocessor_output = false;
      } in
      let st1 = record st0 { precompiler_pid = true } in
      try env
        (start precompiler
          (cxx_words (start_precompiler config tools.program input tools.tmp_pch_abs)))
        h (λ h. try env make_pipe h (with_pipe config i input st1) (give_up_file i st1))
        (give_up_file i st0)
