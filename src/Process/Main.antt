-- ===== src/Process/Main.antt =====
-- dcc/dcc_gen.c: dcc_gen_main, on top of process_single_file.
pub mod Clean
pub mod Empty
pub mod Files
use doarr.Base.{
  ℕ, zero, suc, Bytes, codes, Bool, true, false, ◌&&◌, map, length, Option, none, some, List, [],
  ◌∷◌, ◌++◌, if◌then◌else◌,
}
use doarr.Options.Parse.{InputFile, Config}
use doarr.Files.Names.{object_name}
use doarr.Process.Events.{
  TmpFile, tmp_output_combined, tmp_output_file, Word, word, file, tool_ld, open_final,
  cat_unlink_close, move_from_tmp, unlink, unlink_if_ex, History, Env, tell, try,
}
use doarr.Process.File.{Tools, Result, run_tool, process_single_file}

-- The outputs of `n` files from the index `i` on.
abbrev pub outputs : ℕ → ℕ → List TmpFile
outputs i zero = []
outputs i (suc n) = tmp_output_file i ∷ outputs (suc i) n

module _ (tools : Tools) (env : Env) (config : Config) where
  -- dcc_unlink_all, with the result so far.
  unfoldable pub unlink_outputs : List TmpFile → Bool → History → Bool × History
  unlink_outputs [] ok h = (ok, h)
  unlink_outputs (f ∷ fs) ok h = unlink_outputs fs (ok && env h (unlink f)) (tell env (unlink f) h)

  -- The loop over the files, from the index `i` on.
  unfoldable pub process_files : ℕ → List InputFile → History → Result
  process_files i [] h = (some true, h)
  process_files i (input ∷ inputs) h =
      let (result, h') = process_single_file tools env config i input h in
      elim result [
        | none ↦ (none, h')
        | some ok ↦
            let rest = process_files (suc i) inputs h' in
            if ok then rest else (some false, (unlink_outputs (outputs 0 i) true h').1)
      ]

  -- The object files have been combined, or not.
  unfoldable pub combined_objects : ℕ → Bytes → Bool → History → Result
  combined_objects num_files output ok h =
      let (ok', h') = unlink_outputs (outputs 0 num_files) ok h in
      if ok'
      then try env (move_from_tmp tmp_output_combined output) h' (λ h. (some true, h))
          (λ h. (some false, h))
      else (some false, tell env (unlink_if_ex tmp_output_combined) h')

  unfoldable pub combine_objects : ℕ → Bytes → History → Result
  combine_objects num_files output h =
      run_tool tools env tool_ld
        (word (codes "-r") ∷ map file (outputs 0 num_files)
          ++ word (codes "-o") ∷ file tmp_output_combined ∷ [])
        h (combined_objects num_files output true) (combined_objects num_files output false)

  -- cat_unlink_close gives the result.
  unfoldable pub join_outputs : ℕ → History → Result
  join_outputs num_files h =
      try env (cat_unlink_close (outputs 0 num_files)) h (λ h. (some true, h))
        (λ h. (some false, h))

  -- The loop that moves each object file; no result is the failed assertion on a name.
  unfoldable pub move_objects : ℕ → List InputFile → Bool → History → Result
  move_objects i [] ok h = (some ok, h)
  move_objects i (input ∷ inputs) ok h = elim (object_name input.name) [
    | none ↦ (none, h)
    | some name ↦
        move_objects (suc i) inputs (ok && env h (move_from_tmp (tmp_output_file i) name))
          (tell env (move_from_tmp (tmp_output_file i) name) h)
  ]

  -- What follows the loop over the files.
  unfoldable pub write_outputs : List InputFile → History → Result
  write_outputs inputs h =
      let num_files = length inputs in
      elim config.output [
        | some output ↦
            if config.compile
            then combine_objects num_files output h
            else try env open_final h (join_outputs num_files)
                (λ h. (some false, (unlink_outputs (outputs 0 num_files) true h).1))
        | none ↦ if config.compile then move_objects 0 inputs true h else join_outputs num_files h
      ]

  -- assert(config->preproc ^ config->compile)
  unfoldable pub checked_outputs : List InputFile → History → Result
  checked_outputs inputs h =
      if config.preproc
      then (if config.compile then (none, h) else write_outputs inputs h)
      else if config.compile
      then write_outputs inputs h
      else (none, h)

  unfoldable pub dcc_gen_main : List InputFile → History → Result
  dcc_gen_main inputs h =
      let (result, h') = process_files 0 inputs h in
      elim result [
        | none ↦ (none, h')
        | some ok ↦ if ok then checked_outputs inputs h' else (some false, h')
      ]
