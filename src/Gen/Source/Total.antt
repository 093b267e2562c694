-- ===== src/Gen/Source/Total.antt =====
-- dcc/dcc_gen.c: the loop over the exported functions ends.
use doarr.Base.{
  ℕ, zero, suc, ◌<◌, ◌≡◌, Bytes, Bool, Option, none, some, List, [], ◌++◌, ap, ◌∙◌, arith, refl,
  Option-cases, inl, inr,
}
use doarr.Scan.Chars.{weight}
use doarr.Scan.Total.{dcc_scan_total, dcc_scan-export-lt}
use doarr.Scan.{ScanResult, failed, clean_eof, export, dcc_scan_up_to_next_export}
use doarr.Gen.Source.{
  Part1, generated, no_functions, scan_error, entries_loop, generate_c_part1, generated_file_prolog,
  generated_file_fn_entry, compiler_args_text,
}

module _ (fails : Bool) (alloc : ℕ → Bool) where
  -- The step, from the rounds on less of the stream.
  entries_loop_step :
      (fuel i : ℕ) (s rest : Bytes) (x : ScanResult)
      → dcc_scan_up_to_next_export fails alloc s ≡ some (x, rest)
      → ((name : Bytes)
          → x ≡ export name
          → (r : Option Bytes) × (entries_loop fails alloc fuel i rest ≡ some r))
      → (r : Option Bytes) × (entries_loop fails alloc (suc fuel) i s ≡ some r)
  unfolding entries_loop
  entries_loop_step fuel i s rest (failed e) h more = (none, rw (h, entries_loop) refl)
  entries_loop_step fuel i s rest clean_eof h more = (some [], rw (h, entries_loop) refl)
  entries_loop_step fuel i s rest (export name) h more =
      let (r, e) = more name refl in
      elim (Option-cases r) [
        | inl n ↦ (none, rw (h, entries_loop, e, n) refl)
        | inr (entries, n) ↦
            (some (generated_file_fn_entry name i ++ entries), rw (h, entries_loop, e, n) refl)
      ]

  entries_loop_total :
      (fuel i : ℕ) (s : Bytes)
      → weight s < fuel
      → (r : Option Bytes) × (entries_loop fails alloc fuel i s ≡ some r)
  entries_loop_total zero i s lt = absurd (omega arith)
  entries_loop_total (suc fuel) i s lt =
      let (x, rest, e) = dcc_scan_total fails alloc s in
      let loop = entries_loop_total fuel i rest in
      entries_loop_step fuel i s rest x e (λ name same. loop (
        omega
          (arith, dcc_scan-export-lt fails alloc s name rest (e ∙ ap (λ r. some (r, rest)) same))))

  generate_c_part1_step :
      (struct_defs : Bytes) (i : ℕ) (s rest : Bytes) (args : List Bytes) (x : ScanResult)
      → dcc_scan_up_to_next_export fails alloc s ≡ some (x, rest)
      → (part : Part1) × (generate_c_part1 fails alloc struct_defs i s args ≡ some part)
  unfolding generate_c_part1
  generate_c_part1_step struct_defs i s rest args (failed e) h =
      (scan_error, rw (h, generate_c_part1) refl)
  generate_c_part1_step struct_defs i s rest args clean_eof h =
      (no_functions, rw (h, generate_c_part1) refl)
  generate_c_part1_step struct_defs i s rest args (export name) h =
      let (r, e) = entries_loop_total (suc (weight rest)) i rest (omega arith) in
      elim (Option-cases r) [
        | inl n ↦ (scan_error, rw (h, generate_c_part1, e, n) refl)
        | inr (entries, n) ↦ (
          generated (
              generated_file_prolog struct_defs i
              ++ generated_file_fn_entry name i
              ++ entries
              ++ compiler_args_text args),
          rw (h, generate_c_part1, e, n) refl,
        )
      ]

  -- Writing the first part ends, on every preprocessed source and whatever the memory: the loop over
  -- the exported functions does not run for ever.
  pub generate_c_part1_total :
      (struct_defs : Bytes) (file_index : ℕ) (s : Bytes) (args : List Bytes)
      → (part : Part1) × (generate_c_part1 fails alloc struct_defs file_index s args ≡ some part)
  generate_c_part1_total struct_defs i s args =
      let (x, rest, e) = dcc_scan_total fails alloc s in
      generate_c_part1_step struct_defs i s rest args x e
