-- ===== src/Program/Run.antt =====
-- dcc/dcc.c: main with the temporary directory.
use doarr.Base.{ℕ, Bytes, codes, Bool, Option, none, some, List, [], ◌∷◌, ◌++◌, if◌then◌else◌}
use doarr.Process.Events.{ToolId, tool_cc, tool_ld, tool_objcopy, History}
use doarr.Process.File.{Tools, Result}
use doarr.Process.Main.{dcc_gen_main}
use doarr.Program.Variables.{EnvVar, env_cc, env_ld, env_objcopy, env_tmp, concat}
use doarr.Program.Prepare.{
  tmp, tmp_pch_abs, Host, Failure, out_of_memory, cannot_create_tmp, cannot_open_tmp, work_failed,
  cannot_remove_tmp, Ending, fails, helped, crashes, out_of_fuel, ok, ends, Step, Prepared, prepare,
}

-- The exit status, a crash (a failed assertion or a null pointer), or no end of the model.
pub data Status : Type 0 where
  exited : ℕ → Status
  crashed no_fuel : Status

-- A run of the program: the temporary directory that was made, the calls in it, what rmdir said where
-- it was called, and what went wrong.
pub record Run : Type 0 where
  pub status : Status
  pub made : Option Bytes
  pub history : History
  pub removed : Option Bool
  pub failures : List Failure

abbrev pub without_tmp : Status → List Failure → Run
without_tmp status failures = record {
  status = status;
  made = none;
  history = [];
  removed = none;
  failures = failures;
}

abbrev pub ended : Ending → Run
ended (fails e) = without_tmp (exited 1) (e ∷ [])
ended helped = without_tmp (exited 0) []
ended crashes = without_tmp crashed []
ended out_of_fuel = without_tmp no_fuel []

abbrev pub status_of : List Failure → Status
status_of [] = exited 0
status_of (_ ∷ _) = exited 1

abbrev pub tool_name : (EnvVar → Bytes) → ToolId → Bytes
tool_name values tool_cc = values env_cc
tool_name values tool_ld = values env_ld
tool_name values tool_objcopy = values env_objcopy

module _ (host : Host) where
  -- The label rm_tmp.
  unfoldable pub rm_tmp : Bytes → List Failure → History → Run
  rm_tmp dir failures h =
      let gone = host.rmdir dir h in
      let all = if gone then failures else failures ++ cannot_remove_tmp ∷ [] in
      record {
        status = status_of all;
        made = some dir;
        history = h;
        removed = some gone;
        failures = all;
      }

  -- What dcc_gen_main gave; no result is a crash in it.
  abbrev pub worked : Bytes → Result → Run
  worked dir (none, h) = record {
    status = crashed;
    made = some dir;
    history = h;
    removed = none;
    failures = [];
  }
  worked dir (some done, h) = rm_tmp dir (if done then [] else work_failed ∷ []) h

  -- From mkdtemp on.
  unfoldable pub in_tmp : Prepared → Bytes → Run
  in_tmp p dir =
      if host.open_tmp dir
      then elim (concat (host.allocates tmp_pch_abs) dir (codes "/doarr__precompiled")) [
        | none ↦ rm_tmp dir (out_of_memory ∷ []) []
        | some pch ↦
            let tools : Tools = record {
              name = tool_name p.values;
              program = p.compiler;
              tmp_pch_abs = pch;
            } in
            worked dir (dcc_gen_main tools host.work p.config p.files [])
      ]
      else rm_tmp dir (cannot_open_tmp ∷ []) []

  unfoldable pub make_tmp : Prepared → Run
  make_tmp p = elim (concat (host.allocates tmp) (p.values env_tmp) (codes "/dcc.XXXXXX")) [
    | none ↦ without_tmp (exited 1) (out_of_memory ∷ [])
    | some template ↦ elim (host.mkdtemp template) [
      | none ↦ without_tmp (exited 1) (cannot_create_tmp ∷ [])
      | some dir ↦ in_tmp p dir
    ]
  ]

  abbrev pub go_on : Step Prepared → Run
  go_on (ok p) = make_tmp p
  go_on (ends e) = ended e

  -- main, with the fuel of the loop for the compiler's path.
  unfoldable pub main : ℕ → List Bytes → Run
  main fuel argv = go_on (prepare host fuel argv)
