-- ===== src/Program/Removed.antt =====
-- dcc/dcc.c: what main leaves behind.
use doarr.Base.{
  ℕ, ◌≡◌, ◌⊎◌, inl, inr, Bytes, codes, true, false, none, some, List, [], ◌∷◌, if◌then◌else◌, refl,
  Option-cases, Bool-cases,
}
use doarr.Process.Events.{TmpFile, History, present, RemovalsWork}
use doarr.Process.File.{Result}
use doarr.Process.Main.Clean.{OnlyOutputs}
use doarr.Process.Main.Files.{LeavesClean, dcc_gen_main-LeavesClean}
use doarr.Program.Variables.{env_tmp, concat}
use doarr.Program.Prepare.{
  tmp, tmp_pch_abs, Host, Failure, Ending, ok, ends, Step, Prepared, prepare, work_failed, fails,
  helped, crashes, out_of_fuel,
}
use doarr.Program.Run.{crashed, Run, ended, rm_tmp, worked, in_tmp, make_tmp, go_on, main}

-- Either no directory was made; or it has been removed again, and dcc_wait has been called for every
-- child and every C source is closed; or the program has crashed in the work.
unfoldable pub LeavesNothing : Run → Type 0
LeavesNothing r = elim r.made [
  | none ↦ r.history ≡ []
  | some dir ↦ (r.status ≡ crashed) ⊎ ((r.removed ≡ some true) × OnlyOutputs r.history)
]

abbrev Leaves : Run → Type 0
Leaves r = RemovalsWork r.history → LeavesNothing r

module _ (host : Host)
    (removes_empty : (dir : Bytes) (h : History)
      → ((f : TmpFile) → present h f ≡ false)
      → host.rmdir dir h ≡ true) where
  rm_tmp-LeavesNothing :
      (dir : Bytes) (failures : List Failure) (h : History)
      → OnlyOutputs h
      → ((f : TmpFile) → present h f ≡ false)
      → LeavesNothing (rm_tmp host dir failures h)
  unfolding LeavesNothing rm_tmp
  rm_tmp-LeavesNothing dir failures h only gone =
      let removed = removes_empty dir h gone in inr (rw removed refl, only)

  worked-LeavesNothing :
      (dir : Bytes) (r : Result) → (RemovalsWork r.1 → LeavesClean r) → Leaves (worked host dir r)
  unfolding LeavesNothing LeavesClean rm_tmp
  worked-LeavesNothing dir (none, h) c w = inl refl
  worked-LeavesNothing dir (some done, h) c w =
      let (only, gone) = c w in
      rm_tmp-LeavesNothing dir (if done then [] else work_failed ∷ []) h only gone

  in_tmp-LeavesNothing : (p : Prepared) (dir : Bytes) → Leaves (in_tmp host p dir)
  unfolding in_tmp
  in_tmp-LeavesNothing p dir = elim (Bool-cases (host.open_tmp dir)) [
    | inl e ↦
        elim (Option-cases
          (concat (host.allocates tmp_pch_abs) dir (codes "/doarr__precompiled"))) [
            | inl a ↦ rw (in_tmp, e, a) (λ w. rm_tmp-LeavesNothing dir _ [] tt (λ f. refl))
            | inr (pch, a) ↦
                rw (in_tmp, e, a)
                  (worked-LeavesNothing dir _
                    (dcc_gen_main-LeavesClean _ host.work p.config p.files))
          ]
    | inr e ↦ rw (in_tmp, e) (λ w. rm_tmp-LeavesNothing dir _ [] tt (λ f. refl))
  ]

  make_tmp-LeavesNothing : (p : Prepared) → Leaves (make_tmp host p)
  unfolding make_tmp LeavesNothing
  make_tmp-LeavesNothing p =
      elim (Option-cases (concat (host.allocates tmp) (p.values env_tmp) (codes "/dcc.XXXXXX"))) [
        | inl a ↦ rw (make_tmp, a) (λ w. refl)
        | inr (template, a) ↦ elim (Option-cases (host.mkdtemp template)) [
          | inl d ↦ rw (make_tmp, a, d) (λ w. refl)
          | inr (dir, d) ↦ rw (make_tmp, a, d) (in_tmp-LeavesNothing p dir)
        ]
      ]

  ended-LeavesNothing : (e : Ending) → Leaves (ended e)
  unfolding LeavesNothing
  ended-LeavesNothing (fails e) w = refl
  ended-LeavesNothing helped w = refl
  ended-LeavesNothing crashes w = refl
  ended-LeavesNothing out_of_fuel w = refl

  step-LeavesNothing : (s : Step Prepared) → Leaves (go_on host s)
  step-LeavesNothing (ok p) = make_tmp-LeavesNothing p
  step-LeavesNothing (ends e) = ended-LeavesNothing e

  -- When rmdir succeeds on an empty directory, and no call of dcc_unlink or dcc_unlink_if_ex fails, also
  -- inside cat_unlink_close and move_from_tmp, the temporary directory that main makes is in the end
  -- removed, whatever other call fails, and by then dcc_wait has been called for every child and every C
  -- source is closed. The one exception is a crash in dcc_gen_main (a failed assertion or a write to a
  -- null stream).
  pub main-LeavesNothing :
      (fuel : ℕ) (argv : List Bytes)
      → RemovalsWork (main host fuel argv).history
      → LeavesNothing (main host fuel argv)
  unfolding main
  main-LeavesNothing fuel argv = step-LeavesNothing (prepare host fuel argv)
