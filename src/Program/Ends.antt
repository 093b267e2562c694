-- ===== src/Program/Ends.antt =====
-- dcc/dcc.c: the fuel of main is enough.
use doarr.Base.{
  ℕ, zero, suc, ◌+◌, ◌*◌, ◌/◌, ◌≤◌, ◌<◌, ◌≡◌, ◌≢◌, ◌⊎◌, inl, inr, Bytes, codes, Bool, Option, none,
  some, List, [], ◌∷◌, length, take, ltb, arith, refl, length-take, Option-cases, Bool-cases,
}
use doarr.Process.Events.{History}
use doarr.Process.File.{Result}
use doarr.Process.Main.{dcc_gen_main}
use doarr.Find.{path_loop, fd_to_abs_path}
use doarr.Program.Variables.{env_tmp, env_value, concat}
use doarr.Program.Prepare.{
  Host, Failure, Ending, Step, ok, ends, fails, helped, crashes, out_of_fuel, ◌>>◌, required,
  find_compiler, Prepared, prepare, missing_tool, no_compiler_path, arg_buff, out_of_memory, cxx_fd,
  tmp, tmp_pch_abs, cannot_create_tmp, Failure,
}
use doarr.Program.Run.{no_fuel, status_of, rm_tmp, worked, in_tmp, make_tmp, go_on, main}
use doarr.Program.Ready.{Post, then_Post, require-Post, required-Post, prepare-Post}

-- readlinkat fails, or writes as much of the target as there is room for.
module _ (readlinkat : ℕ → Option Bytes) (alloc : ℕ → Bool) (target : Bytes)
    (truncates : (capacity : ℕ)
      → (readlinkat capacity ≡ none) ⊎ (readlinkat capacity ≡ some (take capacity target))) where
  path_loop-ne-none :
      (fuel capacity : ℕ)
      → 4 ≤ capacity
      → length target + 1 < capacity + fuel
      → 0 < fuel
      → path_loop readlinkat alloc fuel capacity ≢ none
  unfolding path_loop
  path_loop-ne-none zero capacity h l p e = omega arith
  path_loop-ne-none (suc fuel) capacity h l p e = elim (Bool-cases (alloc capacity)) [
    | inr a ↦ ground (arith, a)
    | inl a ↦ elim (truncates capacity) [
      | inl b ↦ ground (arith, a, b)
      | inr b ↦ elim (Bool-cases (ltb (length (take capacity target)) capacity)) [
        | inl c ↦ ground (arith, a, b, c)
        | inr c ↦
            let long : capacity ≤ length target = ground (arith, length-take capacity target) in
            path_loop-ne-none fuel (capacity / 2 * 3) (omega arith) (omega arith) (omega arith)
              (ground (arith, a, b, c))
      ]
    ]
  ]

unfoldable HasEnded : Ending → Type 0
HasEnded e = e ≢ out_of_fuel

failure-HasEnded : (e : Failure) → HasEnded (fails e)
unfolding HasEnded
failure-HasEnded e h = cc

helped-HasEnded : HasEnded helped
unfolding HasEnded
helped-HasEnded h = cc

crashes-HasEnded : HasEnded crashes
unfolding HasEnded
crashes-HasEnded h = cc

compiler-HasEnded :
    (o : Option (Option Bytes))
    → o ≢ none
    → Post
        (λ _. Unit)
        HasEnded
        (elim o [ none ↦ ends out_of_fuel | some path ↦ required path no_compiler_path ])
unfolding Post required HasEnded
compiler-HasEnded none h = absurd (h refl)
compiler-HasEnded (some none) h = λ e. cc
compiler-HasEnded (some (some path)) h = tt

listed : (failures : List Failure) → status_of failures ≢ no_fuel
listed [] h = cc
listed (_ ∷ _) h = cc

module _ (host : Host) where
  find_compiler-HasEnded :
      (fuel : ℕ) (target : ℕ → Bytes)
      → ((fd capacity : ℕ)
          → (host.readlinkat fd capacity ≡ none)
            ⊎ (host.readlinkat fd capacity ≡ some (take capacity (target fd))))
      → ((fd : ℕ) → length (target fd) < fuel)
      → Post (λ _. Unit) HasEnded (find_compiler host fuel (env_value host.getenv))
  unfolding find_compiler ◌>>◌ fd_to_abs_path
  find_compiler-HasEnded fuel target truncates enough =
      then_Post _ (λ _. Unit) HasEnded _ _
        (required-Post HasEnded _ missing_tool (failure-HasEnded _))
        λ tools _.
          then_Post _ (λ _. Unit) HasEnded _ _
            (require-Post HasEnded (host.allocates arg_buff) out_of_memory (failure-HasEnded _))
            λ _ _.
              let fd = cxx_fd tools in
              let short : length (target fd) < fuel = enough fd in
              compiler-HasEnded _ (
                path_loop-ne-none (host.readlinkat fd) host.path_alloc (target fd) (truncates fd)
                  fuel 32 (omega arith) (omega arith) (omega arith))

  rm_tmp_ends :
      (dir : Bytes) (failures : List Failure) (h : History)
      → (rm_tmp host dir failures h).status ≢ no_fuel
  unfolding rm_tmp
  rm_tmp_ends dir failures h = listed _

  worked_ends : (dir : Bytes) (r : Result) → (worked host dir r).status ≢ no_fuel
  worked_ends dir (none, h) e = cc
  worked_ends dir (some done, h) e = rm_tmp_ends dir _ h e

  in_tmp_ends : (p : Prepared) (dir : Bytes) → (in_tmp host p dir).status ≢ no_fuel
  unfolding in_tmp
  in_tmp_ends p dir = elim (Bool-cases (host.open_tmp dir)) [
    | inl e ↦
        elim (Option-cases
          (concat (host.allocates tmp_pch_abs) dir (codes "/doarr__precompiled"))) [
            | inl a ↦ rw (in_tmp, e, a) (rm_tmp_ends dir _ [])
            | inr (pch, a) ↦
                rw (in_tmp, e, a) (worked_ends dir (dcc_gen_main _ host.work p.config p.files []))
          ]
    | inr e ↦ rw (in_tmp, e) (rm_tmp_ends dir _ [])
  ]

  make_tmp_ends : (p : Prepared) → (make_tmp host p).status ≢ no_fuel
  unfolding make_tmp
  make_tmp_ends p =
      elim (Option-cases (concat (host.allocates tmp) (p.values env_tmp) (codes "/dcc.XXXXXX"))) [
        | inl a ↦ rw (make_tmp, a) (listed (out_of_memory ∷ []))
        | inr (template, a) ↦ elim (Option-cases (host.mkdtemp template)) [
          | inl d ↦ rw (make_tmp, a, d) (listed (cannot_create_tmp ∷ []))
          | inr (dir, d) ↦ rw (make_tmp, a, d) (in_tmp_ends p dir)
        ]
      ]

  go_on_ends :
      (P : Prepared → Type 0) (s : Step Prepared)
      → Post P HasEnded s
      → (go_on host s).status ≢ no_fuel
  unfolding Post HasEnded
  go_on_ends P (ok p) h = make_tmp_ends p
  go_on_ends P (ends (fails e)) h = λ k. cc
  go_on_ends P (ends helped) h = λ k. cc
  go_on_ends P (ends crashes) h = λ k. cc
  go_on_ends P (ends out_of_fuel) h = absurd (h refl)

  -- Where each call comes back, main does not run out of fuel, with fuel for the path of the compiler that is
  -- more than the length of what any link gives, when readlinkat fails or writes as much of the target as
  -- there is room for.
  pub main-ne-no_fuel :
      (fuel : ℕ) (argv : List Bytes) (target : ℕ → Bytes)
      → ((fd capacity : ℕ)
          → (host.readlinkat fd capacity ≡ none)
            ⊎ (host.readlinkat fd capacity ≡ some (take capacity (target fd))))
      → ((fd : ℕ) → length (target fd) < fuel)
      → (main host fuel argv).status ≢ no_fuel
  unfolding main
  main-ne-no_fuel fuel argv target truncates enough = go_on_ends _ (prepare host fuel argv) (
      prepare-Post host HasEnded failure-HasEnded helped-HasEnded crashes-HasEnded fuel argv
        (λ _. Unit) (find_compiler-HasEnded fuel target truncates enough))
