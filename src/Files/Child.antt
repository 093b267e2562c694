-- ===== src/Files/Child.antt =====
-- dcc/dcc_util.c: `dcc_fexecv` in a child, and `dcc_wait` for it.
use doarr.Base.{
  ℕ, ◌*◌, ◌/◌, ◌≡◌, ◌≢◌, ◌↔◌, Bytes, codes, Bool, true, false, Option, none, some, [], ◌++◌, ◌==◌,
  if◌then◌else◌, arith, refl, ap, Bool-cases, inl, inr,
}
use doarr.Base.Decimal.{decimal}
use doarr.Base.Int.{ℤ, negsuc}
use doarr.Files.Messages.{dcc_err, dcc_perror_s, dcc_err-ne-nil, dcc_perror_s-ne-nil}

-- What waitid says: an error, with its text, or si_code with si_status.
pub data SigInfo : Type 0 where
  waitid_failed : Bytes → SigInfo
  exited killed : ℕ → SigInfo

-- What dcc_wait changes: the result, `*pid`, and what it writes to standard error. RT_ERR is a
-- parameter, as it depends on NDEBUG.
module _ (argv0 rt_err : Bytes) where
  unfoldable pub dcc_wait : SigInfo → Bytes → Bool × ℤ × Bytes
  unfolding dcc_err dcc_perror_s
  dcc_wait (waitid_failed error) name =
      (false, negsuc 0, dcc_perror_s argv0 error (rt_err ++ codes "waitid") name)
  dcc_wait (exited status) name =
      if status == 0
      then (true, negsuc 0, [])
      else (false, negsuc 0, dcc_err argv0 (name ++ codes " exited with status " ++ decimal status))
  dcc_wait (killed signal) name =
      (false, negsuc 0, dcc_err argv0 (name ++ codes " killed by signal " ++ decimal signal))

-- How a child ends: it is another program, run with the flags of the descriptor, or `_exit(127)` with
-- what was written.
pub data ChildEnd : Type 0 where
  became : ℕ → ChildEnd
  exits_127 : Bytes → ChildEnd

-- How fexecve fails.
pub data ExecError : Type 0 where
  enoent : ExecError
  other_error : ExecError

-- `flags & ~FD_CLOEXEC`
abbrev pub without_cloexec : ℕ → ℕ
without_cloexec flags = flags / 2 * 2

-- `fexecve` says how it fails with the flags of the descriptor, if it does; `get_flags` and `set_flags`
-- are fcntl. `text` is strerror(errno).
module _ (argv0 rt_err : Bytes) (fexecve : ℕ → Option ExecError) (get_flags : Option ℕ)
    (set_flags : ℕ → Bool) (text : Bytes) where
  abbrev again : ℕ → Bytes → ChildEnd
  again flags name = elim (fexecve flags) [
    | none ↦ became flags
    | some e ↦ exits_127 (dcc_perror_s argv0 text (codes "fexecve") name)
  ]

  abbrev drop_cloexec : Bytes → ChildEnd
  drop_cloexec name = elim get_flags [
    | none ↦ exits_127 (dcc_perror_s argv0 text (rt_err ++ codes "fcntl F_GETFD") name)
    | some flags ↦
        if set_flags (without_cloexec flags)
        then again (without_cloexec flags) name
        else exits_127 (dcc_perror_s argv0 text (rt_err ++ codes "fcntl F_SETFD") name)
  ]

  -- `flags` are those that the descriptor has.
  unfoldable pub dcc_fexecv : ℕ → Bytes → ChildEnd
  unfolding dcc_perror_s
  dcc_fexecv flags name = elim (fexecve flags) [
    | none ↦ became flags
    | some enoent ↦ drop_cloexec name
    | some other_error ↦ exits_127 (dcc_perror_s argv0 text (codes "fexecve") name)
  ]

-- What dcc_wait gives for an information.
abbrev pub IsReported : SigInfo → Bool × ℤ × Bytes → Type 0
IsReported info (ok, pid, message) =
    ((ok ≡ true) ↔ (info ≡ exited 0)) × ((message ≡ []) ↔ (ok ≡ true)) × (pid ≡ negsuc 0)

refused :
    (info : SigInfo) (message : Bytes)
    → (info ≢ exited 0)
    → message ≢ []
    → IsReported info (false, negsuc 0, message)
refused info message n m =
    (((λ e. cc), (λ e. absurd (n e))), ((λ e. absurd (m e)), (λ e. cc)), refl)

not_zero : (status : ℕ) → (status == 0) ≡ false → exited status ≢ exited 0
not_zero status e h = let same : status ≡ 0 = cc in ground (arith, e, same)

-- dcc_wait succeeds exactly when the child has exited with status 0, writes a message exactly when it
-- does not succeed, and forgets the process in any case, so that no one waits for it again.
pub dcc_wait-IsReported :
    (argv0 rt_err : Bytes) (info : SigInfo) (name : Bytes)
    → IsReported info (dcc_wait argv0 rt_err info name)
unfolding dcc_wait
dcc_wait-IsReported argv0 rt_err (waitid_failed error) name =
    refused (waitid_failed error) _ (λ e. cc) (dcc_perror_s-ne-nil argv0 error _ name)
dcc_wait-IsReported argv0 rt_err (exited status) name = elim (Bool-cases (status == 0)) [
  | inl e ↦
      let zero_status : status ≡ 0 = ground (arith, e) in
      rw (dcc_wait, e)
        (((λ _. ap exited zero_status), (λ _. refl)), ((λ _. refl), (λ _. refl)), refl)
  | inr e ↦
      rw (dcc_wait, e)
        (refused (exited status) _ (λ h. not_zero status e h) (dcc_err-ne-nil argv0 _))
]
dcc_wait-IsReported argv0 rt_err (killed signal) name =
    refused (killed signal) _ (λ e. cc) (dcc_err-ne-nil argv0 _)
