-- ===== src/Runtime/Remover.antt =====
-- runtime/io.c: the child that doarr_io_init starts, which removes the temporary directory when the
-- process has ended. The write end of the pipe is held by the process, by the compilers that it starts
-- and what these start, which inherit it, and by the child until it closes its own.
use doarr.Base.{ℕ, suc, ◌≡◌, ◌⊎◌, Bool, true, false, Bytes, codes, List, [], ◌∷◌}

-- Where the child stands: behind fork, with its signals blocked, with its end of the pipe closed,
-- behind the read, as `rm`, and behind that; or it is dead.
pub data Stage : Type 0 where
  forked signals_blocked write_end_closed read_done removing finished dead : Stage

-- `holds_write` and `holds_read` say whether the process has the two ends of the pipe open, `others` is
-- the number of the processes that it or its children have started and that have inherited the write end.
pub record Processes : Type 0 where
  pub is_running : Bool
  pub holds_write : Bool
  pub holds_read : Bool
  pub others : ℕ
  pub stage : Stage
  pub child_holds_write : Bool
  pub directory : Bool

-- The vector of execve.
abbrev pub remover_argv : Bytes → List Bytes
remover_argv tmp_path = codes "rm" ∷ codes "-rf" ∷ tmp_path ∷ []

-- The child ends, and the system closes what it held.
abbrev pub ended : Processes → Processes
ended s = record s { stage = dead; child_holds_write = false }

-- One step of the process, of a process that it started, or of the child. Whether execve and `rm`
-- succeed is open at each step; `read_fails` says whether read can fail.
pub data Step (read_fails : Bool) : Processes → Processes → Type 0 where
  -- close(fds[0]) in the parent
  close_read_end :
      (s : Processes) → s.is_running ≡ true → Step read_fails s (record s { holds_read = false })
  start_other :
      (s : Processes)
      → s.is_running ≡ true
      → s.holds_write ≡ true
      → Step read_fails s (record s { others = suc s.others })
  other_forks :
      (s : Processes) (n : ℕ)
      → s.others ≡ suc n
      → Step read_fails s (record s { others = suc (suc n) })
  other_ends :
      (s : Processes) (n : ℕ) → s.others ≡ suc n → Step read_fails s (record s { others = n })
  -- The process ends, in any way, and the system closes its end of the pipe.
  process_ends :
      (s : Processes)
      → s.is_running ≡ true
      → Step read_fails s (record s { is_running = false; holds_write = false; holds_read = false })
  -- sigfillset and sigprocmask, or their failure and `_exit`
  block_signals :
      (s : Processes) → s.stage ≡ forked → Step read_fails s (record s { stage = signals_blocked })
  no_block : (s : Processes) → s.stage ≡ forked → Step read_fails s (ended s)
  -- a signal in front of sigprocmask, and SIGKILL at any time
  killed : (s : Processes) → Step read_fails s (ended s)
  close_write_end :
      (s : Processes)
      → s.stage ≡ signals_blocked
      → Step read_fails s (record s { stage = write_end_closed; child_holds_write = false })
  -- Nothing is ever written, so read returns when no one holds the write end.
  read_end :
      (s : Processes)
      → s.stage ≡ write_end_closed
      → s.holds_write ≡ false
      → s.child_holds_write ≡ false
      → s.others ≡ 0
      → Step read_fails s (record s { stage = read_done })
  -- Its result is not looked at.
  read_error :
      (s : Processes)
      → read_fails ≡ true
      → s.stage ≡ write_end_closed
      → Step read_fails s (record s { stage = read_done })
  execve : (s : Processes) → s.stage ≡ read_done → Step read_fails s (record s { stage = removing })
  no_execve : (s : Processes) → s.stage ≡ read_done → Step read_fails s (ended s)
  remove :
      (s : Processes)
      → s.stage ≡ removing
      → Step read_fails s (record s { stage = finished; directory = false })
  no_remove :
      (s : Processes) → s.stage ≡ removing → Step read_fails s (record s { stage = finished })

pub data Reach (read_fails : Bool) (s : Processes) : Processes → Type 0 where
  here : Reach read_fails s s
  next : {t u : Processes} → Reach read_fails s t → Step read_fails t u → Reach read_fails s u

-- Behind fork.
abbrev pub at_fork : Processes
at_fork = record {
  is_running = true;
  holds_write = true;
  holds_read = true;
  others = 0;
  stage = forked;
  child_holds_write = true;
  directory = true;
}

-- Behind the read no one but the child has been left.
abbrev Behind : Stage → Bool → ℕ → Type 0
Behind read_done holds others = (holds ≡ false) × (others ≡ 0)
Behind removing holds others = (holds ≡ false) × (others ≡ 0)
Behind finished holds others = (holds ≡ false) × (others ≡ 0)
Behind _ holds others = Unit

-- The directory is there, or neither the process nor any that it started runs.
abbrev pub IsKept : Processes → Type 0
IsKept s = (s.directory ≡ true) ⊎ ((s.is_running ≡ false) × (s.others ≡ 0))

abbrev Inv : Processes → Type 0
Inv s =
    Behind s.stage s.holds_write s.others
    × ((s.is_running ≡ false) ⊎ (s.holds_write ≡ true))
    × IsKept s
