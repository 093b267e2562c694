-- ===== src/Files/Messages.antt =====
-- dcc/dcc_util.c and dcc/dcc.h: the messages on standard error. `argv0` is dcc_argv0, and `error` is
-- strerror(errno).
use doarr.Base.{ℕ, ◌≢◌, Bytes, codes, List, [], ◌∷◌, ◌++◌}

module _ (argv0 : Bytes) where
  -- dcc_errf, with the text that its format gives.
  unfoldable pub dcc_err : Bytes → Bytes
  dcc_err msg = argv0 ++ codes ": " ++ msg ++ codes "\n"

  unfoldable pub dcc_perror : Bytes → Bytes → Bytes
  dcc_perror error msg = argv0 ++ codes ": " ++ msg ++ codes ": " ++ error ++ codes "\n"

  unfoldable pub dcc_perror_s : Bytes → Bytes → Bytes → Bytes
  dcc_perror_s error msg arg =
      argv0 ++ codes ": " ++ msg ++ codes " '" ++ arg ++ codes "': " ++ error ++ codes "\n"

  -- The loop over the arguments.
  abbrev pub spaced : List Bytes → Bytes
  spaced [] = []
  spaced (arg ∷ args) = b' ' ∷ arg ++ spaced args

  unfoldable pub dcc_err_a : Bytes → List Bytes → Bytes
  dcc_err_a msg args = argv0 ++ codes ": " ++ msg ++ spaced args ++ codes "\n"

unfoldable pub dcc_oom : Bytes
dcc_oom = codes "dcc: out of memory\n"

append-ne-nil : (s t : Bytes) (c : ℕ) → (s ++ c ∷ t) ≢ []
append-ne-nil [] t c e = cc
append-ne-nil (d ∷ s) t c e = cc

pub dcc_err-ne-nil : (argv0 msg : Bytes) → dcc_err argv0 msg ≢ []
unfolding dcc_err
dcc_err-ne-nil argv0 msg = append-ne-nil _ [] 10

pub dcc_perror_s-ne-nil : (argv0 error msg arg : Bytes) → dcc_perror_s argv0 error msg arg ≢ []
unfolding dcc_perror_s
dcc_perror_s-ne-nil argv0 error msg arg = append-ne-nil _ [] 10
