-- ===== src/Files/Open.antt =====
-- dcc/dcc_util.c: the wrappers `dcc_close`, `dcc_fopenat` and `dcc_unlink_if_ex`. Each writes a
-- message where its call fails; `text` is strerror(errno) behind a call, and `rt_err` is RT_ERR.
use doarr.Base.{
  ℕ, ◌≡◌, Bytes, codes, Bool, true, false, Option, none, some, List, [], ◌∷◌, ◌++◌, if◌then◌else◌,
  refl,
}
use doarr.Files.Messages.{dcc_perror_s}

-- How a call of unlinkat fails.
pub data UnlinkError : Type 0 where
  enoent other_error : UnlinkError

-- What a call leaves: its result, the descriptors that it has opened and that are open, and what was
-- written to standard error.
pub record Opened : Type 0 where
  pub file : Option ℕ
  pub still_open : List ℕ
  pub messages : Bytes

module _ (argv0 rt_err text : Bytes) where
  -- The message; the flag says whether close succeeds. The descriptor is gone in any case.
  unfoldable pub dcc_close : Bool → Bytes → Bytes
  dcc_close closes msg =
      if closes then [] else dcc_perror_s argv0 text (rt_err ++ codes "close") msg

  -- `opened` is what openat gives; then follow the success of fdopen and of close.
  unfoldable pub dcc_fopenat : Option ℕ → Bool → Bool → Bytes → Opened
  unfolding dcc_close
  dcc_fopenat none fdopens closes basename = record {
    file = none;
    still_open = [];
    messages = dcc_perror_s argv0 text (rt_err ++ codes "openat") basename;
  }
  dcc_fopenat (some fd) true closes basename = record {
    file = some fd;
    still_open = fd ∷ [];
    messages = [];
  }
  dcc_fopenat (some fd) false closes basename = record {
    file = none;
    still_open = [];
    messages =
        dcc_perror_s argv0 text (rt_err ++ codes "fdopen") basename ++ dcc_close closes basename;
  }

  -- The message; `none` is success.
  unfoldable pub dcc_unlink_if_ex : Option UnlinkError → Bytes → Bytes
  dcc_unlink_if_ex none basename = []
  dcc_unlink_if_ex (some enoent) basename = []
  dcc_unlink_if_ex (some other_error) basename =
      dcc_perror_s argv0 text (rt_err ++ codes "unlinkat") basename

  abbrev of_file : Option ℕ → List ℕ
  of_file none = []
  of_file (some fd) = fd ∷ []

  -- Only the descriptor of the stream that is returned stays open.
  pub dcc_fopenat-still_open :
      (opened : Option ℕ) (fdopens closes : Bool) (basename : Bytes)
      → let r = dcc_fopenat opened fdopens closes basename in r.still_open ≡ of_file r.file
  unfolding dcc_fopenat
  dcc_fopenat-still_open none fdopens closes basename = refl
  dcc_fopenat-still_open (some fd) true closes basename = refl
  dcc_fopenat-still_open (some fd) false closes basename = refl
