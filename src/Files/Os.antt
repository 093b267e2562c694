-- ===== src/Files/Os.antt =====
-- The calls of the operating system in dcc/dcc_util.c and the last part of dcc/dcc_gen.c, with what
-- they are known to do. `World` is the state of the system; a call returns its result and the next
-- state. A path in the temporary directory stands for itself: every call gets the same `tmp_fd`.
use doarr.Base.{ℕ, ◌≤◌, ◌≡◌, Bytes, Bool, true, Option, none, some, ◌++◌, length, take}

pub record Os : Type 1 where
  pub World : Type 0
  pub Fd : Type 0
  -- The contents of a file in the temporary directory, of an open file, and all that was written
  -- through a descriptor: what the laws speak of, which no program can ask for.
  pub files : World → Bytes → Option Bytes
  pub contents : World → Fd → Bytes
  pub output : World → Fd → Bytes
  pub openat : Bytes → World → Option Fd × World
  pub lseek_end : Fd → World → Option ℕ × World
  pub mmap : Fd → ℕ → World → Option Bytes × World
  pub munmap : Bytes → World → World
  pub close : Fd → World → Bool × World
  pub unlinkat : Bytes → World → Bool × World
  pub write : Fd → Bytes → World → Option ℕ × World
  pub renameat : Bytes → Bytes → World → Bool × World
  pub open_output : Bytes → World → Option Fd × World

-- No file appears in the temporary directory, and none there changes.
abbrev pub Shrinks : (os : Os) → os.World → os.World → Type 0
Shrinks os w w' = (name d : Bytes) → os.files w' name ≡ some d → os.files w name ≡ some d

abbrev pub KeepsOutput : (os : Os) → os.World → os.World → Type 0
KeepsOutput os w w' = (fd : os.Fd) → os.output w' fd ≡ os.output w fd

abbrev pub Quiet : (os : Os) → os.World → os.World → Type 0
Quiet os w w' = Shrinks os w w' × KeepsOutput os w w'

-- What the calls are documented to do.
pub record IsLawful (os : Os) : Type 0 where
  pub openat-Quiet : (name : Bytes) (w : os.World) → Quiet os w (os.openat name w).1
  pub lseek_end-Quiet : (fd : os.Fd) (w : os.World) → Quiet os w (os.lseek_end fd w).1
  pub mmap-Quiet : (fd : os.Fd) (n : ℕ) (w : os.World) → Quiet os w (os.mmap fd n w).1
  pub munmap-Quiet : (d : Bytes) (w : os.World) → Quiet os w (os.munmap d w)
  pub close-Quiet : (fd : os.Fd) (w : os.World) → Quiet os w (os.close fd w).1
  pub unlinkat-Quiet : (name : Bytes) (w : os.World) → Quiet os w (os.unlinkat name w).1
  pub renameat-Shrinks :
      (name dest : Bytes) (w : os.World) → Shrinks os w (os.renameat name dest w).1
  pub open_output-Shrinks : (dest : Bytes) (w : os.World) → Shrinks os w (os.open_output dest w).1
  pub openat_opens :
      (name : Bytes) (w : os.World) (fd : os.Fd)
      → (os.openat name w).0 ≡ some fd
      → os.files w name ≡ some (os.contents (os.openat name w).1 fd)
  pub lseek_end_size :
      (fd : os.Fd) (w : os.World) (n : ℕ)
      → (os.lseek_end fd w).0 ≡ some n
      → (n ≡ length (os.contents w fd)) × (os.contents (os.lseek_end fd w).1 fd ≡ os.contents w fd)
  pub mmap_shows :
      (fd : os.Fd) (n : ℕ) (w : os.World) (d : Bytes)
      → (os.mmap fd n w).0 ≡ some d
      → d ≡ take n (os.contents w fd)
  pub write-Shrinks : (fd : os.Fd) (d : Bytes) (w : os.World) → Shrinks os w (os.write fd d w).1
  pub write_appends :
      (fd : os.Fd) (d : Bytes) (w : os.World) (n : ℕ)
      → (os.write fd d w).0 ≡ some n
      → (n ≤ length d) × (os.output (os.write fd d w).1 fd ≡ os.output w fd ++ take n d)
  pub write_fails :
      (fd : os.Fd) (d : Bytes) (w : os.World)
      → (os.write fd d w).0 ≡ none
      → os.output (os.write fd d w).1 fd ≡ os.output w fd
  pub renameat_moves :
      (name dest : Bytes) (w : os.World)
      → (os.renameat name dest w).0 ≡ true
      → os.files (os.renameat name dest w).1 name ≡ none

-- No file that is there resists: behind `unlinkat`, failed for want of the file or not, it is gone.
abbrev pub Clears : Os → Type 0
Clears os = (name : Bytes) (w : os.World) → os.files (os.unlinkat name w).1 name ≡ none
