-- ===== src/Runtime/System.antt =====
-- The calls of the operating system and of the dynamic loader that the runtime makes, beside those
-- of Files/Os: a call returns its result and the next state.
use doarr.Base.{ℕ, Bytes, Bool, Option, List}
use doarr.Files.Os.{Os}
use doarr.Runtime.TmpPath.{ForkResult}

-- What waitid says of a child that has ended.
pub data WaitStatus : Type 0 where
  exited killed : ℕ → WaitStatus

pub record System : Type 1 where
  pub os : Os
  pub Pid : Type 0
  pub Handle : Type 0
  pub Function : Type 0
  pub File : Type 0
  pub mkdtemp : Bytes → os.World → Option Bytes × os.World
  pub rmdir : Bytes → os.World → os.World
  pub pipe : os.World → Bool × os.World
  pub fork_remover : os.World → ForkResult × os.World
  pub open_new : Bytes → os.World → Option os.Fd × os.World
  pub unlink : Bytes → os.World → Bool × os.World
  -- A child that executes the argument vector; `none` is no vector, but a read out of bounds.
  pub fork_exec : Option (List (Option Bytes)) → os.World → Option Pid × os.World
  pub waitid : Pid → os.World → Option WaitStatus × os.World
  pub dlopen : Bytes → os.World → Option Handle × os.World
  pub dlsym : Handle → Bytes → os.World → Option Function × os.World
  pub dlclose : Handle → os.World → os.World
  pub fopen : Bytes → os.World → Option File × os.World
  pub fputs : Bytes → File → os.World → os.World
  pub fclose : File → os.World → os.World
