-- ===== src/Tests/FilesTests.antt =====
-- dcc/dcc_gen.c on a small file system, where a call of `write` takes two bytes at most and no file
-- can be renamed out of the temporary directory.
use Prim.Native.Nat.{min}
use mathlib.Core.Option
use doarr.Base.{
  ◌==◌, ◌≡◌, ◌≢◌, Bytes, codes, bytes_eq, bytes_eq_refl, ap, Bool, true, false, Option, none, some,
  List, [], ◌∷◌, ◌++◌, length, take, if◌then◌else◌, arith, refl, Bool-cases, inl, inr,
}
use doarr.Files.Os.{Os, IsLawful, Clears, Shrinks}
use doarr.Files.Cat.{joined, cat_unlink_close, cat_unlink_close-joined}
use doarr.Files.Messages.{dcc_err, dcc_perror_s, dcc_err_a}
use doarr.Files.Child.{SigInfo.exited, dcc_wait, ExecError, became, dcc_fexecv}
use doarr.Files.Open.{UnlinkError, dcc_fopenat, dcc_unlink_if_ex}
use doarr.Base.Decimal.{digits}
use doarr.Base.Int.{negsuc}
use doarr.Files.Names.{tmp_output}
use doarr.Files.Names.Distinct.{tmp_output-distinct}
use doarr.Files.NoLeftovers.{Removed, cat_unlink_close-Removed}

pub record Disk : Type 0 where
  pub dir : Bytes → Option Bytes
  pub out : Bytes

abbrev pub remove : Bytes → Disk → Disk
remove name w = record w { dir = λ other. if bytes_eq other name then none else w.dir other }

abbrev pub disk : Os
disk = record {
  World = Disk;
  Fd = Bytes;
  files = λ w name. w.dir name;
  contents = λ w fd. fd;
  output = λ w fd. w.out;
  openat = λ name w. (w.dir name, w);
  lseek_end = λ fd w. (some (length fd), w);
  mmap = λ fd n w. (some (take n fd), w);
  munmap = λ d w. w;
  close = λ fd w. (true, w);
  unlinkat = λ name w. (true, remove name w);
  write =
      λ fd d w. (some (min 2 (length d)), record w { out = w.out ++ take (min 2 (length d)) d });
  renameat = λ name dest w. (false, w);
  open_output = λ dest w. (some [], record w { out = [] });
}

pub remove-Shrinks : (name : Bytes) (w : Disk) → Shrinks disk w (remove name w)
remove-Shrinks name w other d e = elim (Bool-cases (bytes_eq other name)) [
  | inl h ↦ absurd (ground arith)
  | inr h ↦ ground arith
]

pub disk-Clears : Clears disk
disk-Clears name w = ground (arith, bytes_eq_refl name)

pub disk-IsLawful : IsLawful disk
disk-IsLawful = record {
  openat-Quiet = λ name w. (λ n d e. e, λ fd. refl);
  lseek_end-Quiet = λ fd w. (λ n d e. e, λ fd'. refl);
  mmap-Quiet = λ fd k w. (λ n d e. e, λ fd'. refl);
  munmap-Quiet = λ d w. (λ n d' e. e, λ fd. refl);
  close-Quiet = λ fd w. (λ n d e. e, λ fd'. refl);
  unlinkat-Quiet = λ name w. (remove-Shrinks name w, λ fd. refl);
  renameat-Shrinks = λ name dest w n d e. e;
  open_output-Shrinks = λ dest w n d e. e;
  openat_opens = λ name w fd e. e;
  lseek_end_size = λ fd w n e. (ground arith, refl);
  mmap_shows = λ fd n w d e. ground arith;
  write-Shrinks = λ fd d w n c e. e;
  write_appends = λ fd d w n e.
      let m : min 2 (length d) ≡ n = ground arith in (omega arith, ap (λ k. w.out ++ take k d) m);
  write_fails = λ fd d w e. absurd (ground arith);
  renameat_moves = λ name dest w e. absurd (ground arith);
}

abbrev full : Disk
full = record {
  dir = λ name.
      if bytes_eq name (codes "0.a")
      then some (codes "int f;")
      else if bytes_eq name (codes "1.b")
      then some (codes "x")
      else none;
  out = codes "//";
}

abbrev names : List Bytes
names = codes "0.a" ∷ codes "1.b" ∷ []

abbrev done : Disk
done = record (remove (codes "1.b") (remove (codes "0.a") full)) { out = codes "//int f;x" }

joins : cat_unlink_close disk names [] full ≡ some (true, done)
unfolding cat_unlink_close bytes_eq Option.bind
joins = refl

cat_unlink_close-joined_example :
    (x : Bytes) × (joined full.dir names ≡ some x) × (done.out ≡ full.out ++ x)
cat_unlink_close-joined_example =
    cat_unlink_close-joined disk disk-IsLawful names [] full done joins

cat_unlink_close-Removed_example :
    (ok : Bool) × (w' : Disk) × (cat_unlink_close disk (codes "2.c" ∷ names) [] full
      ≡ some (ok, w'))
    × Removed disk (codes "2.c" ∷ names) full w'
cat_unlink_close-Removed_example =
    cat_unlink_close-Removed disk disk-IsLawful disk-Clears (codes "2.c" ∷ names) [] full

names_output : tmp_output 12 (codes "src/a.cpp") ≡ codes "12.a.cpp"
unfolding tmp_output
names_output = refl

tmp_output-distinct_example : tmp_output 1 (codes "src/2.cpp") ≢ tmp_output 12 (codes "cpp")
tmp_output-distinct_example =
    tmp_output-distinct 1 12 (codes "src/2.cpp") (codes "cpp") (omega arith) (omega arith)
      (omega arith)

waits :
    dcc_wait (codes "dcc") [] (exited 2) (codes "cc")
    ≡ (false, negsuc 0, codes "dcc: cc exited with status 2\n")
unfolding dcc_wait dcc_err digits
waits = refl

-- A script is not found while its descriptor is closed on exec, and is run again without that flag.
runs_script :
    dcc_fexecv
      (codes "dcc")
      []
      (λ flags. if flags == 0 then none else some ExecError.enoent)
      (some 1)
      (λ flags. true)
      (codes "error")
      1
      (codes "cc")
    ≡ became 0
unfolding dcc_fexecv
runs_script = refl

lists :
    dcc_err_a (codes "dcc") (codes "fork") (codes "a" ∷ codes "b" ∷ []) ≡ codes "dcc: fork a b\n"
unfolding dcc_err_a
lists = refl

no_stream :
    dcc_fopenat (codes "dcc") (codes "rt: ") (codes "no memory") (some 5) false true (codes "tmp.c")
    ≡ record {
      file = none;
      still_open = [];
      messages = codes "dcc: rt: fdopen 'tmp.c': no memory\n";
    }
unfolding dcc_fopenat dcc_perror_s
no_stream = refl

already_gone : dcc_unlink_if_ex (codes "dcc") [] [] (some UnlinkError.enoent) (codes "tmp.c") ≡ []
unfolding dcc_unlink_if_ex
already_gone = refl
