-- ===== src/Program/Checked.antt =====
-- dcc/dcc.c: main makes the temporary directory only behind all its checks.
use doarr.Base.{ℕ, ◌≡◌, Bytes, Option, none, some, List, refl, sym, ◌∙◌}
use doarr.Find.{fd_to_abs_path}
use doarr.Find.Tools.{find_all_tools-resolve_all}
use doarr.Program.Variables.{env_value}
use doarr.Program.Prepare.{
  Host, Ending, Step, ok, ends, fails, helped, crashes, out_of_fuel, ◌>>◌, required, find_compiler,
  Prepared, prepare, missing_tool, no_compiler_path, arg_buff, out_of_memory, cxx_fd,
}
use doarr.Program.Run.{go_on, main}
use doarr.Program.Ready.{Post, then_Post, require-Post, required-Post, Finds, IsReady, prepare-Post}

-- Of an end, nothing.
abbrev Ended : Ending → Type 0
Ended e = Unit

compiler-Post :
    (o : Option (Option Bytes))
    → Post
        (λ path. o ≡ some (some path))
        Ended
        (elim o [ none ↦ ends out_of_fuel | some path ↦ required path no_compiler_path ])
unfolding Post required
compiler-Post none = tt
compiler-Post (some none) = tt
compiler-Post (some (some path)) = refl

weaker_Post :
    (A : Type 0) (P Q : A → Type 0) (s : Step A)
    → ((a : A) → P a → Q a)
    → Post P Ended s
    → Post Q Ended s
unfolding Post
weaker_Post A P Q (ok a) weaken h = weaken a h
weaker_Post A P Q (ends e) weaken h = h

find_compiler-Finds :
    (host : Host) (fuel : ℕ)
    → Post (Finds host fuel) Ended (find_compiler host fuel (env_value host.getenv))
unfolding find_compiler ◌>>◌
find_compiler-Finds host fuel =
    then_Post _ (Finds host fuel) Ended _ _ (required-Post Ended _ missing_tool tt) λ tools found.
      then_Post _ (Finds host fuel) Ended _ _
        (require-Post Ended (host.allocates arg_buff) out_of_memory tt)
        λ _ _.
          weaker_Post Bytes _ _ _
            (λ path e. (
              tools,
              sym (
                    find_all_tools-resolve_all host.open_tool host.open_dir host.openat
                      host.is_executable _ _)
                  ∙ found,
              e,
            ))
            (compiler-Post (fd_to_abs_path (host.readlinkat (cxx_fd tools)) host.path_alloc fuel))

made_step :
    (host : Host) (P : Prepared → Type 0) (s : Step Prepared) (dir : Bytes)
    → Post P Ended s
    → (go_on host s).made ≡ some dir
    → (p : Prepared) × P p
unfolding Post
made_step host P (ok p) dir h made = (p, h)
made_step host P (ends (fails e)) dir h made = cc
made_step host P (ends helped) dir h made = cc
made_step host P (ends crashes) dir h made = cc
made_step host P (ends out_of_fuel) dir h made = cc

-- When main has made a temporary directory, then the command line was read without an error message,
-- it asks for exactly one of -c and -E and names an input file; each of the four tools that the
-- environment names has been resolved, the path of the compiler is known, and the name of the
-- directory for temporary files is shorter than 1024.
pub main-IsReady :
    (host : Host) (fuel : ℕ) (argv : List Bytes) (dir : Bytes)
    → (main host fuel argv).made ≡ some dir
    → (p : Prepared) × IsReady host argv (Finds host fuel) p
unfolding main
main-IsReady host fuel argv dir made =
    made_step host (IsReady host argv (Finds host fuel)) (prepare host fuel argv) dir
      (prepare-Post host Ended (λ _. tt) tt tt fuel argv (Finds host fuel)
        (find_compiler-Finds host fuel))
      made
