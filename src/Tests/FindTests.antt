-- ===== src/Tests/FindTests.antt =====
-- dcc/dcc.c on a file system with two directories.
use doarr.Base.{
  ℕ, ◌≡◌, ◌==◌, ◌&&◌, not, Bytes, codes, bytes_eq, Bool, Option, none, some, List, [], ◌∷◌,
  if◌then◌else◌, refl,
}
use doarr.Find.{Tool, has_slash, find_in_dir, find_tools_path, find_all_tools}
use doarr.Find.Tools.{resolve_all, find_all_tools-resolve_all}

-- ./ld can be opened by its path; c++ is in /b alone, cc in /a and /b, where it may
-- not be run in /a.
abbrev open_tool : Bytes → Option ℕ
unfolding bytes_eq
open_tool path = if bytes_eq path (codes "./ld") then some 9 else none

abbrev open_dir : Bytes → Option ℕ
unfolding bytes_eq
open_dir dir =
    if bytes_eq dir (codes "/a") then some 3 else if bytes_eq dir (codes "/b") then some 4 else none

abbrev openat : ℕ → Bytes → Option ℕ
unfolding bytes_eq
openat dir name =
    if bytes_eq name (codes "cc")
    then (if dir == 3 then some 5 else some 6)
    else if bytes_eq name (codes "c++") && dir == 4
    then some 7
    else none

abbrev is_executable : ℕ → Bool
is_executable fd = not (fd == 5)

abbrev names : List Bytes
names = codes "c++" ∷ codes "cc" ∷ codes "./ld" ∷ []

abbrev found : List Tool
found =
    record { name = codes "c++"; exec_fd = some 7 }
    ∷ record { name = codes "cc"; exec_fd = some 6 }
    ∷ record { name = codes "./ld"; exec_fd = some 9 }
    ∷ []

finds : find_all_tools open_tool open_dir openat is_executable names (codes "/a::/b") ≡ some found
unfolding find_all_tools find_tools_path find_in_dir has_slash open_tool open_dir openat bytes_eq
finds = refl

find_all_tools-resolve_all_example :
    find_all_tools open_tool open_dir openat is_executable names (codes "/a::/b")
    ≡ resolve_all open_tool open_dir openat is_executable (codes "/a::/b") names
find_all_tools-resolve_all_example =
    find_all_tools-resolve_all open_tool open_dir openat is_executable names (codes "/a::/b")

abbrev target : Bytes
target = codes "/usr/local/lib/toolchains/gnu/bin/x86_64-linux-gnu-g++-14"
