-- ===== src/Find.antt =====
-- dcc/dcc.c: the search for the compiler and the tools.
-- The calls of the system are parameters: `open_tool` opens a path, `open_dir` a directory, `openat` a
-- file in it, each with a descriptor or an error, and `is_executable` asks for the file's mode. A
-- descriptor is never 0 here, so `exec_fd` is no descriptor where it is 0.
pub mod Tools
pub mod Path
use mathlib.Core.Option
use doarr.Base.{
  ℕ, zero, suc, ◌*◌, ◌/◌, Bytes, codes, Bool, true, false, not, ◌||◌, Option, none, some, List, [],
  ◌∷◌, ◌==◌, map, length, ltb, if◌then◌else◌,
}

-- struct tool
pub record Tool : Type 0 where
  pub name : Bytes
  pub exec_fd : Option ℕ

-- strchr(name, '/')
unfoldable pub has_slash : Bytes → Bool
has_slash [] = false
has_slash (c ∷ s) = c == b'/' || has_slash s

-- The elements of PATH, between its colons.
abbrev pub put_first : ℕ → List Bytes → List Bytes
put_first c [] = (c ∷ []) ∷ []
put_first c (elem ∷ elems) = (c ∷ elem) ∷ elems

unfoldable pub split_path : Bytes → List Bytes
split_path [] = [] ∷ []
split_path (c ∷ path) =
    let rest = split_path path in if c == b':' then [] ∷ rest else put_first c rest

module _ (open_tool : Bytes → Option ℕ) (open_dir : Bytes → Option ℕ)
    (openat : ℕ → Bytes → Option ℕ) (is_executable : ℕ → Bool) where
  -- No list is an error, which ends the search.
  unfoldable pub find_tools_slash : List Tool → Option (List Tool)
  find_tools_slash [] = some []
  find_tools_slash (t ∷ tools) =
      let rest = find_tools_slash tools in
      if has_slash t.name
      then elim (open_tool t.name) [
        | none ↦ none
        | some fd ↦
            if is_executable fd
            then Option.map (λ ts. record t { exec_fd = some fd } ∷ ts) rest
            else none
      ]
      else Option.map (λ ts. t ∷ ts) rest

  -- The body of the loop over the tools.
  unfoldable pub find_in_dir : ℕ → Tool → Tool
  find_in_dir dir_fd t = elim t.exec_fd [
    | some fd ↦ t
    | none ↦ elim (openat dir_fd t.name) [
      | none ↦ t
      | some fd ↦ if is_executable fd then record t { exec_fd = some fd } else t
    ]
  ]

  -- AT_FDCWD, which stands for an empty element, is negative, and so is taken for an error.
  unfoldable pub find_tools_path : Bytes → List Tool → List Tool
  find_tools_path [] tools = tools
  find_tools_path (c ∷ dir) tools = elim (open_dir (c ∷ dir)) [
    | none ↦ tools
    | some dir_fd ↦ map (find_in_dir dir_fd) tools
  ]

  -- The loop over the elements of PATH.
  unfoldable pub search_path : List Bytes → List Tool → List Tool
  search_path [] tools = tools
  search_path (elem ∷ elems) tools = search_path elems (find_tools_path elem tools)

  abbrev pub is_found : Tool → Bool
  is_found t = elim t.exec_fd [ none ↦ false | some fd ↦ true ]

  -- The last loop: no tool is missing.
  abbrev pub have_all_tools : List Tool → Bool
  have_all_tools [] = true
  have_all_tools (t ∷ tools) = let rest = have_all_tools tools in if is_found t then rest else false

  unfoldable pub find_all_tools : List Bytes → Bytes → Option (List Tool)
  unfolding split_path find_tools_slash search_path
  find_all_tools names path =
      elim (find_tools_slash (map (λ name. record { name = name; exec_fd = none }) names)) [
        | none ↦ none
        | some tools ↦
            let found = search_path (split_path path) tools in
            if have_all_tools found then some found else none
      ]

-- The loop of `fd_to_abs_path`, on fuel; the inner `none` is NULL. `readlinkat` gives what it writes
-- to a buffer of a capacity, `alloc` says whether malloc or realloc of a capacity succeeds.
module _ (readlinkat : ℕ → Option Bytes) (alloc : ℕ → Bool) where
  unfoldable pub path_loop : ℕ → ℕ → Option (Option Bytes)
  path_loop zero capacity = none
  path_loop (suc fuel) capacity =
      let rest = path_loop fuel (capacity / 2 * 3) in
      if alloc capacity
      then elim (readlinkat capacity) [
        | none ↦ some none
        | some result ↦ if ltb (length result) capacity then some (some result) else rest
      ]
      else some none

  unfoldable pub fd_to_abs_path : ℕ → Option (Option Bytes)
  unfolding path_loop
  fd_to_abs_path fuel = path_loop fuel 32
