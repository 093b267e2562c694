-- ===== src/Find/Tools.antt =====
-- dcc/dcc.c: which file each tool is.
use mathlib.Core.Option
use doarr.Base.{
  ℕ, ◌≡◌, Bytes, Bool, Option, none, some, List, [], ◌∷◌, map, if◌then◌else◌, arith, refl, ap, sym,
  ◌∙◌, Bool-cases, Option-cases, inl, inr,
}
use doarr.Find.{
  Tool, has_slash, split_path, find_tools_slash, find_in_dir, find_tools_path, search_path,
  have_all_tools, find_all_tools,
}

module _ (open_tool : Bytes → Option ℕ) (open_dir : Bytes → Option ℕ)
    (openat : ℕ → Bytes → Option ℕ) (is_executable : ℕ → Bool) where
  -- A descriptor of a file that may be run.
  abbrev pub runnable : Option ℕ → Option ℕ
  runnable none = none
  runnable (some fd) = if is_executable fd then some fd else none

  -- The file of the name in a directory; an empty name of a directory stands for none.
  abbrev pub in_dir : Bytes → Bytes → Option ℕ
  in_dir name [] = none
  in_dir name (c ∷ dir) = elim (open_dir (c ∷ dir)) [
    | none ↦ none
    | some dir_fd ↦ runnable (openat dir_fd name)
  ]

  -- The file of the name in the first directory that has one to run.
  abbrev pub first_in : Bytes → List Bytes → Option ℕ
  first_in name [] = none
  first_in name (dir ∷ dirs) = elim (in_dir name dir) [
    | none ↦ first_in name dirs
    | some fd ↦ some fd
  ]

  -- What a shell does: a name with a slash is a path, any other is looked for along PATH.
  abbrev pub resolve : Bytes → Bytes → Option ℕ
  resolve path name =
      if has_slash name then runnable (open_tool name) else first_in name (split_path path)

  abbrev pub resolve_all : Bytes → List Bytes → Option (List Tool)
  resolve_all path [] = some []
  resolve_all path (name ∷ names) = elim (resolve path name) [
    | none ↦ none
    | some fd ↦
        Option.map (λ ts. record { name = name; exec_fd = some fd } ∷ ts) (resolve_all path names)
  ]

  -- One tool along the rest of PATH.
  abbrev search_one : List Bytes → Tool → Tool
  search_one dirs t = elim t.exec_fd [
    | some fd ↦ t
    | none ↦ record t { exec_fd = first_in t.name dirs }
  ]

  not_opened :
      (c : ℕ) (dir : Bytes) (dirs : List Bytes) (name : Bytes) (fd : Option ℕ)
      → open_dir (c ∷ dir) ≡ none
      → search_one dirs (record { name = name; exec_fd = fd })
        ≡ search_one ((c ∷ dir) ∷ dirs) (record { name = name; exec_fd = fd })
  not_opened c dir dirs name (some fd) e = refl
  not_opened c dir dirs name none e = ground (arith, e)

  searched :
      (c : ℕ) (dir : Bytes) (dirs : List Bytes) (dir_fd : ℕ) (name : Bytes) (fd : Option ℕ)
      → open_dir (c ∷ dir) ≡ some dir_fd
      → search_one dirs (
          find_in_dir open_tool open_dir openat is_executable dir_fd
            (record { name = name; exec_fd = fd }))
        ≡ search_one ((c ∷ dir) ∷ dirs) (record { name = name; exec_fd = fd })
  unfolding find_in_dir
  searched c dir dirs dir_fd name (some fd) e = refl
  searched c dir dirs dir_fd name none e = elim (Option-cases (openat dir_fd name)) [
    | inl o ↦ ground (arith, e, o)
    | inr (fd, o) ↦ elim (Bool-cases (is_executable fd)) [
      | inl x ↦ ground (arith, e, o, x)
      | inr x ↦ ground (arith, e, o, x)
    ]
  ]

  no_more :
      (name : Bytes) (fd : Option ℕ)
      → search_one [] (record { name = name; exec_fd = fd }) ≡ record { name = name; exec_fd = fd }
  no_more name none = refl
  no_more name (some fd) = refl

  map-same : (ts : List Tool) → map (search_one []) ts ≡ ts
  map-same [] = refl
  map-same (t ∷ ts) = rw (no_more t.name t.exec_fd, map-same ts) refl

  map-pointwise :
      (g g' : Tool → Tool) (ts : List Tool) → ((t : Tool) → g t ≡ g' t) → map g ts ≡ map g' ts
  map-pointwise g g' [] h = refl
  map-pointwise g g' (t ∷ ts) h = rw (h t, map-pointwise g g' ts h) refl

  map-twice : (g g' : Tool → Tool) (ts : List Tool) → map g (map g' ts) ≡ map (λ t. g (g' t)) ts
  map-twice g g' [] = refl
  map-twice g g' (t ∷ ts) = ap (λ rest. g (g' t) ∷ rest) (map-twice g g' ts)

  find_tools_path-map :
      (dir : Bytes) (dirs : List Bytes) (ts : List Tool)
      → map (search_one dirs) (find_tools_path open_tool open_dir openat is_executable dir ts)
        ≡ map (search_one (dir ∷ dirs)) ts
  unfolding find_tools_path
  find_tools_path-map [] dirs ts = refl
  find_tools_path-map (c ∷ dir) dirs ts = elim (Option-cases (open_dir (c ∷ dir))) [
    | inl e ↦
        rw (find_tools_path, e)
          (map-pointwise _ _ ts (λ t. not_opened c dir dirs t.name t.exec_fd e))
    | inr (d, e) ↦
        rw (find_tools_path, e)
          (map-twice (search_one dirs) _ ts
            ∙ map-pointwise _ _ ts (λ t. searched c dir dirs d t.name t.exec_fd e))
  ]

  search_path-map :
      (dirs : List Bytes) (ts : List Tool)
      → search_path open_tool open_dir openat is_executable dirs ts ≡ map (search_one dirs) ts
  unfolding search_path
  search_path-map [] ts = sym (map-same ts)
  search_path-map (dir ∷ dirs) ts =
      search_path-map dirs (find_tools_path open_tool open_dir openat is_executable dir ts)
      ∙ find_tools_path-map dir dirs ts

  -- What `find_all_tools` does with the list that `find_tools_slash` gives.
  abbrev finish : Bytes → Option (List Tool) → Option (List Tool)
  finish path none = none
  finish path (some tools) =
      let found = map (search_one (split_path path)) tools in
      if have_all_tools open_tool open_dir openat is_executable found then some found else none

  abbrev unfound : Bytes → Tool
  unfound name = record { name = name; exec_fd = none }

  abbrev found_as : Bytes → ℕ → Tool
  found_as name fd = record { name = name; exec_fd = some fd }

  finish_found :
      (path name : Bytes) (fd : ℕ) (rest : Option (List Tool))
      → finish path (Option.map (λ ts. found_as name fd ∷ ts) rest)
        ≡ Option.map (λ ts. found_as name fd ∷ ts) (finish path rest)
  finish_found path name fd none = refl
  finish_found path name fd (some ts) =
      elim (Bool-cases (
        have_all_tools open_tool open_dir openat is_executable
          (map (search_one (split_path path)) ts))) [ inl e ↦ rw e refl | inr e ↦ rw e refl ]

  finish_searched :
      (path name : Bytes) (fd : ℕ) (rest : Option (List Tool))
      → first_in name (split_path path) ≡ some fd
      → finish path (Option.map (λ ts. unfound name ∷ ts) rest)
        ≡ Option.map (λ ts. found_as name fd ∷ ts) (finish path rest)
  finish_searched path name fd none f = refl
  finish_searched path name fd (some ts) f = rw f (finish_found path name fd (some ts))

  finish_missing :
      (path name : Bytes) (rest : Option (List Tool))
      → first_in name (split_path path) ≡ none
      → finish path (Option.map (λ ts. unfound name ∷ ts) rest) ≡ none
  finish_missing path name none f = refl
  finish_missing path name (some ts) f = rw f refl

  finish-resolve_all :
      (path : Bytes) (names : List Bytes)
      → finish path (find_tools_slash open_tool open_dir openat is_executable (map unfound names))
        ≡ resolve_all path names
  unfolding find_tools_slash
  finish-resolve_all path [] = refl
  finish-resolve_all path (name ∷ names) =
      let ih = finish-resolve_all path names in
      let rest = find_tools_slash open_tool open_dir openat is_executable (map unfound names) in
      elim (Bool-cases (has_slash name)) [
        | inl s ↦ elim (Option-cases (open_tool name)) [
          | inl o ↦ rw (resolve_all, s, o) refl
          | inr (fd, o) ↦ elim (Bool-cases (is_executable fd)) [
            | inl x ↦
                rw (resolve_all, s, o, x)
                  (finish_found path name fd rest
                    ∙ ap (Option.map (λ ts. found_as name fd ∷ ts)) ih)
            | inr x ↦ rw (resolve_all, s, o, x) refl
          ]
        ]
        | inr s ↦ elim (Option-cases (first_in name (split_path path))) [
          | inl f ↦ rw (resolve_all, s, f) (finish_missing path name rest f)
          | inr (fd, f) ↦
              rw (resolve_all, s, f)
                (finish_searched path name fd rest f
                  ∙ ap (Option.map (λ ts. found_as name fd ∷ ts)) ih)
        ]
      ]

  -- The tools that are found are those that each name resolves to on its own: a name with a slash is
  -- a path, and any other is the first file to run along the elements of PATH that are not empty. It
  -- is an error when one of the names resolves to nothing.
  pub find_all_tools-resolve_all :
      (names : List Bytes) (path : Bytes)
      → find_all_tools open_tool open_dir openat is_executable names path ≡ resolve_all path names
  unfolding find_all_tools
  find_all_tools-resolve_all names path =
      elim (Option-cases
        (find_tools_slash open_tool open_dir openat is_executable (map unfound names))) [
          | inl e ↦
              rw (find_all_tools, e) (ap (finish path) (sym e) ∙ finish-resolve_all path names)
          | inr (ts, e) ↦
              rw (find_all_tools, e, search_path-map (split_path path) ts)
                (ap (finish path) (sym e) ∙ finish-resolve_all path names)
        ]
