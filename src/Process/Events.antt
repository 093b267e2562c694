-- ===== src/Process/Events.antt =====
-- The calls that dcc makes of the system while it works on the temporary directory, with their
-- record.
use Prim.{⊥}
use doarr.Base.{
  ℕ, Bytes, Bool, true, false, ◌||◌, not, ◌&&◌, ◌==◌, List, [], ◌∷◌, if◌then◌else◌, map,
}

-- The files in the temporary directory: DOARR_PRECOMPILED, tmp.c, tmp.o, the output for the file of
-- an index, and all.o. The name of an output begins with a digit, and outputs have different names
-- (Files/Names/Distinct).
pub data TmpFile : Type 0 where
  tmp_pch tmp_c tmp_o tmp_output_combined : TmpFile
  tmp_output_file : ℕ → TmpFile

-- A word of a command line: a text, or the name of a temporary file.
pub data Word : Type 0 where
  word : Bytes → Word
  file : TmpFile → Word

-- enum tool_id, without the C++ compiler
pub data ToolId : Type 0 where
  tool_cc tool_ld tool_objcopy : ToolId

pub data Child : Type 0 where
  precompiler preprocessor : Child
  tool : ToolId → Child

-- A call, or what a call that ended well says.
pub data Event : Type 0 where
  -- pipe, fork, close of the write end in the parent, fdopen, and close of both ends
  make_pipe close_write_end open_output close_pipe : Event
  start : Child → List Word → Event
  -- dcc_wait
  wait : Child → Event
  -- dcc_fopenat, generate_c_part1 and what it says of functions, fclose of the two streams, and
  -- ferror with fclose
  open_c : TmpFile → Event
  write_part1 have_any_functions close_c close_output check_close_c : Event
  -- whether generate_c_part1 writes to the stream, where that is null
  write_null : Event
  -- dcc_unlink and dcc_unlink_if_ex, dcc_map, dcc_unmap, fstatat
  unlink unlink_if_ex map_file stat_file : TmpFile → Event
  unmap write_part2_txt write_part2_bin : Event
  -- open of the final output, cat_unlink_close, and move_from_tmp to a path
  open_final : Event
  cat_unlink_close : List TmpFile → Event
  move_from_tmp : TmpFile → Bytes → Event

-- The latest call first, each with its success.
abbrev pub History : Type 0
History = List (Event × Bool)

abbrev pub Env : Type 0
Env = History → Event → Bool

unfoldable pub tell : Env → Event → History → History
tell env e h = (e, env h e) ∷ h

-- A call, and how it goes on behind its success and behind its failure.
unfoldable pub try : {A : Type 0} → Env → Event → History → (History → A) → (History → A) → A
try env e h ok err = if env h e then ok ((e, true) ∷ h) else err ((e, false) ∷ h)

-- What is held until it is given back: a child that dcc_wait has not been called for, and a stream that
-- is open. Behind dcc_wait the process id is forgotten, however it ends.
pub data Held : Type 0 where
  child : Child → Held
  c_file preprocessor_output : Held

abbrev tool_eq : ToolId → ToolId → Bool
tool_eq tool_cc tool_cc = true
tool_eq tool_ld tool_ld = true
tool_eq tool_objcopy tool_objcopy = true
tool_eq _ _ = false

abbrev child_eq : Child → Child → Bool
child_eq precompiler precompiler = true
child_eq preprocessor preprocessor = true
child_eq (tool t) (tool u) = tool_eq t u
child_eq _ _ = false

abbrev pub held_eq : Held → Held → Bool
held_eq (child c) (child d) = child_eq c d
held_eq c_file c_file = true
held_eq preprocessor_output preprocessor_output = true
held_eq _ _ = false

-- Without the first that is equal.
abbrev pub give_back : Held → List Held → List Held
give_back x [] = []
give_back x (y ∷ ys) = if held_eq x y then ys else y ∷ give_back x ys

abbrev pub held : History → List Held
held [] = []
held ((start c args, true) ∷ h) = child c ∷ held h
held ((wait c, b) ∷ h) = give_back (child c) (held h)
held ((open_c f, true) ∷ h) = c_file ∷ held h
held ((open_output, true) ∷ h) = preprocessor_output ∷ held h
held ((close_c, b) ∷ h) = give_back c_file (held h)
held ((check_close_c, b) ∷ h) = give_back c_file (held h)
held ((close_output, b) ∷ h) = give_back preprocessor_output (held h)
held (_ ∷ h) = held h

abbrev pub same_file : TmpFile → TmpFile → Bool
same_file tmp_pch tmp_pch = true
same_file tmp_c tmp_c = true
same_file tmp_o tmp_o = true
same_file tmp_output_combined tmp_output_combined = true
same_file (tmp_output_file i) (tmp_output_file j) = i == j
same_file _ _ = false

-- What a command may write: each file that its words name. The path of the precompiled header is a
-- text on the precompiler's line.
abbrev pub names : List Word → TmpFile → Bool
names [] f = false
names (word s ∷ args) f = names args f
names (file g ∷ args) f = same_file g f || names args f

abbrev pub writes : Child → List Word → TmpFile → Bool
writes precompiler args f = same_file tmp_pch f
writes preprocessor args f = false
writes (tool t) args f = names args f

-- The files that were made and that no call was to remove since. cat_unlink_close and move_from_tmp
-- call unlinkat for each of their files, however they end (Files/NoLeftovers).
abbrev pub left_over : History → TmpFile → Bool
left_over [] f = false
left_over ((start c args, true) ∷ h) f = writes c args f || left_over h f
left_over ((open_c g, true) ∷ h) f = same_file g f || left_over h f
left_over ((unlink g, b) ∷ h) f = not (same_file g f) && left_over h f
left_over ((unlink_if_ex g, b) ∷ h) f = not (same_file g f) && left_over h f
left_over ((cat_unlink_close fs, b) ∷ h) f = not (names (map file fs) f) && left_over h f
left_over ((move_from_tmp g dest, b) ∷ h) f = not (same_file g f) && left_over h f
left_over (_ ∷ h) f = left_over h f

-- The files that may be in the temporary directory: one that a failing call of dcc_unlink or
-- dcc_unlink_if_ex was to remove still is. Of cat_unlink_close and move_from_tmp see Files/NoLeftovers,
-- where no unlinkat fails.
abbrev pub present : History → TmpFile → Bool
present [] f = false
present ((start c args, true) ∷ h) f = writes c args f || present h f
present ((open_c g, true) ∷ h) f = same_file g f || present h f
present ((unlink g, true) ∷ h) f = not (same_file g f) && present h f
present ((unlink_if_ex g, true) ∷ h) f = not (same_file g f) && present h f
present ((cat_unlink_close fs, b) ∷ h) f = not (names (map file fs) f) && present h f
present ((move_from_tmp g dest, b) ∷ h) f = not (same_file g f) && present h f
present (_ ∷ h) f = present h f

-- No call of dcc_unlink or dcc_unlink_if_ex failed.
abbrev pub RemovalsWork : History → Type 0
RemovalsWork [] = Unit
RemovalsWork ((unlink g, false) ∷ h) = ⊥
RemovalsWork ((unlink_if_ex g, false) ∷ h) = ⊥
RemovalsWork (_ ∷ h) = RemovalsWork h
