-- ===== src/Runtime/TmpPath.antt =====
-- runtime/io.c: the names of temporary files.
-- A `tmp_path` is the list of its 31 characters in front of the last, which is always the null.
pub mod Counter
pub mod Init
use mathlib.Core.List.{reverse}
use mathlib.Core.Option
use doarr.Base.{
  ℕ, ◌+◌, Bool, true, false, Bytes, codes, Option, none, some, [], ◌∷◌, ◌++◌, ◌==◌, if◌then◌else◌,
}

-- struct doarr_io_ctx
pub record IoCtx : Type 0 where
  pub tmp_path : Bytes

-- The loop of `tmp_path_inc`, over the characters from the last to the first; `none` is `abort()`,
-- or a step in front of the array.
unfoldable pub inc_back : Bytes → Option Bytes
inc_back [] = none
inc_back (c ∷ cs) =
    let next = Option.map (λ r. b'a' ∷ r) (inc_back cs) in
    if c == b'z' then next else if c == b'/' then none else some ((c + 1) ∷ cs)

unfoldable pub tmp_path_inc : IoCtx → Option IoCtx
unfolding inc_back
tmp_path_inc ctx =
    Option.map (λ back. record { tmp_path = reverse back }) (inc_back (reverse ctx.tmp_path))

-- The full path, and the context for the next one. The extension is copied with its null.
unfoldable pub doarr_tmp_path : IoCtx → Bytes → Option (Bytes × IoCtx)
unfolding tmp_path_inc
doarr_tmp_path ctx ext = Option.map (λ ctx'. (ctx.tmp_path ++ ext, ctx')) (tmp_path_inc ctx)

-- `tmp_path_template`, both nulls included.
abbrev pub tmp_path_template : Bytes
tmp_path_template = codes "/tmp/doarr.XXXXXX" ++ 0 ∷ codes "aaaaaaaaaaaaa" ++ 0 ∷ []

-- What stands from the first null on.
abbrev pub behind_string : Bytes → Bytes
behind_string [] = []
behind_string (c ∷ s) = if c == 0 then c ∷ s else behind_string s

-- `chars[strlen(chars)] = c`
abbrev pub put_at_end : ℕ → Bytes → Bytes
put_at_end c [] = []
put_at_end c (d ∷ s) = if d == 0 then c ∷ s else d ∷ put_at_end c s

pub data ForkResult : Type 0 where
  fork_error parent child : ForkResult

-- How `doarr_io_init` ends: -1, with the directory that it removes again; in the child, which waits
-- for the end of the process and becomes `rm`; or 0, with the context.
pub data InitResult : Type 0 where
  no_directory : InitResult
  removed : Bytes → InitResult
  removes_later : Bytes → InitResult
  ready : IoCtx → InitResult

abbrev but_last : Bytes → Bytes
but_last [] = []
but_last (c ∷ []) = []
but_last (c ∷ d ∷ s) = c ∷ but_last (d ∷ s)

-- `mkdtemp` is what mkdtemp makes of the template's C string, `none` an error.
unfoldable pub doarr_io_init : Option Bytes → Bool → ForkResult → InitResult
doarr_io_init none pipe_ok fork = no_directory
doarr_io_init (some path) false fork = removed path
doarr_io_init (some path) true fork_error = removed path
doarr_io_init (some path) true child = removes_later path
doarr_io_init (some path) true parent =
    ready
      (record { tmp_path = but_last (put_at_end b'/' (path ++ behind_string tmp_path_template)) })
