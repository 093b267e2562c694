-- ===== src/Runtime/Load.antt =====
-- runtime/io.c: the generated source is compiled, and the library is loaded.
pub mod Removed
use mathlib.Core.Option
use doarr.Base.{
  ℕ, ◌≡◌, Bytes, codes, Bool, true, false, Option, none, some, [], ◌∷◌, ◌==◌, if◌then◌else◌,
}
use doarr.Runtime.{GuestFile}
use doarr.Runtime.Execute.{execute_compiler}
use doarr.Runtime.System.{System, WaitStatus, exited, killed}
use doarr.Runtime.TmpPath.{IoCtx, tmp_path_inc}

module _ (S : System) where
  -- The switch over `info`.
  abbrev pub is_ok : WaitStatus → Bool
  is_ok (exited status) = status == 0
  is_ok (killed signal) = false

  unfoldable pub compile : Bytes → Bytes → GuestFile → S.os.World → Bool × S.os.World
  unfolding execute_compiler
  compile cxx_file_name so_file_name file w =
      let (forked, w1) = S.fork_exec (execute_compiler cxx_file_name so_file_name file) w in
      elim forked [
        | none ↦ (false, w1)
        | some pid ↦
            let (waited, w2) = S.waitid pid w1 in
            elim waited [ none ↦ (false, w2) | some info ↦ (is_ok info, w2) ]
      ]

  unfoldable pub try_remove : Bytes → S.os.World → S.os.World
  try_remove file_name w = (S.unlink file_name w).1

-- 0 with what is stored through the pointers, 1, and 2.
pub data LoadResult (S : System) : Type 0 where
  loaded : S.Handle → S.Function → LoadResult S
  not_compiled not_loaded : LoadResult S

module _ (S : System) where
  unfoldable pub load : Bytes → S.os.World → LoadResult S × S.os.World
  unfolding try_remove
  load so_file_name w =
      let (opened, w1) = S.dlopen so_file_name w in
      let w2 = try_remove S so_file_name w1 in
      elim opened [
        | none ↦ (not_loaded, w2)
        | some handle ↦
            let (found, w3) = S.dlsym handle (codes "DOARR_EXPORT") w2 in
            elim found [
              | none ↦ (not_loaded, S.dlclose handle w3)
              | some fn ↦ (loaded handle fn, w3)
            ]
      ]

  -- `none` is abort(): the names have run out.
  unfoldable pub doarr_compile_and_load :
      IoCtx → Bytes → GuestFile → S.os.World → Option (LoadResult S × IoCtx × S.os.World)
  unfolding compile load try_remove tmp_path_inc
  doarr_compile_and_load ctx cxx_file_name file w =
      Option.map
        (λ ctx'.
          let (compiled_ok, w1) = compile S cxx_file_name ctx.tmp_path file w in
          let w2 = try_remove S cxx_file_name w1 in
          let (result, w3) = load ctx.tmp_path w2 in
          if compiled_ok then (result, ctx', w3) else (not_compiled, ctx', w2))
        (tmp_path_inc ctx)
