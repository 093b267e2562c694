-- ===== src/Runtime/Load/Removed.antt =====
-- runtime/io.c: the generated source and the library do not stay behind.
use doarr.Base.{
  ◌≡◌, Bytes, codes, true, false, Option, none, some, arith, subst, Option-cases, Bool-cases, inl,
  inr, ◌⊎◌,
}
use doarr.Files.Os.{Os, Shrinks}
use doarr.Files.NoLeftovers.{gone}
use doarr.Runtime.{GuestFile}
use doarr.Runtime.System.{System}
use doarr.Runtime.TmpPath.{IoCtx, tmp_path_inc}
use doarr.Runtime.Load.{LoadResult, not_compiled, compile, try_remove, load, doarr_compile_and_load}

-- What the calls behind the compiler are documented to do with files: only `unlink` changes them,
-- and nothing resists it.
pub record KeepsFiles (S : System) : Type 0 where
  pub unlink_clears : (path : Bytes) (w : S.os.World) → S.os.files (S.unlink path w).1 path ≡ none
  pub unlink-Shrinks : (path : Bytes) (w : S.os.World) → Shrinks S.os w (S.unlink path w).1
  pub dlopen-Shrinks : (path : Bytes) (w : S.os.World) → Shrinks S.os w (S.dlopen path w).1
  pub dlsym-Shrinks :
      (handle : S.Handle) (name : Bytes) (w : S.os.World) → Shrinks S.os w (S.dlsym handle name w).1
  pub dlclose-Shrinks : (handle : S.Handle) (w : S.os.World) → Shrinks S.os w (S.dlclose handle w)

-- What stands in the files before stands there behind, and nothing else.
Shrinks-trans :
    (os : Os) (w1 w2 w3 : os.World) → Shrinks os w1 w2 → Shrinks os w2 w3 → Shrinks os w1 w3
Shrinks-trans os w1 w2 w3 s t name d f = s name d (t name d f)

module _ (S : System) (keeps : KeepsFiles S) where
  -- From the removal on.
  load-Shrinks-unlink :
      (so_file_name : Bytes) (w : S.os.World)
      → Shrinks S.os (S.unlink so_file_name (S.dlopen so_file_name w).1).1 (load S so_file_name w).1
  unfolding load try_remove
  load-Shrinks-unlink so w =
      let w2 : S.os.World = (S.unlink so (S.dlopen so w).1).1 in
      elim (Option-cases (S.dlopen so w).0) [
        | inl e ↦ rw (load, e) (λ name d f. f)
        | inr (handle, e) ↦ elim (Option-cases (S.dlsym handle (codes "DOARR_EXPORT") w2).0) [
          | inl f ↦
              rw (load, try_remove, e, f)
                (Shrinks-trans S.os _ _ _ (keeps.dlsym-Shrinks handle _ w2)
                  (keeps.dlclose-Shrinks handle _))
          | inr (fn, f) ↦ rw (load, try_remove, e, f) (keeps.dlsym-Shrinks handle _ w2)
        ]
      ]

  load-Shrinks : (so_file_name : Bytes) (w : S.os.World) → Shrinks S.os w (load S so_file_name w).1
  load-Shrinks so w =
      Shrinks-trans S.os _ _ _ (keeps.dlopen-Shrinks so w)
        (Shrinks-trans S.os _ _ _ (keeps.unlink-Shrinks so _) (load-Shrinks-unlink so w))

  load-gone :
      (so_file_name : Bytes) (w : S.os.World)
      → S.os.files (load S so_file_name w).1 so_file_name ≡ none
  load-gone so w = gone S.os _ _ so (load-Shrinks-unlink so w) (keeps.unlink_clears so _)

  -- When unlink leaves no file, and dlopen, dlsym and dlclose make none, then behind a call that
  -- returns the generated source is not there. The compiler failed, or it did not and the
  -- library is not there either, whether it could be loaded or not.
  pub compile_and_load-gone :
      (ctx ctx' : IoCtx) (cxx_file_name : Bytes) (file : GuestFile) (w w' : S.os.World)
      (result : LoadResult S)
      → doarr_compile_and_load S ctx cxx_file_name file w ≡ some (result, ctx', w')
      → (S.os.files w' cxx_file_name ≡ none)
        × (((compile S cxx_file_name ctx.tmp_path file w).0 ≡ false) × (result ≡ not_compiled)
            ⊎ ((compile S cxx_file_name ctx.tmp_path file w).0 ≡ true)
              × (S.os.files w' ctx.tmp_path ≡ none))
  unfolding doarr_compile_and_load try_remove
  compile_and_load-gone ctx ctx' cxx file w w' result h =
      let w1 : S.os.World = (compile S cxx ctx.tmp_path file w).1 in
      let w2 : S.os.World = (S.unlink cxx w1).1 in
      elim (Option-cases (tmp_path_inc ctx)) [
        | inl e ↦ absurd (ground (arith, h))
        | inr (ctx1, e) ↦ elim (Bool-cases (compile S cxx ctx.tmp_path file w).0) [
          | inr k ↦
              let ended : ◌≡◌ {A = Option (LoadResult S × IoCtx × S.os.World)}
                  (some (not_compiled, ctx1, w2)) (some (result, ctx', w')) =
                rw (doarr_compile_and_load, try_remove, e, k) at h in
              let same_w : w2 ≡ w' = cc in
              (
                subst (λ v. S.os.files v cxx ≡ none) same_w (keeps.unlink_clears cxx w1),
                inl (k, cc),
              )
          | inl k ↦
              let ended : ◌≡◌ {A = Option (LoadResult S × IoCtx × S.os.World)}
                  (some ((load S ctx.tmp_path w2).0, ctx1, (load S ctx.tmp_path w2).1))
                  (some (result, ctx', w')) =
                rw (doarr_compile_and_load, try_remove, e, k) at h in
              let same_w : (load S ctx.tmp_path w2).1 ≡ w' = cc in
              (
                subst (λ v. S.os.files v cxx ≡ none) same_w
                    (gone S.os _ _ cxx (load-Shrinks ctx.tmp_path w2) (keeps.unlink_clears cxx w1)),
                inr (
                  k,
                  subst (λ v. S.os.files v ctx.tmp_path ≡ none) same_w (load-gone ctx.tmp_path w2),
                ),
              )
        ]
      ]
