-- ===== src/Runtime/Extract/Written.antt =====
-- runtime/io.c: the file that the precompiled header is written to.
use mathlib.Core.Option
use doarr.Base.{
  ℕ, zero, suc, ◌≡◌, Bytes, codes, Option, none, some, [], ◌∷◌, ◌++◌, length, drop, arith, refl, ap,
  sym, ◌∙◌, subst, Option-cases, Bool-cases, inl, inr,
}
use doarr.Files.Os.{Os, IsLawful}
use doarr.Files.Write.{write_loop, dcc_write, dcc_write-Writes}
use doarr.Runtime.{GuestFile}
use doarr.Runtime.System.{System}
use doarr.Runtime.TmpPath.{IoCtx, doarr_tmp_path, tmp_path_inc}
use doarr.Runtime.Extract.{
  full_loop, full_write, extract_to, Extracted, doarr_extract_precompiled_or_null,
}

full_loop-write_loop :
    (os : Os) (fuel : ℕ) (fd : os.Fd) (bytes : Bytes) (w : os.World)
    → full_loop os fuel fd bytes w ≡ write_loop os fuel fd bytes w
unfolding full_loop write_loop
full_loop-write_loop os zero fd bytes w = refl
full_loop-write_loop os (suc fuel) fd [] w = refl
full_loop-write_loop os (suc fuel) fd (c ∷ bytes) w =
    elim (Option-cases (os.write fd (c ∷ bytes) w).0) [
      | inl e ↦ rw (full_loop, write_loop, e) refl
      | inr (n, e) ↦
          rw
            (
              full_loop,
              write_loop,
              e,
              full_loop-write_loop os fuel fd (drop n (c ∷ bytes)) (os.write fd (c ∷ bytes) w).1,
            )
            refl
    ]

-- The runtime's loop around `write` does what the one of dcc does.
pub full_write-dcc_write :
    (os : Os) (fd : os.Fd) (bytes : Bytes) (w : os.World)
    → full_write os fd bytes w ≡ dcc_write os fd bytes w
unfolding full_write dcc_write
full_write-dcc_write os fd bytes w = full_loop-write_loop os (suc (length bytes)) fd bytes w

module _ (S : System) (lawful : IsLawful S.os) where
  -- What `extract_to` has done.
  abbrev Extracts : S.os.Fd → IoCtx → IoCtx → GuestFile → S.os.World → Option (Extracted S) → Type 0
  Extracts fd ctx ctx' file w result =
      (x : Extracted S) × (result ≡ some x)
      × (x.ctx ≡ ctx')
      × ((h : Bytes)
          → x.header ≡ some h
          → (h ≡ ctx.tmp_path)
            × (x.file.gch_tmp_path ≡ h)
            × (S.os.output x.world fd ≡ S.os.output w fd ++ file.gch_data))

  extract_to-Extracts :
      (fd : S.os.Fd) (ctx ctx' : IoCtx) (file : GuestFile) (w : S.os.World)
      → Extracts fd ctx ctx' file w (extract_to S fd ctx ctx' file w)
  unfolding extract_to Option.bind
  extract_to-Extracts fd ctx ctx' file w =
      let (ok, n, w', e, o, _, all) = dcc_write-Writes S.os lawful fd file.gch_data w in
      let e' = full_write-dcc_write S.os fd file.gch_data w ∙ e in
      elim (Bool-cases ok) [
        | inr k ↦ (
          record { header = none; ctx = ctx'; file = file; world = w' },
          ground (arith, e'),
          refl,
          λ h f. absurd (cc),
        )
        | inl k ↦ elim (Bool-cases (S.os.close fd w').0) [
          | inr c ↦ (
            record { header = none; ctx = ctx'; file = file; world = (S.os.close fd w').1 },
            ground (arith, e'),
            refl,
            λ h f. absurd (cc),
          )
          | inl c ↦ (
            record {
              header = some ctx.tmp_path;
              ctx = ctx';
              file = record file { gch_tmp_path = ctx.tmp_path };
              world = (S.os.close fd w').1;
            },
            ground (arith, e'),
            refl,
            λ h f.
                let same_path : ctx.tmp_path ≡ h = cc in
                (
                  sym same_path,
                  same_path,
                  (lawful.close-Quiet fd w').1 fd ∙ o ∙ ap (λ d. S.os.output w fd ++ d) (all k),
                ),
          )
        ]
      ]

  -- The function ends when there is a name left.
  extract-Extracts :
      (ctx ctx' : IoCtx) (file : GuestFile) (fd : S.os.Fd) (w : S.os.World)
      → file.gch_tmp_path ≡ []
      → tmp_path_inc ctx ≡ some ctx'
      → (S.open_new (ctx.tmp_path ++ codes ".gch") w).0 ≡ some fd
      → Extracts fd ctx ctx' file
          (S.open_new (ctx.tmp_path ++ codes ".gch") w).1
          (doarr_extract_precompiled_or_null S ctx file w)
  unfolding doarr_extract_precompiled_or_null doarr_tmp_path Option.bind
  extract-Extracts ctx ctx' file fd w fresh next opened =
      rw (doarr_extract_precompiled_or_null, fresh, doarr_tmp_path, next, opened)
        (extract_to-Extracts fd ctx ctx' file (S.open_new (ctx.tmp_path ++ codes ".gch") w).1)

  extract-again :
      (ctx : IoCtx) (file : GuestFile) (w : S.os.World) (c : ℕ) (path : Bytes)
      → file.gch_tmp_path ≡ c ∷ path
      → doarr_extract_precompiled_or_null S ctx file w
        ≡ some (record { header = some (c ∷ path); ctx = ctx; file = file; world = w })
  unfolding doarr_extract_precompiled_or_null
  extract-again ctx file w c path kept = simp (doarr_extract_precompiled_or_null, kept)

  -- A header that is extracted for the first time has been written whole, through the descriptor of
  -- a file that is created for it and has the name that is returned and the extension. The next time
  -- that the header is asked for, it is not written again.
  pub extract-once :
      (ctx ctx2 : IoCtx) (file : GuestFile) (w w2 : S.os.World) (x : Extracted S) (h path : Bytes)
      (c : ℕ)
      → file.gch_tmp_path ≡ []
      → ctx.tmp_path ≡ c ∷ path
      → doarr_extract_precompiled_or_null S ctx file w ≡ some x
      → x.header ≡ some h
      → (fd : S.os.Fd) × ((S.open_new (h ++ codes ".gch") w).0 ≡ some fd)
        × (S.os.output x.world fd
            ≡ S.os.output (S.open_new (h ++ codes ".gch") w).1 fd ++ file.gch_data)
        × (doarr_extract_precompiled_or_null S ctx2 x.file w2
            ≡ some (record { header = some h; ctx = ctx2; file = x.file; world = w2 }))
  unfolding doarr_extract_precompiled_or_null doarr_tmp_path Option.bind
  extract-once ctx ctx2 file w w2 x h path c fresh named extracted header =
      elim (Option-cases (tmp_path_inc ctx)) [
        | inl e ↦
            let ended : ◌≡◌ {A = Option (Extracted S)} none (some x) =
              rw (doarr_extract_precompiled_or_null, fresh, doarr_tmp_path, e) at extracted in
            absurd (cc)
        | inr (ctx', e) ↦ elim (Option-cases (S.open_new (ctx.tmp_path ++ codes ".gch") w).0) [
          | inl f ↦
              let w1 : S.os.World = (S.open_new (ctx.tmp_path ++ codes ".gch") w).1 in
              let failed : some (record { header = none; ctx = ctx'; file = file; world = w1 })
                  ≡ some x =
                rw (doarr_extract_precompiled_or_null, fresh, doarr_tmp_path, e, f) at extracted in
              absurd (cc)
          | inr (fd, f) ↦
              let (x', result, _, holds) = extract-Extracts ctx ctx' file fd w fresh e f in
              let same_x : x' ≡ x = cc in
              let (same_path, kept, written) = holds h (cc) in
              let kept' : x.file.gch_tmp_path ≡ c ∷ path =
                ap (λ y. y.file.gch_tmp_path) (sym same_x) ∙ kept ∙ same_path ∙ named in
              let written' =
                subst
                  (λ y.
                    S.os.output y.world fd
                    ≡ S.os.output (S.open_new (ctx.tmp_path ++ codes ".gch") w).1 fd
                      ++ file.gch_data)
                  same_x written in
              let again = extract-again ctx2 x.file w2 c path kept' in
              rw same_path (
                fd,
                f,
                written',
                again
                    ∙ ap
                        (λ p.
                          some (record { header = some p; ctx = ctx2; file = x.file; world = w2 }))
                        (sym named),
              )
        ]
      ]
