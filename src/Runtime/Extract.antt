-- ===== src/Runtime/Extract.antt =====
-- runtime/io.c: the precompiled header is written to a file, once.
pub mod Written
use mathlib.Core.Option
use doarr.Base.{
  ℕ, zero, suc, ◌≡◌, Bytes, codes, Bool, true, false, Option, none, some, [], ◌∷◌, ◌++◌, ◌==◌,
  length, drop, if◌then◌else◌, arith, refl, Option-cases, Bool-cases, inl, inr,
}
use doarr.Files.Os.{Os}
use doarr.Files.Write.{write_loop}
use doarr.Runtime.{GuestFile}
use doarr.Runtime.System.{System}
use doarr.Runtime.TmpPath.{IoCtx, doarr_tmp_path}

module _ (os : Os) where
  -- The loop of `full_write`, on fuel; false is -1.
  unfoldable pub full_loop : ℕ → os.Fd → Bytes → os.World → Option (Bool × os.World)
  full_loop zero fd bytes w = none
  full_loop (suc fuel) fd [] w = some (true, w)
  full_loop (suc fuel) fd (c ∷ bytes) w =
      let (r, w') = os.write fd (c ∷ bytes) w in
      elim r [
        | none ↦ some (false, w')
        | some n ↦
            let rest = full_loop fuel fd (drop n (c ∷ bytes)) w' in
            if n == 0 then some (false, w') else rest
      ]

  unfoldable pub full_write : os.Fd → Bytes → os.World → Option (Bool × os.World)
  unfolding full_loop
  full_write fd bytes w = full_loop (suc (length bytes)) fd bytes w

-- What is returned, with the context, the guest file and the world behind the call.
pub record Extracted (S : System) : Type 0 where
  pub header : Option Bytes
  pub ctx : IoCtx
  pub file : GuestFile
  pub world : S.os.World

module _ (S : System) where
  -- The header is written to `fd`, and its path is remembered.
  unfoldable pub extract_to :
      S.os.Fd → IoCtx → IoCtx → GuestFile → S.os.World → Option (Extracted S)
  unfolding full_write
  extract_to fd ctx ctx' file w = Option.bind (full_write S.os fd file.gch_data w) (λ (ok, w1).
      let (closed, w2) = S.os.close fd w1 in
      if ok
      then (if closed
          then some (record {
            header = some ctx.tmp_path;
            ctx = ctx';
            file = record file { gch_tmp_path = ctx.tmp_path };
            world = w2;
          })
          else some (record { header = none; ctx = ctx'; file = file; world = w2 }))
      else some (record { header = none; ctx = ctx'; file = file; world = w1 }))

  -- `none` is abort(): the names have run out.
  unfoldable pub doarr_extract_precompiled_or_null :
      IoCtx → GuestFile → S.os.World → Option (Extracted S)
  unfolding extract_to doarr_tmp_path
  doarr_extract_precompiled_or_null ctx file w = elim file.gch_tmp_path [
    | c ∷ path ↦ some (record { header = some (c ∷ path); ctx = ctx; file = file; world = w })
    | [] ↦ Option.bind (doarr_tmp_path ctx (codes ".gch")) (λ (full_path, ctx').
        let (opened, w1) = S.open_new full_path w in
        elim opened [
          | none ↦ some (record { header = none; ctx = ctx'; file = file; world = w1 })
          | some fd ↦ extract_to fd ctx ctx' file w1
        ])
  ]
