-- ===== src/Files/Write.antt =====
-- dcc/dcc_util.c: the loop around `write`.
use doarr.Base.{
  ℕ, zero, suc, ◌+◌, ◌<◌, ◌≡◌, Bytes, Bool, true, false, Option, none, some, [], ◌∷◌, ◌++◌, length,
  take, drop, ◌==◌, if◌then◌else◌, arith, refl, Option-cases, Bool-cases, inl, inr, append_assoc,
  length-drop, take-add, take-append-drop, append-nil, ap, ◌∙◌, sym,
}
use doarr.Files.Os.{Os, IsLawful, Shrinks}

module _ (os : Os) where
  -- The loop, on fuel; `none` is out of fuel.
  unfoldable pub write_loop : ℕ → os.Fd → Bytes → os.World → Option (Bool × os.World)
  write_loop zero fd buf w = none
  write_loop (suc fuel) fd [] w = some (true, w)
  write_loop (suc fuel) fd (c ∷ buf) w =
      let (r, w') = os.write fd (c ∷ buf) w in
      elim r [
        | none ↦ some (false, w')
        | some n ↦
            let rest = write_loop fuel fd (drop n (c ∷ buf)) w' in
            if n == 0 then some (false, w') else rest
      ]

  unfoldable pub dcc_write : os.Fd → Bytes → os.World → Option (Bool × os.World)
  unfolding write_loop
  dcc_write fd buf w = write_loop (suc (length buf)) fd buf w

-- What a run of the loop has done: it ended, and wrote all of the buffer, or a part of it in front
-- when it reports an error.
abbrev pub Writes : (os : Os) → os.Fd → Bytes → os.World → Option (Bool × os.World) → Type 0
Writes os fd buf w result =
    (ok : Bool) × (n : ℕ) × (w' : os.World) × (result ≡ some (ok, w'))
    × (os.output w' fd ≡ os.output w fd ++ take n buf)
    × Shrinks os w w'
    × ((ok ≡ true) → take n buf ≡ buf)

append-take_step :
    (o o' d : Bytes) (n m : ℕ) → o' ≡ o ++ take n d → o' ++ take m (drop n d) ≡ o ++ take (n + m) d
append-take_step o o' d n m e =
    cc (e, append_assoc o (take n d) (take m (drop n d)), take-add n m d)

module _ (os : Os) (lawful : IsLawful os) where
  write_loop-Writes :
      (fuel : ℕ) (fd : os.Fd) (buf : Bytes) (w : os.World)
      → length buf < fuel
      → Writes os fd buf w (write_loop os fuel fd buf w)
  unfolding write_loop
  write_loop-Writes zero fd buf w h = absurd (omega arith)
  write_loop-Writes (suc fuel) fd [] w h =
      (true, 0, w, refl, sym (append-nil _), λ name d e. e, λ e. refl)
  write_loop-Writes (suc fuel) fd (c ∷ buf) w h =
      let w' : os.World = (os.write fd (c ∷ buf) w).1 in
      let shrinks = lawful.write-Shrinks fd (c ∷ buf) w in
      elim (Option-cases (os.write fd (c ∷ buf) w).0) [
        | inl e ↦ (
          false,
          0,
          w',
          ground arith,
          lawful.write_fails fd (c ∷ buf) w e ∙ sym (append-nil _),
          shrinks,
          λ b. absurd (ground arith),
        )
        | inr (n, e) ↦
            let (le, appends) = lawful.write_appends fd (c ∷ buf) w n e in
            elim (Bool-cases (n == 0)) [
              | inl z ↦ (false, n, w', ground arith, appends, shrinks, λ b. absurd (ground arith))
              | inr nz ↦
                  let (ok, m, w2, e2, o2, s2, all2) =
                    write_loop-Writes fuel fd (drop n (c ∷ buf)) w'
                      (ground (arith, length-drop n (c ∷ buf))) in
                  (
                    ok,
                    n + m,
                    w2,
                    ground (arith, e2),
                    o2 ∙ append-take_step (os.output w fd) (os.output w' fd) (c ∷ buf) n m appends,
                    λ name d f. shrinks name d (s2 name d f),
                    λ b.
                        take-add n m (c ∷ buf)
                        ∙ ap (λ r. take n (c ∷ buf) ++ r) (all2 b)
                        ∙ take-append-drop n (c ∷ buf),
                  )
            ]
      ]

  -- The loop ends, whatever `write` returns. It wrote the whole buffer if it reports success, a part
  -- of the buffer from its start if not, each byte once.
  pub dcc_write-Writes :
      (fd : os.Fd) (buf : Bytes) (w : os.World) → Writes os fd buf w (dcc_write os fd buf w)
  unfolding dcc_write
  dcc_write-Writes fd buf w = write_loop-Writes (suc (length buf)) fd buf w (omega arith)
