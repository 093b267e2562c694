-- ===== src/Find/Path.antt =====
-- dcc/dcc.c: the path of the compiler.
use doarr.Base.{
  ℕ, zero, suc, ◌+◌, ◌*◌, ◌/◌, ◌<◌, ◌≤◌, ◌≡◌, Bytes, Bool, true, Option, some, length, take, [],
  ◌∷◌, ap, length-take, ltb, arith, refl, Bool-cases, inl, inr,
}
use doarr.Find.{path_loop, fd_to_abs_path}

take_all : (n : ℕ) (s : Bytes) → length s ≤ n → take n s ≡ s
take_all zero [] h = refl
take_all zero (c ∷ s) h = absurd (omega arith)
take_all (suc n) [] h = refl
take_all (suc n) (c ∷ s) h = ap (λ t. c ∷ t) (take_all n s (omega arith))

module _ (readlinkat : ℕ → Option Bytes) (alloc : ℕ → Bool) (target : Bytes)
    (truncates : (capacity : ℕ) → readlinkat capacity ≡ some (take capacity target))
    (allocates : (capacity : ℕ) → alloc capacity ≡ true) where
  path_loop-target :
      (fuel capacity : ℕ)
      → 4 ≤ capacity
      → length target + 1 < capacity + fuel
      → 0 < fuel
      → path_loop readlinkat alloc fuel capacity ≡ some (some target)
  unfolding path_loop
  path_loop-target zero capacity h l p = absurd (omega arith)
  path_loop-target (suc fuel) capacity h l p =
      let read = truncates capacity in
      let granted = allocates capacity in
      elim (Bool-cases (ltb (length (take capacity target)) capacity)) [
        | inl e ↦
            let whole : take capacity target ≡ target =
              take_all capacity target (ground (arith, length-take capacity target)) in
            rw (granted, read, e, whole) refl
        | inr e ↦
            let long : capacity ≤ length target = ground (arith, length-take capacity target) in
            rw (granted, read, e)
              (path_loop-target fuel (capacity / 2 * 3) (omega arith) (omega arith) (omega arith))
      ]

  -- When every allocation succeeds and readlinkat writes as much of the target as fits, the loop
  -- ends within more rounds than the target has characters, and gives the whole target, however long
  -- it is.
  pub fd_to_abs_path-target :
      (fuel : ℕ) → length target < fuel → fd_to_abs_path readlinkat alloc fuel ≡ some (some target)
  unfolding fd_to_abs_path
  fd_to_abs_path-target fuel l = path_loop-target fuel 32 (omega arith) (omega arith) (omega arith)
