-- ===== src/Scan/Total.antt =====
-- dcc/dcc_scan.c: the search ends on every stream, and consumes what it returns.
use doarr.Base.{
  ℕ, zero, suc, ◌+◌, ◌≤◌, ◌<◌, Bytes, Bool, some, [], ◌∷◌, ◌++◌, ◌≡◌, ◌≢◌, arith, refl, sym, ◌∙◌,
  length, Option-cases, inl, inr, ◌⊎◌,
}
use doarr.Scan.Chars.{scan_first_printable, weight}
use doarr.Scan.Progress.{
  weight_step, weight_cons, weight-scan_raw_string, scan_raw_string-ne-none, weight-scan_string,
  weight-scan_first_printable, Within-scan_marker, Within-printable_is,
}
use doarr.Scan.{
  ScanResult, export, Turn, again, done, stuck, scan_marker, scan_ident_rest, scan_ident,
  scan_function, after_d, after_r, step, scan_loop, dcc_scan_up_to_next_export, grown,
}

module _ (fails : Bool) (alloc : ℕ → Bool) where
  weight-scan_ident_rest :
      (s ptr : Bytes) (capacity : ℕ)
      → weight (scan_ident_rest fails alloc s ptr capacity).1 ≤ weight s
  unfolding scan_ident_rest
  weight-scan_ident_rest [] ptr capacity = omega arith
  weight-scan_ident_rest (c ∷ s) ptr capacity =
      elim (Option-cases (grown fails alloc (length ptr + 1) capacity)) [
        | inl e ↦ ground (arith, weight_step c s)
        | inr (n, e) ↦ ground (arith, weight_step c s, weight-scan_ident_rest s (ptr ++ c ∷ []) n)
      ]

  weight-scan_ident : (s : Bytes) → weight (scan_ident fails alloc s).1 ≤ weight s
  unfolding scan_ident
  weight-scan_ident s = elim (Option-cases (scan_first_printable s).0) [
    | inl e ↦ ground (arith, weight-scan_first_printable s)
    | inr (c, e) ↦ ground (
      arith,
      weight-scan_first_printable s,
      weight-scan_ident_rest (scan_first_printable s).1 (c ∷ []) 32,
    )
  ]

  weight-scan_function : (s : Bytes) → weight (scan_function fails alloc s).1 ≤ weight s + 1
  unfolding scan_function
  weight-scan_function s =
      ground (arith, weight-scan_ident s, Within-printable_is b'(' (scan_ident fails alloc s).1)

  weight-scan_function_export :
      (s name : Bytes)
      → (scan_function fails alloc s).0 ≡ export name
      → weight (scan_function fails alloc s).1 ≤ weight s
  unfolding scan_function
  weight-scan_function_export s name h =
      ground (arith, weight-scan_ident s, Within-printable_is b'(' (scan_ident fails alloc s).1)

  -- A round that goes on, or that returns an identifier, leaves less than the weight `w`.
  abbrev pub Lowers : ℕ → Turn → Type 0
  Lowers w t =
      ((prev : ℕ) (rest : Bytes) → t ≡ again prev rest → weight rest < w)
      × ((name rest : Bytes) → t ≡ done (export name) rest → weight rest < w)
      × (t ≢ stuck)

  after_d-Lowers : (prev : ℕ) (s : Bytes) → Lowers (weight s + 2) (after_d fails alloc prev s)
  unfolding after_d
  after_d-Lowers prev s = (
    λ p r e. ground (arith, Within-scan_marker s),
    λ n r e. ground (arith, Within-scan_marker s, weight-scan_function_export (scan_marker s).1 n),
    λ e. ground arith,
  )

  after_r-Lowers : (s : Bytes) → Lowers (weight s + 2) (after_r fails alloc s)
  unfolding after_r
  after_r-Lowers [] = (λ p r e. ground arith, λ n r e. cc, λ e. cc)
  after_r-Lowers (c ∷ s) = (
    λ p r e. ground (arith, weight_step c s, weight-scan_raw_string s r),
    λ n r e. ground arith,
    λ e. ground (arith, scan_raw_string-ne-none s),
  )

  pub step-Lowers : (prev : ℕ) (s : Bytes) → Lowers (weight s) (step fails alloc prev s)
  unfolding step
  step-Lowers prev [] = (λ p r e. cc, λ n r e. ground arith, λ e. cc)
  step-Lowers prev (c ∷ s) = (
    λ p r e. ground (
      arith,
      weight_step c s,
      weight_cons c s,
      weight-scan_string s,
      (after_r-Lowers s).0 p r,
      (after_d-Lowers prev s).0 p r,
    ),
    λ n r e. ground (
      arith,
      weight_step c s,
      weight_cons c s,
      (after_r-Lowers s).1 n r,
      (after_d-Lowers prev s).1 n r,
    ),
    λ e. ground (arith, (after_r-Lowers s).2, (after_d-Lowers prev s).2),
  )

  pub Turn-cases :
      (t : Turn)
      → ((p : ℕ) × (r : Bytes) × (t ≡ again p r))
        ⊎ (((x : ScanResult) × (r : Bytes) × (t ≡ done x r)) ⊎ (t ≡ stuck))
  Turn-cases (again p r) = inl (p, r, refl)
  Turn-cases (done x r) = inr (inl (x, r, refl))
  Turn-cases stuck = inr (inr refl)

  pub scan_loop-again :
      (fuel prev p : ℕ) (s r : Bytes)
      → step fails alloc prev s ≡ again p r
      → scan_loop fails alloc (suc fuel) prev s ≡ scan_loop fails alloc fuel p r
  unfolding scan_loop
  scan_loop-again fuel prev p s r e = rw (e, scan_loop)

  pub scan_loop-done :
      (fuel prev : ℕ) (s : Bytes) (x : ScanResult) (r : Bytes)
      → step fails alloc prev s ≡ done x r
      → scan_loop fails alloc (suc fuel) prev s ≡ some (x, r)
  unfolding scan_loop
  scan_loop-done fuel prev s x r e = rw (e, scan_loop)

  scan_loop_total :
      (fuel prev : ℕ) (s : Bytes)
      → weight s < fuel
      → (x : ScanResult) × (rest : Bytes) × (scan_loop fails alloc fuel prev s ≡ some (x, rest))
  scan_loop_total zero prev s h = absurd (omega arith)
  scan_loop_total (suc fuel) prev s h = elim (Turn-cases (step fails alloc prev s)) [
    | inl (p, r, e) ↦
        let (x, rest, q) = scan_loop_total fuel p r (omega (arith, (step-Lowers prev s).0 p r e)) in
        (x, rest, scan_loop-again fuel prev p s r e ∙ q)
    | inr (inl (x, r, e)) ↦ (x, r, scan_loop-done fuel prev s x r e)
    | inr (inr e) ↦ absurd ((step-Lowers prev s).2 e)
  ]

  scan_loop-export :
      (fuel prev : ℕ) (s name rest : Bytes)
      → scan_loop fails alloc fuel prev s ≡ some (export name, rest)
      → weight rest < weight s
  scan_loop-export zero prev s name rest h = unfold scan_loop in cc
  scan_loop-export (suc fuel) prev s name rest h = elim (Turn-cases (step fails alloc prev s)) [
    | inl (p, r, e) ↦ omega (
      arith,
      (step-Lowers prev s).0 p r e,
      scan_loop-export fuel p r name rest (sym (scan_loop-again fuel prev p s r e) ∙ h),
    )
    | inr (inl (x, r, e)) ↦
        ground (arith, scan_loop-done fuel prev s x r e, (step-Lowers prev s).1 name rest)
    | inr (inr e) ↦ absurd ((step-Lowers prev s).2 e)
  ]

  -- The search returns on every stream: with the fuel that it is given it never runs out, neither
  -- in its own loop nor in the one over a raw string.
  pub dcc_scan_total :
      (s : Bytes)
      → (x : ScanResult) × (rest : Bytes) × (dcc_scan_up_to_next_export fails alloc s
          ≡ some (x, rest))
  dcc_scan_total s =
      unfold dcc_scan_up_to_next_export in scan_loop_total (suc (weight s)) b' ' s (omega arith)

  -- Where the search returns an exported function, what is left of the stream weighs less than what
  -- it began with, whatever the memory and the end of the stream.
  pub dcc_scan-export-lt :
      (s name rest : Bytes)
      → dcc_scan_up_to_next_export fails alloc s ≡ some (export name, rest)
      → weight rest < weight s
  dcc_scan-export-lt s name rest h =
      scan_loop-export (suc (weight s)) b' ' s name rest (unfold dcc_scan_up_to_next_export in h)
