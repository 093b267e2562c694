-- ===== src/Scan/Search.antt =====
-- dcc/dcc_scan.c: the search as one function of `prev` and the stream, and the declarations it finds.
use doarr.Base.{ℕ, zero, suc, ◌<◌, Bytes, Bool, Option, some, ◌≡◌, arith, refl, sym, ◌∙◌, inl, inr}
use doarr.Scan.Chars.{weight}
use doarr.Scan.Total.{step-Lowers, Turn-cases, scan_loop-again, scan_loop-done}
use doarr.Scan.{ScanResult, again, done, step, scan_loop, dcc_scan_up_to_next_export}

module _ (fails : Bool) (alloc : ℕ → Bool) where
  pub search : ℕ → Bytes → Option (ScanResult × Bytes)
  search prev s = scan_loop fails alloc (suc (weight s)) prev s

  -- More fuel than is needed changes nothing.
  scan_loop_enough :
      (fuel fuel' prev : ℕ) (s : Bytes)
      → weight s < fuel
      → weight s < fuel'
      → scan_loop fails alloc fuel prev s ≡ scan_loop fails alloc fuel' prev s
  scan_loop_enough zero fuel' prev s h h' = absurd (omega arith)
  scan_loop_enough (suc fuel) zero prev s h h' = absurd (omega arith)
  scan_loop_enough (suc fuel) (suc fuel') prev s h h' =
      elim (Turn-cases fails alloc (step fails alloc prev s)) [
        | inl (p, r, e) ↦
            let lower = (step-Lowers fails alloc prev s).0 p r e in
            scan_loop-again fails alloc fuel prev p s r e
            ∙ scan_loop_enough fuel fuel' p r (omega arith) (omega arith)
            ∙ sym (scan_loop-again fails alloc fuel' prev p s r e)
        | inr (inl (y, r, e)) ↦
            scan_loop-done fails alloc fuel prev s y r e
            ∙ sym (scan_loop-done fails alloc fuel' prev s y r e)
        | inr (inr e) ↦ absurd ((step-Lowers fails alloc prev s).2 e)
      ]

  pub search-again :
      (prev p : ℕ) (s r : Bytes) → step fails alloc prev s ≡ again p r → search prev s ≡ search p r
  unfolding search
  search-again prev p s r e =
      scan_loop-again fails alloc (weight s) prev p s r e
      ∙ scan_loop_enough (weight s) (suc (weight r)) p r ((step-Lowers fails alloc prev s).0 p r e)
          (omega arith)

  pub search-done :
      (prev : ℕ) (s : Bytes) (x : ScanResult) (r : Bytes)
      → step fails alloc prev s ≡ done x r
      → search prev s ≡ some (x, r)
  unfolding search
  search-done prev s x r e = scan_loop-done fails alloc (weight s) prev s x r e

  pub dcc_scan-search : (s : Bytes) → dcc_scan_up_to_next_export fails alloc s ≡ search b' ' s
  unfolding search dcc_scan_up_to_next_export
  dcc_scan-search s = refl
