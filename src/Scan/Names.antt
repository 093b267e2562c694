-- ===== src/Scan/Names.antt =====
-- dcc/dcc_scan.c: what the search can return for an exported function.
use doarr.Base.{
  ℕ, zero, suc, ◌+◌, ◌≤◌, ◌<◌, Bytes, Bool, true, false, some, [], ◌∷◌, ◌++◌, ◌≡◌, ◌≢◌, ◌⊎◌, arith,
  refl, ap, sym, ◌∙◌, length, Option-cases, inl, inr, All, All-append, length-append,
}
use doarr.Scan.Chars.{char_is_ident_start, char_is_ident, scan_first_printable, weight}
use doarr.Scan.Total.{step-Lowers, Turn-cases, scan_loop-again, scan_loop-done}
use doarr.Scan.{
  overrun, ScanResult, failed, export, ident, bad, done, has_double_underscore, scan_marker,
  scan_ident_rest, scan_ident, scan_function, after_d, after_r, step, scan_loop,
  dcc_scan_up_to_next_export, grown,
}

abbrev pub IsIdent : ℕ → Type 0
IsIdent c = char_is_ident c ≡ true

-- An identifier: not empty, no digit in front, and nothing but the characters of identifiers.
abbrev pub IsName : Bytes → Type 0
IsName [] = ⊥
IsName (c ∷ s) = (char_is_ident_start c ≡ true) × All IsIdent s

IsName-append : (s : Bytes) (c : ℕ) → IsName s → IsIdent c → IsName (s ++ c ∷ [])
IsName-append [] c h d = absurd h
IsName-append (b ∷ s) c (hb, hs) d = (hb, All-append IsIdent s (c ∷ []) hs (d, tt))

-- The characters of an identifier of C++, with the dollar sign and the bytes of UTF-8.
abbrev pub IsStart : ℕ → Type 0
IsStart c =
    ((b'A' ≤ c) × (c ≤ b'Z')) ⊎ ((b'a' ≤ c) × (c ≤ b'z')) ⊎ (c ≡ b'_') ⊎ (c ≡ b'$') ⊎ (127 < c)

abbrev pub IsIdentifier : Bytes → Type 0
IsIdentifier [] = ⊥
IsIdentifier (c ∷ s) = IsStart c × All (λ d. IsStart d ⊎ ((b'0' ≤ d) × (d ≤ b'9'))) s

char_is_ident_start-IsStart : (c : ℕ) → char_is_ident_start c ≡ true → IsStart c
unfolding char_is_ident_start
char_is_ident_start-IsStart c h = ground arith

IsIdent-IsStart : (c : ℕ) → IsIdent c → IsStart c ⊎ ((b'0' ≤ c) × (c ≤ b'9'))
unfolding char_is_ident
IsIdent-IsStart c h = ground (arith, char_is_ident_start-IsStart c)

idents : (s : Bytes) → All IsIdent s → All (λ d. IsStart d ⊎ ((b'0' ≤ d) × (d ≤ b'9'))) s
idents [] h = tt
idents (c ∷ s) (hc, h) = (IsIdent-IsStart c hc, idents s h)

IsName-IsIdentifier : (s : Bytes) → IsName s → IsIdentifier s
IsName-IsIdentifier [] h = absurd h
IsName-IsIdentifier (c ∷ s) (hc, h) = (char_is_ident_start-IsStart c hc, idents s h)

found_underscores : (xs ys : Bytes) → has_double_underscore (xs ++ b'_' ∷ b'_' ∷ ys) ≡ true
unfolding has_double_underscore
found_underscores [] ys = refl
found_underscores (x ∷ []) ys = ground arith
found_underscores (x ∷ y ∷ xs) ys = ground (arith, found_underscores (y ∷ xs) ys)

no_underscores :
    (name xs ys : Bytes) → has_double_underscore name ≡ false → name ≢ xs ++ b'_' ∷ b'_' ∷ ys
no_underscores name xs ys h =
    λ e. let found = found_underscores xs ys in let same = ap has_double_underscore e in cc

module _ (fails : Bool) (alloc : ℕ → Bool) where
  pub grown-lt :
      (size capacity n : ℕ)
      → 4 ≤ capacity
      → size ≤ capacity
      → grown fails alloc size capacity ≡ some n
      → (size < n) × (4 ≤ n)
  unfolding grown
  grown-lt size capacity n h le e = (ground arith, ground arith)

  scan_ident_rest-IsName :
      (s ptr : Bytes) (capacity : ℕ) (name : Bytes)
      → IsName ptr
      → (scan_ident_rest fails alloc s ptr capacity).0 ≡ ident name
      → IsName name
  unfolding scan_ident_rest
  scan_ident_rest-IsName [] ptr capacity name h e = cc
  scan_ident_rest-IsName (c ∷ s) ptr capacity name h e =
      elim (Option-cases (grown fails alloc (length ptr + 1) capacity)) [
        | inl q ↦ ground arith
        | inr (n, q) ↦
            ground (arith, IsName-append ptr c h, scan_ident_rest-IsName s (ptr ++ c ∷ []) n name)
      ]

  -- The buffer of an identifier always has room for one more byte.
  scan_ident_rest-ne-overrun :
      (s ptr : Bytes) (capacity : ℕ)
      → 4 ≤ capacity
      → length ptr < capacity
      → (scan_ident_rest fails alloc s ptr capacity).0 ≢ bad overrun
  unfolding scan_ident_rest
  scan_ident_rest-ne-overrun [] ptr capacity h lt = λ e. ground arith
  scan_ident_rest-ne-overrun (c ∷ s) ptr capacity h lt = λ e.
      elim (Option-cases (grown fails alloc (length ptr + 1) capacity)) [
        | inl q ↦ ground arith
        | inr (n, q) ↦ ground (
          arith,
          grown-lt (length ptr + 1) capacity n h (omega arith) q,
          length-append ptr (c ∷ []),
          scan_ident_rest-ne-overrun s (ptr ++ c ∷ []) n,
        )
      ]

  scan_ident-IsName : (s name : Bytes) → (scan_ident fails alloc s).0 ≡ ident name → IsName name
  unfolding scan_ident
  scan_ident-IsName s name e = elim (Option-cases (scan_first_printable s).0) [
    | inl q ↦ ground arith
    | inr (c, q) ↦
        ground (arith, scan_ident_rest-IsName (scan_first_printable s).1 (c ∷ []) 32 name)
  ]

  scan_ident-ne-overrun : (s : Bytes) → (scan_ident fails alloc s).0 ≢ bad overrun
  unfolding scan_ident
  scan_ident-ne-overrun s = λ e. elim (Option-cases (scan_first_printable s).0) [
    | inl q ↦ ground arith
    | inr (c, q) ↦ ground (
      arith,
      scan_ident_rest-ne-overrun (scan_first_printable s).1 (c ∷ []) 32 (omega arith) (omega arith),
    )
  ]

  -- A result that is neither a bad name nor a write behind the buffer.
  abbrev IsSound : ScanResult → Type 0
  IsSound r =
      ((name : Bytes) → r ≡ export name → IsName name × (has_double_underscore name ≡ false))
      × (r ≢ failed overrun)

  scan_function-IsSound : (s : Bytes) → IsSound (scan_function fails alloc s).0
  unfolding scan_function
  scan_function-IsSound s =
      (λ n e. ground (arith, scan_ident-IsName s n), λ e. ground (arith, scan_ident-ne-overrun s))

  step-IsSound :
      (prev : ℕ) (s : Bytes) (x : ScanResult) (r : Bytes)
      → step fails alloc prev s ≡ done x r
      → IsSound x
  unfolding step after_d after_r
  step-IsSound prev [] x r e = (λ n q. ground arith, λ q. ground arith)
  step-IsSound prev (c ∷ s) x r e =
      let sound = scan_function-IsSound (scan_marker s).1 in
      (λ n q. ground (arith, sound.0 n), λ q. ground (arith, sound.1))

  scan_loop-IsSound :
      (fuel prev : ℕ) (s : Bytes) (x : ScanResult) (rest : Bytes)
      → scan_loop fails alloc fuel prev s ≡ some (x, rest)
      → IsSound x
  scan_loop-IsSound zero prev s x rest h = unfold scan_loop in (λ n q. cc, λ q. cc)
  scan_loop-IsSound (suc fuel) prev s x rest h =
      elim (Turn-cases fails alloc (step fails alloc prev s)) [
        | inl (p, r, e) ↦
            scan_loop-IsSound fuel p r x rest
              (sym (scan_loop-again fails alloc fuel prev p s r e) ∙ h)
        | inr (inl (y, r, e)) ↦
            step-IsSound prev s x r (ground (arith, scan_loop-done fails alloc fuel prev s y r e))
        | inr (inr e) ↦ absurd ((step-Lowers fails alloc prev s).2 e)
      ]

  -- An identifier that the search returns is one: it is not empty; it begins with a letter, an
  -- underscore, a dollar sign or a byte above 127; what follows are these and digits; and nowhere in it
  -- do two underscores stand side by side.
  pub dcc_scan-IsName :
      (s name rest : Bytes)
      → dcc_scan_up_to_next_export fails alloc s ≡ some (export name, rest)
      → IsIdentifier name × ((xs ys : Bytes) → name ≢ xs ++ b'_' ∷ b'_' ∷ ys)
  dcc_scan-IsName s name rest h =
      let (valid, single) =
        (scan_loop-IsSound (suc (weight s)) b' ' s (export name) rest
            (unfold dcc_scan_up_to_next_export in h)).0
          name refl in
      (IsName-IsIdentifier name valid, λ xs ys. no_underscores name xs ys single)

  -- On no stream, and whatever malloc and realloc do, is a byte written behind the end of the
  -- buffer that holds an identifier.
  pub dcc_scan-ne-overrun :
      (s rest : Bytes) → dcc_scan_up_to_next_export fails alloc s ≢ some (failed overrun, rest)
  dcc_scan-ne-overrun s rest h =
      (scan_loop-IsSound (suc (weight s)) b' ' s (failed overrun) rest
          (unfold dcc_scan_up_to_next_export in h)).1
        refl
