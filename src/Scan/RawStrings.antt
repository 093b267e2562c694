-- ===== src/Scan/RawStrings.antt =====
-- dcc/dcc_scan.c: the end of a raw string is the first one.
use doarr.Base.{
  ℕ, zero, suc, ◌≤◌, ◌<◌, Bytes, true, false, some, [], ◌∷◌, ◌++◌, ◌≡◌, ◌≢◌, arith, refl,
  if◌then◌else◌, length, drop, All,
}
use doarr.Options.Lookup.{startswith}
use doarr.Scan.Chars.{scan_exactly, scan_delim, scan_raw_rest, scan_raw_string, weight}
use doarr.Scan.Progress.{weight_step, weight_cons, weight-scan_exactly}

-- What follows the first place where `pattern` stands; nothing, if it stands nowhere.
unfoldable pub after_first : Bytes → Bytes → Bytes
after_first pattern [] = []
after_first pattern (c ∷ s) =
    let on = after_first pattern s in
    if startswith (c ∷ s) pattern then drop (length pattern) (c ∷ s) else on

-- No parenthesis that closes, and no byte that is read for EOF.
abbrev IsPlain : ℕ → Type 0
IsPlain c = (c ≢ b')') × (c ≢ 255)

-- What the search for the end does at a parenthesis that closes: the delimiter is there, or the
-- search goes on at a later byte, with nothing left out.
scan_exactly-startswith :
    (delim s : Bytes) → All IsPlain delim → (scan_exactly s delim).0 ≡ startswith s delim
unfolding scan_exactly startswith
scan_exactly-startswith [] s h = refl
scan_exactly-startswith (d ∷ delim) [] h = ground (arith)
scan_exactly-startswith (d ∷ delim) (c ∷ s) h = ground (arith, scan_exactly-startswith delim s)

scan_exactly-drop :
    (delim s : Bytes)
    → All IsPlain delim
    → startswith s delim ≡ true
    → (scan_exactly s delim).1 ≡ drop (length delim) s
unfolding scan_exactly startswith
scan_exactly-drop [] s h e = refl
scan_exactly-drop (d ∷ delim) [] h e = cc
scan_exactly-drop (d ∷ delim) (c ∷ s) h e = ground (arith, scan_exactly-drop delim s)

after_first-scan_exactly :
    (pattern delim s : Bytes)
    → All IsPlain delim
    → startswith s delim ≡ false
    → after_first (b')' ∷ pattern) (scan_exactly s delim).1 ≡ after_first (b')' ∷ pattern) s
unfolding scan_exactly startswith after_first
after_first-scan_exactly pattern [] s h e = cc
after_first-scan_exactly pattern (d ∷ delim) [] h e = ground arith
after_first-scan_exactly pattern (d ∷ delim) (c ∷ s) h e =
    ground (arith, after_first-scan_exactly pattern delim s)

scan_raw_rest-after_first :
    (fuel : ℕ) (delim s : Bytes)
    → All IsPlain delim
    → weight s < fuel
    → scan_raw_rest fuel delim s ≡ some (after_first (b')' ∷ delim) s)
unfolding scan_raw_rest after_first startswith
scan_raw_rest-after_first zero delim s n h = absurd (omega arith)
scan_raw_rest-after_first (suc fuel) delim [] n h = refl
scan_raw_rest-after_first (suc fuel) delim (c ∷ s) n h = ground (
  arith,
  scan_exactly-startswith delim s n,
  scan_exactly-drop delim s n,
  after_first-scan_exactly delim delim s n,
  weight-scan_exactly delim s,
  weight_step c s,
  weight_cons c s,
  scan_raw_rest-after_first fuel delim s n,
  scan_raw_rest-after_first fuel delim (scan_exactly s delim).1 n,
)

-- A character of a delimiter: no parenthesis, and no byte 255.
abbrev pub IsDelim : ℕ → Type 0
IsDelim c = (c ≢ b'(') × (c ≢ b')') × (c ≢ 255)

scan_delim-append :
    (room : ℕ) (delim s : Bytes)
    → All IsDelim delim
    → length delim < room
    → scan_delim room (delim ++ b'(' ∷ s) ≡ (delim ++ b'"' ∷ [], s)
unfolding scan_delim
scan_delim-append zero delim s n h = absurd (omega arith)
scan_delim-append (suc room) [] s n h = refl
scan_delim-append (suc room) (c ∷ delim) s (nc, n) h =
    ground (arith, scan_delim-append room delim s n)

IsDelim-IsPlain : (delim : Bytes) → All IsDelim delim → All IsPlain (delim ++ b'"' ∷ [])
IsDelim-IsPlain [] n = ground arith
IsDelim-IsPlain (c ∷ delim) (nc, n) = ((nc.1, nc.2), IsDelim-IsPlain delim n)

-- Behind `R"`, a delimiter of at most 16 characters with no parenthesis among them and an opening
-- parenthesis, the scanner goes on behind the first place where a closing parenthesis, the
-- delimiter and a quote stand, and at the end of the stream if they stand nowhere. It never turns
-- back for a partial match.
pub scan_raw_string-after_first :
    (delim s : Bytes)
    → All IsDelim delim
    → length delim ≤ 16
    → scan_raw_string (delim ++ b'(' ∷ s) ≡ some (after_first (b')' ∷ delim ++ b'"' ∷ []) s)
unfolding scan_raw_string
scan_raw_string-after_first delim s n h = rw (scan_delim-append 17 delim s n (omega arith)) (
    scan_raw_rest-after_first (suc (weight s)) (delim ++ b'"' ∷ []) s (IsDelim-IsPlain delim n)
      (omega arith))
