-- ===== src/Scan/Progress.antt =====
-- dcc/dcc_scan.c: the loops come to an end. Each round lowers the weight of the unread bytes.
use doarr.Base.{
  ℕ, zero, suc, ◌+◌, ◌≤◌, ◌<◌, Bytes, codes, Bool, true, false, none, some, [], ◌∷◌, ◌≡◌, ◌≢◌,
  arith, ◌==◌, All,
}
use doarr.Scan.Chars.{
  scan_exactly, scan_delim, scan_raw_rest, scan_raw_string, scan_string_rest, scan_string,
  scan_first_printable, weight,
}
use doarr.Scan.{printable_is, scan_marker, ◌>>◌}

pub weight_cons : (c : ℕ) (s : Bytes) → c ≢ 255 → weight (c ∷ s) ≡ 2 + weight s
unfolding weight
weight_cons c s h = ground arith

pub weight_step :
    (c : ℕ) (s : Bytes) → (weight s < weight (c ∷ s)) × (weight (c ∷ s) ≤ weight s + 2)
unfolding weight
weight_step c s = ground arith

pub weight-scan_exactly : (expected s : Bytes) → weight (scan_exactly s expected).1 ≤ weight s + 1
unfolding scan_exactly weight
weight-scan_exactly [] s = omega arith
weight-scan_exactly (e ∷ expected) [] = ground (arith, weight-scan_exactly expected [])
weight-scan_exactly (e ∷ expected) (c ∷ s) = ground (arith, weight-scan_exactly expected s)

abbrev pub NotEof : ℕ → Type 0
NotEof c = c ≢ 255

weight-scan_exactly-true :
    (expected s : Bytes)
    → All NotEof expected
    → (scan_exactly s expected).0 ≡ true
    → weight (scan_exactly s expected).1 ≤ weight s
unfolding scan_exactly weight
weight-scan_exactly-true [] s n h = omega arith
weight-scan_exactly-true (e ∷ expected) [] n h = ground arith
weight-scan_exactly-true (e ∷ expected) (c ∷ s) n h =
    ground (arith, weight-scan_exactly-true expected s)

weight-scan_delim : (room : ℕ) (s : Bytes) → weight (scan_delim room s).1 ≤ weight s
unfolding scan_delim weight
weight-scan_delim zero s = omega arith
weight-scan_delim (suc room) [] = ground (arith, weight-scan_delim room [])
weight-scan_delim (suc room) (c ∷ s) = ground (arith, weight-scan_delim room s)

scan_raw_rest-ne-none :
    (fuel : ℕ) (delim s : Bytes) → weight s < fuel → scan_raw_rest fuel delim s ≢ none
unfolding scan_raw_rest
scan_raw_rest-ne-none zero delim s h = absurd (omega arith)
scan_raw_rest-ne-none (suc fuel) delim [] h = λ e. cc
scan_raw_rest-ne-none (suc fuel) delim (c ∷ s) h = ground (
  arith,
  weight-scan_exactly delim s,
  weight_step c s,
  weight_cons c s,
  scan_raw_rest-ne-none fuel delim s,
  scan_raw_rest-ne-none fuel delim (scan_exactly s delim).1,
)

weight-scan_raw_rest :
    (fuel : ℕ) (delim s rest : Bytes)
    → scan_raw_rest fuel delim s ≡ some rest
    → weight rest ≤ weight s
unfolding scan_raw_rest
weight-scan_raw_rest zero delim s rest h = cc
weight-scan_raw_rest (suc fuel) delim [] rest h = ground arith
weight-scan_raw_rest (suc fuel) delim (c ∷ s) rest h = ground (
  arith,
  weight-scan_exactly delim s,
  weight_step c s,
  weight_cons c s,
  weight-scan_raw_rest fuel delim s rest,
  weight-scan_raw_rest fuel delim (scan_exactly s delim).1 rest,
)

pub scan_raw_string-ne-none : (s : Bytes) → scan_raw_string s ≢ none
unfolding scan_raw_string
scan_raw_string-ne-none s =
    scan_raw_rest-ne-none (suc (weight (scan_delim 17 s).1)) (scan_delim 17 s).0 (scan_delim 17 s).1
      (omega arith)

pub weight-scan_raw_string :
    (s rest : Bytes) → scan_raw_string s ≡ some rest → weight rest ≤ weight s
unfolding scan_raw_string
weight-scan_raw_string s rest h = omega (
  arith,
  weight-scan_delim 17 s,
  weight-scan_raw_rest (suc (weight (scan_delim 17 s).1)) (scan_delim 17 s).0 (scan_delim 17 s).1
      rest h,
)

weight-scan_string_rest : (s : Bytes) (skip : Bool) → weight (scan_string_rest skip s) ≤ weight s
unfolding scan_string_rest weight
weight-scan_string_rest [] true = omega arith
weight-scan_string_rest [] false = omega arith
weight-scan_string_rest (c ∷ s) true = ground (arith, weight-scan_string_rest s false)
weight-scan_string_rest (c ∷ s) false = ground (arith, weight-scan_string_rest s (c == b'\\'))

pub weight-scan_first_printable : (s : Bytes) → weight (scan_first_printable s).1 ≤ weight s
unfolding scan_first_printable weight
weight-scan_first_printable [] = omega arith
weight-scan_first_printable (c ∷ s) = ground (arith, weight-scan_first_printable s)

-- A reader that can put back one EOF, and none where it succeeds.
abbrev pub Within : (Bytes → Bool × Bytes) → Type 0
Within m =
    (s : Bytes) → (weight (m s).1 ≤ weight s + 1) × ((m s).0 ≡ true → weight (m s).1 ≤ weight s)

Within-bind : (m k : Bytes → Bool × Bytes) → Within m → Within k → Within (m >> k)
Within-bind m k hm hk s = ground (arith, hm s, hk (m s).1)

Within-scan_exactly :
    (expected : Bytes) → All NotEof expected → Within (λ s. scan_exactly s expected)
Within-scan_exactly expected n s =
    (weight-scan_exactly expected s, weight-scan_exactly-true expected s n)

pub Within-printable_is : (c : ℕ) → Within (printable_is c)
unfolding printable_is
Within-printable_is c s = ground (arith, weight-scan_first_printable s)

pub weight-scan_string : (s : Bytes) → weight (scan_string s) ≤ weight s
unfolding scan_string
weight-scan_string s = weight-scan_string_rest s false

pub Within-scan_marker : Within scan_marker
unfolding scan_marker
Within-scan_marker =
    Within-bind _ _
      (Within-bind _ _
        (Within-bind _ _
          (Within-bind _ _ (Within-scan_exactly (codes "oarr") (ground arith))
            (Within-printable_is b':'))
          (Within-printable_is b':'))
        (Within-printable_is b'e'))
      (Within-scan_exactly (codes "xported") (ground arith))
