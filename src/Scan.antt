-- ===== src/Scan.antt =====
-- dcc/dcc_scan.c: the scanner that finds the next `doarr::exported` function.
-- `fails` says how the stream ends, by an error or cleanly (`ferror` is asked only after an EOF);
-- `alloc n` says whether malloc or realloc gives `n` bytes.
pub mod Chars
pub mod Progress
pub mod Total
pub mod Names
pub mod RawStrings
pub mod Search
pub mod Declarations
pub mod Tokens
use doarr.Base.{
  ℕ, zero, suc, ◌+◌, ◌*◌, ◌/◌, Bytes, codes, length, Bool, true, false, not, ◌||◌, ◌&&◌, Option,
  none, some, [], ◌∷◌, ◌++◌, ◌==◌, ltb, if◌then◌else◌,
}
use Chars.{
  char_is_ident_start, char_is_ident, fgetc, scan_exactly, scan_raw_string, scan_string,
  scan_first_printable, weight,
}

-- What is written to standard error before NULL is returned. `overrun` is a write behind the end of
-- the buffer of an identifier.
pub data ScanError : Type 0 where
  read_error unexpected_eof not_a_name out_of_memory overrun : ScanError
  invalid_identifier non_function : Bytes → ScanError

-- NULL, the empty string, or an identifier.
pub data ScanResult : Type 0 where
  failed : ScanError → ScanResult
  clean_eof : ScanResult
  export : Bytes → ScanResult

-- strstr(ident, "__") != NULL
unfoldable pub has_double_underscore : Bytes → Bool
has_double_underscore [] = false
has_double_underscore (a ∷ []) = false
has_double_underscore (a ∷ b ∷ s) = (a == b'_' && b == b'_') || has_double_underscore (b ∷ s)

pub data IdentResult : Type 0 where
  ident : Bytes → IdentResult
  bad : ScanError → IdentResult

-- One round of the search: on, with `prev` and the rest of the stream, or a result.
pub data Turn : Type 0 where
  again : ℕ → Bytes → Turn
  done : ScanResult → Bytes → Turn
  stuck : Turn

-- A part of the marker was read, or not; either way the stream has moved.
infixl 5 ◌>>◌
abbrev pub ◌>>◌ : (Bytes → Bool × Bytes) → (Bytes → Bool × Bytes) → Bytes → Bool × Bytes
◌>>◌ m k s = let (matches, rest) = m s in if matches then k rest else (false, rest)

-- scan_first_printable(in) == c
unfoldable pub printable_is : ℕ → Bytes → Bool × Bytes
unfolding scan_first_printable
printable_is c s =
    let (r, rest) = scan_first_printable s in
    elim r [ none ↦ (false, rest) | some d ↦ (d == c, rest) ]

-- The tests behind the `d`, up to the end of `exported`.
unfoldable pub scan_marker : Bytes → Bool × Bytes
scan_marker =
    (λ s. scan_exactly s (codes "oarr"))
    >> printable_is b':'
    >> printable_is b':'
    >> printable_is b'e'
    >> λ s. scan_exactly s (codes "xported")

module _ (fails : Bool) (alloc : ℕ → Bool) where
  abbrev pub report_eof : ScanError
  report_eof = if fails then read_error else unexpected_eof

  -- The capacity when `size` bytes have been written.
  unfoldable pub grown : ℕ → ℕ → Option ℕ
  grown size capacity =
      if size == capacity
      then (if alloc (capacity / 2 * 3) then some (capacity / 2 * 3) else none)
      else some capacity

  -- The loop of `scan_ident`, with what is in the buffer and its capacity.
  unfoldable pub scan_ident_rest : Bytes → Bytes → ℕ → IdentResult × Bytes
  scan_ident_rest [] ptr capacity = (bad report_eof, [])
  scan_ident_rest (c ∷ s) ptr capacity =
      if not (ltb (length ptr) capacity)
      then (bad overrun, s)
      else if char_is_ident c
      then (elim (grown (length ptr + 1) capacity) [
        | none ↦ (bad out_of_memory, s)
        | some capacity' ↦ scan_ident_rest s (ptr ++ c ∷ []) capacity'
      ])
      else (ident ptr, c ∷ s)

  unfoldable pub scan_ident : Bytes → IdentResult × Bytes
  scan_ident s =
      let (r, rest) = scan_first_printable s in
      elim r [
        | none ↦ (bad report_eof, rest)
        | some c ↦
            if not (char_is_ident_start c)
            then (bad not_a_name, rest)
            else if alloc 32
            then scan_ident_rest rest (c ∷ []) 32
            else (bad out_of_memory, rest)
      ]

  -- What follows `doarr::exported`.
  unfoldable pub scan_function : Bytes → ScanResult × Bytes
  scan_function s =
      let (r, rest) = scan_ident s in
      elim r [
        | bad e ↦ (failed e, rest)
        | ident name ↦
            if has_double_underscore name
            then (failed (invalid_identifier name), rest)
            else (let (matches, rest') = printable_is b'(' rest in
                if matches then (export name, rest') else (failed (non_function name), rest'))
      ]

  unfoldable pub after_d : ℕ → Bytes → Turn
  after_d prev s =
      if char_is_ident prev
      then again prev s
      else (let (matches, rest) = scan_marker s in
          if matches
          then (let (r, rest') = scan_function rest in done r rest')
          else again prev rest)

  unfoldable pub after_r : Bytes → Turn
  after_r [] = again b'R' []
  after_r (c ∷ s) =
      if c == b'"'
      then (elim (scan_raw_string s) [ none ↦ stuck | some rest ↦ again b'"' rest ])
      else again b'R' s

  unfoldable pub step : ℕ → Bytes → Turn
  step prev [] = done (if fails then failed read_error else clean_eof) []
  step prev (c ∷ s) =
      if c == b'"'
      then again b'"' (scan_string s)
      else if c == b'R'
      then after_r s
      else if c == b'd'
      then after_d prev s
      else again c s

  -- The loop, on fuel; `none` is out of fuel.
  unfoldable pub scan_loop : ℕ → ℕ → Bytes → Option (ScanResult × Bytes)
  scan_loop zero prev s = none
  scan_loop (suc fuel) prev s = elim (step prev s) [
    | again prev' rest ↦ scan_loop fuel prev' rest
    | done r rest ↦ some (r, rest)
    | stuck ↦ none
  ]

  unfoldable pub dcc_scan_up_to_next_export : Bytes → Option (ScanResult × Bytes)
  unfolding weight scan_loop step after_r after_d scan_string scan_raw_string scan_marker
      scan_function scan_ident scan_ident_rest grown char_is_ident scan_exactly printable_is
      scan_first_printable has_double_underscore
  dcc_scan_up_to_next_export s = scan_loop (suc (weight s)) b' ' s
