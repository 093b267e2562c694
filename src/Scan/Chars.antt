-- ===== src/Scan/Chars.antt =====
-- dcc/dcc_scan.c: the characters of identifiers, and the loops that read from the stream.
-- The stream is the list of the bytes that are not yet read. At its end `fgetc` returns EOF, and a
-- cast of EOF to `uchar` is 255.
use doarr.Base.{
  ℕ, zero, suc, ◌+◌, Bytes, Bool, true, false, ◌&&◌, ◌||◌, Option, none, some, [], ◌∷◌, ◌==◌, leb,
  ltb, if◌then◌else◌,
}

unfoldable pub char_is_ident_start : ℕ → Bool
char_is_ident_start c =
    c == b'$' || (leb b'A' c && leb c b'Z') || c == b'_' || (leb b'a' c && leb c b'z') || leb 0x80 c

unfoldable pub char_is_ident : ℕ → Bool
unfolding char_is_ident_start
char_is_ident c = char_is_ident_start c || (leb b'0' c && leb c b'9')

abbrev pub fgetc : Bytes → Option ℕ × Bytes
fgetc [] = (none, [])
fgetc (c ∷ s) = (some c, s)

abbrev pub as_uchar : Option ℕ → ℕ
as_uchar none = 255
as_uchar (some c) = c

-- Whether all of `expected` was read. The first byte that differs is put back, also a 255 that was
-- made from EOF.
unfoldable pub scan_exactly : Bytes → Bytes → Bool × Bytes
scan_exactly s [] = (true, s)
scan_exactly s (e ∷ expected) =
    let (r, rest) = fgetc s in
    let c = as_uchar r in
    let next = scan_exactly rest expected in if c == e then next else (false, c ∷ rest)

-- The loop that fills `delim`, with the number of places that are left in the array.
unfoldable pub scan_delim : ℕ → Bytes → Bytes × Bytes
scan_delim zero s = ([], s)
scan_delim (suc room) s =
    let (r, rest) = fgetc s in
    let c = as_uchar r in
    let (delim, left) = scan_delim room rest in
    if c == b'(' then (b'"' ∷ [], rest) else (c ∷ delim, left)

-- The loop that looks for the end of a raw string, on fuel; `none` is out of fuel.
unfoldable pub scan_raw_rest : ℕ → Bytes → Bytes → Option Bytes
scan_raw_rest zero delim s = none
scan_raw_rest (suc fuel) delim [] = some []
scan_raw_rest (suc fuel) delim (c ∷ s) =
    let (matches, left) = scan_exactly s delim in
    let on = scan_raw_rest fuel delim s in
    let retry = scan_raw_rest fuel delim left in
    if c == b')' then (if matches then some left else retry) else on

-- What the loops over the stream count down: a byte that `scan_exactly` can put back for EOF counts
-- less than any that it reads for that.
unfoldable pub weight : Bytes → ℕ
weight [] = 0
weight (c ∷ s) = (if c == 255 then 1 else 2) + weight s

unfoldable pub scan_raw_string : Bytes → Option Bytes
unfolding scan_delim scan_raw_rest weight scan_exactly
scan_raw_string s =
    let (delim, rest) = scan_delim 17 s in scan_raw_rest (suc (weight rest)) delim rest

-- The loop of `scan_string`; the flag is set behind a backslash, where a byte is skipped.
unfoldable pub scan_string_rest : Bool → Bytes → Bytes
scan_string_rest skip [] = []
scan_string_rest true (c ∷ s) = scan_string_rest false s
scan_string_rest false (c ∷ s) = if c == b'"' then s else scan_string_rest (c == b'\\') s

unfoldable pub scan_string : Bytes → Bytes
unfolding scan_string_rest
scan_string = scan_string_rest false

unfoldable pub scan_first_printable : Bytes → Option ℕ × Bytes
scan_first_printable [] = (none, [])
scan_first_printable (c ∷ s) = if ltb b' ' c then (some c, s) else scan_first_printable s
