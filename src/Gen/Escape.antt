-- ===== src/Gen/Escape.antt =====
-- dcc/dcc_gen.c: the literals of the compiler's arguments in `generate_c_part1`.
pub mod RoundTrip
pub mod Merges
use mathlib.Core.List.{head?}
use doarr.Base.{
  ℕ, ◌+◌, ◌-◌, ◌/◌, ◌%◌, Bytes, codes, Bool, true, false, ◌&&◌, ◌||◌, Option, none, some, [], ◌∷◌,
  ◌++◌, ◌==◌, leb, ltb, if◌then◌else◌,
}

unfoldable pub hex_digit : ℕ → ℕ
hex_digit d = if ltb d 10 then b'0' + d else b'a' + (d - 10)

-- What one round writes for `*p`; `next` is p[1], which is 0 at the end.
unfoldable pub escape_char : ℕ → ℕ → Bytes
escape_char c next =
    if c == b'?' && next == b'?'
    then codes "?\"\""
    else if c == b'"' || c == b'\\'
    then b'\\' ∷ c ∷ []
    else if leb 32 c && ltb c 127
    then c ∷ []
    else codes "\\x" ++ hex_digit (c / 16) ∷ hex_digit (c % 16) ∷ []

abbrev pub first : Bytes → ℕ
first [] = 0
first (c ∷ s) = c

-- The loop over the characters of an argument.
unfoldable pub escape : Bytes → Bytes
unfolding escape_char hex_digit
escape [] = []
escape (c ∷ s) = escape_char c (first s) ++ escape s
