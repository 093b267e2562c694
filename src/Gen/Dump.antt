-- ===== src/Gen/Dump.antt =====
-- dcc/dcc_gen.c: the bytes of the precompiled header as one string literal, in
-- `generate_c_part2_txt`.
pub mod RoundTrip
use doarr.Base.{
  ℕ, zero, suc, ◌+◌, ◌*◌, ◌/◌, ◌%◌, Bytes, codes, length, take, drop, List, [], ◌∷◌, ◌++◌,
}

abbrev pub bytes_per_line : ℕ
bytes_per_line = 32

-- `line_len`: four characters encode one byte.
abbrev pub line_len : ℕ
line_len = 4 * bytes_per_line

-- A backslash and three octal digits.
unfoldable pub octal_byte : ℕ → Bytes
octal_byte byte = b'\\' ∷ (b'0' + byte / 64 % 8) ∷ (b'0' + byte / 8 % 8) ∷ (b'0' + byte % 8) ∷ []

unfoldable pub octal_bytes : Bytes → Bytes
unfolding octal_byte
octal_bytes [] = []
octal_bytes (byte ∷ data_left) = octal_byte byte ++ octal_bytes data_left

-- What one round of the loop over `y` puts into `line` and writes.
unfoldable pub dump_line : Bytes → Bytes
unfolding octal_bytes
dump_line row = octal_bytes row ++ b'\\' ∷ 10 ∷ []

unfoldable pub dump_lines : ℕ → Bytes → Bytes
unfolding dump_line
dump_lines zero data_left = []
dump_lines (suc n) data_left =
    dump_line (take bytes_per_line data_left) ++ dump_lines n (drop bytes_per_line data_left)

-- The whole lines, then the bytes that are left over.
unfoldable pub dump : Bytes → Bytes
unfolding dump_lines octal_bytes
dump bytes =
    dump_lines (length bytes / bytes_per_line) bytes
    ++ octal_bytes (drop (length bytes / bytes_per_line * bytes_per_line) bytes)
