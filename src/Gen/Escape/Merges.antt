-- ===== src/Gen/Escape/Merges.antt =====
-- dcc/dcc_gen.c: a hexadecimal escape swallows a digit behind it.
use doarr.Base.{
  ℕ, ◌+◌, ◌*◌, ◌≤◌, ◌<◌, Bytes, true, Option, none, some, [], ◌∷◌, ◌++◌, ◌≡◌, ◌≢◌, arith, ◌∙◌, sym,
  ap,
}
use doarr.Gen.Literal.{
  inside, closed, escaped, hex, is_hex_digit, hex_value, read_plain, read, prepend, decode,
  decode_literal,
}
use doarr.Gen.Escape.{escape_char, first, escape}
use doarr.Gen.Escape.RoundTrip.{prepend-nil, decode_reads, decode-hex_pair, escape-cons}

prepend-eq-some :
    (v x : ℕ) (out b r : Bytes) (o : Option (Bytes × Bytes))
    → prepend (v ∷ out) o ≡ some (x ∷ b, r)
    → v ≤ x
prepend-eq-some v x out b r none h = cc
prepend-eq-some v x out b r (some (b', r')) h = ground arith

-- The byte of a hexadecimal escape is at least the value that has been read of it.
hex-le : (s b r : Bytes) (v x : ℕ) → decode (hex v) s ≡ some (x ∷ b, r) → v ≤ x
unfolding decode read read_plain
hex-le [] b r v x h = cc
hex-le (c ∷ s) b r v x h = ground (
  arith,
  prepend-nil (decode (hex (v * 16 + hex_value c)) s),
  hex-le s b r (v * 16 + hex_value c) x,
  prepend-eq-some v x [] b r (decode closed s),
  prepend-eq-some v x [] b r (decode escaped s),
  prepend-eq-some v x (c ∷ []) b r (decode inside s),
)

hex_digit-escape : (d next : ℕ) → is_hex_digit d ≡ true → escape_char d next ≡ d ∷ []
unfolding escape_char is_hex_digit
hex_digit-escape d next h = ground arith

not_printable-escape :
    (c next : ℕ) (t : Bytes)
    → 126 < c
    → c < 256
    → decode inside (escape_char c next ++ t) ≡ decode (hex c) t
unfolding escape_char
not_printable-escape c next t h lt = ground (arith, decode-hex_pair c t lt)

decode-hex_step :
    (v d : ℕ) (t : Bytes)
    → is_hex_digit d ≡ true
    → decode (hex v) (d ∷ t) ≡ decode (hex (v * 16 + hex_value d)) t
unfolding read
decode-hex_step v d t h =
    decode_reads (hex v) (hex (v * 16 + hex_value d)) d t [] (ground arith)
    ∙ prepend-nil (decode (hex (v * 16 + hex_value d)) t)

-- An argument that has a byte above 126 with a hexadecimal digit behind it is not read back: the
-- compiler takes the digit into the escape of the byte before it, whatever follows.
pub decode-escape_merges :
    (c d : ℕ) (s rest r : Bytes)
    → 126 < c
    → c < 256
    → is_hex_digit d ≡ true
    → decode_literal (escape (c ∷ d ∷ s) ++ b'"' ∷ b',' ∷ rest) ≢ some (c ∷ d ∷ s, r)
unfolding decode_literal
decode-escape_merges c d s rest r h lt hd e =
    absurd (omega (arith, hex-le t (d ∷ s) r (c * 16 + hex_value d) c (sym merged ∙ e)))
  where
    tail : Bytes
    tail = b'"' ∷ b',' ∷ rest

    t : Bytes
    t = escape s ++ tail

    digit_kept : escape (d ∷ s) ++ tail ≡ d ∷ t
    digit_kept = escape-cons d s tail ∙ ap (λ x. x ++ t) (hex_digit-escape d (first s) hd)

    merged : decode inside (escape (c ∷ d ∷ s) ++ tail) ≡ decode (hex (c * 16 + hex_value d)) t
    merged =
        ap (decode inside) (escape-cons c (d ∷ s) tail)
        ∙ not_printable-escape c d (escape (d ∷ s) ++ tail) h lt
        ∙ ap (decode (hex c)) digit_kept
        ∙ decode-hex_step c d t hd
