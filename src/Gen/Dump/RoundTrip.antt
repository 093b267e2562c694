-- ===== src/Gen/Dump/RoundTrip.antt =====
-- dcc/dcc_gen.c: a C compiler reads the dumped bytes back.
use doarr.Base.{
  ℕ, zero, suc, ◌+◌, ◌*◌, ◌/◌, ◌%◌, ◌≤◌, ◌<◌, Bytes, codes, some, [], ◌∷◌, ◌++◌, ◌≡◌, refl, arith,
  All, append_assoc, append-nil, ◌∙◌, sym, ap, length, take, drop, length-append, length-take,
  take-append-drop, take-add, All-take, All-drop,
}
use doarr.Gen.Literal.{
  inside, escaped, octal, is_octal_digit, read_plain, read_escaped, read, prepend, decode,
  decode_literal,
}
use doarr.Gen.Escape.RoundTrip.{prepend-nil, prepend-prepend, decode_reads, read_plain_out}
use doarr.Gen.Dump.{bytes_per_line, line_len, octal_byte, octal_bytes, dump_line, dump_lines, dump}

abbrev pub IsByte : ℕ → Type 0
IsByte b = b < 256

decode-octal :
    (v : ℕ) (t : Bytes) → v < 256 → decode (octal 0 v) t ≡ prepend (v ∷ []) (decode inside t)
decode-octal v [] h = unfold decode in refl
decode-octal v (c ∷ t) h = read_plain_out (v ∷ []) c t (octal 0 v) (unfold read in ground arith)

decode-octal_digits :
    (a b c : ℕ) (t : Bytes)
    → a < 8
    → b < 8
    → c < 8
    → decode inside (b'\\' ∷ (b'0' + a) ∷ (b'0' + b) ∷ (b'0' + c) ∷ t)
      ≡ decode (octal 0 ((a * 8 + b) * 8 + c)) t
decode-octal_digits a b c t ha hb hc =
    decode_reads inside escaped b'\\' ((b'0' + a) ∷ (b'0' + b) ∷ (b'0' + c) ∷ t) []
      (unfold read read_plain in refl)
    ∙ prepend-nil (decode escaped ((b'0' + a) ∷ (b'0' + b) ∷ (b'0' + c) ∷ t))
    ∙ decode_reads escaped (octal 2 a) (b'0' + a) ((b'0' + b) ∷ (b'0' + c) ∷ t) []
        (unfold read read_escaped is_octal_digit in ground arith)
    ∙ prepend-nil (decode (octal 2 a) ((b'0' + b) ∷ (b'0' + c) ∷ t))
    ∙ decode_reads (octal 2 a) (octal 1 (a * 8 + b)) (b'0' + b) ((b'0' + c) ∷ t) []
        (unfold read is_octal_digit in ground arith)
    ∙ prepend-nil (decode (octal 1 (a * 8 + b)) ((b'0' + c) ∷ t))
    ∙ decode_reads (octal 1 (a * 8 + b)) (octal 0 ((a * 8 + b) * 8 + c)) (b'0' + c) t []
        (unfold read is_octal_digit in ground arith)
    ∙ prepend-nil (decode (octal 0 ((a * 8 + b) * 8 + c)) t)

decode-octal_byte :
    (v : ℕ) (t : Bytes)
    → v < 256
    → decode inside (octal_byte v ++ t) ≡ prepend (v ∷ []) (decode inside t)
unfolding octal_byte
decode-octal_byte v t h =
    decode-octal_digits (v / 64 % 8) (v / 8 % 8) (v % 8) t (omega arith) (omega arith) (omega arith)
    ∙ ap (λ n. decode (octal 0 n) t) (omega arith)
    ∙ decode-octal v t h

decode-octal_bytes :
    (row : Bytes) (t : Bytes)
    → All IsByte row
    → decode inside (octal_bytes row ++ t) ≡ prepend row (decode inside t)
unfolding octal_bytes
decode-octal_bytes [] t h = sym (prepend-nil (decode inside t))
decode-octal_bytes (b ∷ row) t (hb, h) =
    ap (decode inside) (append_assoc (octal_byte b) (octal_bytes row) t)
    ∙ decode-octal_byte b (octal_bytes row ++ t) hb
    ∙ ap (prepend (b ∷ [])) (decode-octal_bytes row t h)
    ∙ prepend-prepend (b ∷ []) row (decode inside t)

-- A backslash at the end of a line joins it with the next.
decode-joined : (t : Bytes) → decode inside (b'\\' ∷ 10 ∷ t) ≡ decode inside t
decode-joined t =
    decode_reads inside escaped b'\\' (10 ∷ t) [] (unfold read read_plain in refl)
    ∙ prepend-nil (decode escaped (10 ∷ t))
    ∙ decode_reads escaped inside 10 t [] (unfold read read_escaped in refl)
    ∙ prepend-nil (decode inside t)

decode-dump_line :
    (row t : Bytes)
    → All IsByte row
    → decode inside (dump_line row ++ t) ≡ prepend row (decode inside t)
unfolding dump_line
decode-dump_line row t h =
    ap (decode inside) (append_assoc (octal_bytes row) (b'\\' ∷ 10 ∷ []) t)
    ∙ decode-octal_bytes row (b'\\' ∷ 10 ∷ t) h
    ∙ ap (prepend row) (decode-joined t)

decode-dump_lines :
    (n : ℕ) (d t : Bytes)
    → All IsByte d
    → decode inside (dump_lines n d ++ t) ≡ prepend (take (n * bytes_per_line) d) (decode inside t)
unfolding dump_lines
decode-dump_lines zero d t h = sym (prepend-nil (decode inside t))
decode-dump_lines (suc n) d t h =
    ap (decode inside) (append_assoc (dump_line row) (dump_lines n left) t)
    ∙ decode-dump_line row (dump_lines n left ++ t) (All-take IsByte bytes_per_line d h)
    ∙ ap (prepend row) (decode-dump_lines n left t (All-drop IsByte bytes_per_line d h))
    ∙ prepend-prepend row (take (n * bytes_per_line) left) (decode inside t)
    ∙ ap (λ x. prepend x (decode inside t)) (sym joined)
  where
    row : Bytes
    row = take bytes_per_line d

    left : Bytes
    left = drop bytes_per_line d

    joined : take (suc n * bytes_per_line) d ≡ row ++ take (n * bytes_per_line) left
    joined =
        let e : suc n * bytes_per_line ≡ bytes_per_line + n * bytes_per_line = omega arith in
        ap (λ k. take k d) e ∙ take-add bytes_per_line (n * bytes_per_line) d

-- The literal that is written for the header, from behind its quote and the joined first line, is
-- read by a C compiler as exactly the bytes of the header, whatever they are, and ends with the
-- semicolon.
pub decode-dump :
    (d : Bytes)
    → All IsByte d
    → decode_literal (codes "\\\n" ++ (dump d ++ codes "\";\n")) ≡ some (d, codes ";\n")
unfolding decode_literal dump
decode-dump d h =
    decode-joined ((dump_lines q d ++ octal_bytes rest) ++ codes "\";\n")
    ∙ ap (decode inside) (append_assoc (dump_lines q d) (octal_bytes rest) (codes "\";\n"))
    ∙ decode-dump_lines q d (octal_bytes rest ++ codes "\";\n") h
    ∙ ap (prepend whole)
        (decode-octal_bytes rest (codes "\";\n") (All-drop IsByte (q * bytes_per_line) d h))
    ∙ prepend-prepend whole rest (decode inside (codes "\";\n"))
    ∙ ap (λ x. prepend x (decode inside (codes "\";\n"))) (take-append-drop (q * bytes_per_line) d)
    ∙ ends
  where
    q : ℕ
    q = length d / bytes_per_line

    rest : Bytes
    rest = drop (q * bytes_per_line) d

    whole : Bytes
    whole = take (q * bytes_per_line) d

    ends : prepend d (decode inside (codes "\";\n")) ≡ some (d, codes ";\n")
    ends = rw append-nil

length-octal_bytes : (row : Bytes) → length (octal_bytes row) ≡ 4 * length row
unfolding octal_bytes octal_byte
length-octal_bytes [] = refl
length-octal_bytes (b ∷ row) = omega (arith, length-octal_bytes row)

-- A whole line of the dump fills the array `line` exactly: it has `line_len + 2` characters.
pub length-dump_line :
    (d : Bytes)
    → bytes_per_line ≤ length d
    → length (dump_line (take bytes_per_line d)) ≡ line_len + 2
unfolding dump_line
length-dump_line d h = omega (
  arith,
  length-append (octal_bytes (take bytes_per_line d)) (b'\\' ∷ 10 ∷ []),
  length-octal_bytes (take bytes_per_line d),
  length-take bytes_per_line d,
)
