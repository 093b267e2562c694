-- ===== src/Gen/Escape/RoundTrip.antt =====
-- dcc/dcc_gen.c: what a C compiler reads from the literal of an argument.
use doarr.Base.{
  codes, ℕ, ◌+◌, ◌*◌, ◌/◌, ◌%◌, ◌≤◌, ◌<◌, Bytes, true, false, ◌||◌, Option, none, some, [], ◌∷◌,
  ◌++◌, ◌≡◌, ◌≢◌, refl, arith, sym, ◌==◌, append_assoc, inl, inr, ◌⊎◌, ◌∙◌, ap,
}
use doarr.Gen.Literal.{
  Mode, inside, closed, escaped, hex_start, hex, reads, is_hex_digit, hex_value, read_plain,
  read_escaped, read, prepend, decode, decode_literal, trigraph, replace_from, replace_trigraphs,
  read_literal,
}
use doarr.Gen.Escape.{hex_digit, escape_char, first, escape}

-- A byte that is written as it is, or behind a backslash.
abbrev IsPrintable : ℕ → Type 0
IsPrintable c = (32 ≤ c) × (c < 127)

-- A byte of a C string that is not printable has no hexadecimal digit behind it.
abbrev pub IsEscapable : Bytes → Type 0
IsEscapable [] = Unit
IsEscapable (c ∷ s) =
    (0 < c) × (c < 256) × (IsPrintable c ⊎ (is_hex_digit (first s) ≡ false)) × IsEscapable s

pub prepend-nil : (o : Option (Bytes × Bytes)) → prepend [] o ≡ o
prepend-nil none = refl
prepend-nil (some x) = refl

pub prepend-prepend :
    (xs ys : Bytes) (o : Option (Bytes × Bytes)) → prepend xs (prepend ys o) ≡ prepend (xs ++ ys) o
prepend-prepend xs ys none = refl
prepend-prepend xs ys (some (b, r)) = rw append_assoc

-- What `decode` does at a byte, for each answer of `read`.
pub decode_reads :
    (mode mode' : Mode) (c : ℕ) (s out : Bytes)
    → read mode c ≡ reads out mode'
    → decode mode (c ∷ s) ≡ prepend out (decode mode' s)
unfolding decode
decode_reads mode mode' c s out e = rw (e, decode)

pub read_plain_out :
    (out : Bytes) (c : ℕ) (s : Bytes) (mode : Mode)
    → read mode c ≡ read_plain out c
    → decode mode (c ∷ s) ≡ prepend out (decode inside (c ∷ s))
unfolding read_plain read
read_plain_out out c s mode e = ground (
  arith,
  decode_reads mode closed c s out,
  decode_reads inside closed c s [],
  prepend-nil (decode closed s),
  decode_reads mode escaped c s out,
  decode_reads inside escaped c s [],
  prepend-nil (decode escaped s),
  decode_reads mode inside c s (out ++ c ∷ []),
  decode_reads inside inside c s (c ∷ []),
  prepend-prepend out (c ∷ []) (decode inside s),
)

-- Where a hexadecimal escape ends, its byte has been read.
decode-hex :
    (v : ℕ) (s : Bytes)
    → v < 256
    → is_hex_digit (first s) ≡ false
    → decode (hex v) s ≡ prepend (v ∷ []) (decode inside s)
decode-hex v [] h n = unfold decode in refl
decode-hex v (c ∷ s) h n = read_plain_out (v ∷ []) c s (hex v) (unfold read in ground arith)

hex_digit-IsHex :
    (d : ℕ) → d < 16 → (is_hex_digit (hex_digit d) ≡ true) × (hex_value (hex_digit d) ≡ d)
unfolding hex_digit is_hex_digit hex_value
hex_digit-IsHex d h = ground arith

decode-question :
    (t : Bytes) → decode inside (codes "?\"\"" ++ t) ≡ prepend (b'?' ∷ []) (decode inside t)
unfolding decode read read_plain
decode-question t =
    ap (prepend (b'?' ∷ []))
      (prepend-nil (prepend [] (decode inside t)) ∙ prepend-nil (decode inside t))

decode-backslash :
    (c : ℕ) (t : Bytes)
    → (c == b'"' || c == b'\\') ≡ true
    → decode inside (b'\\' ∷ c ∷ t) ≡ prepend (c ∷ []) (decode inside t)
decode-backslash c t h =
    decode_reads inside escaped b'\\' (c ∷ t) [] (unfold read read_plain in refl)
    ∙ prepend-nil _
    ∙ decode_reads escaped inside c t (c ∷ []) (unfold read read_escaped in ground arith)

decode-plain :
    (c : ℕ) (t : Bytes)
    → (c == b'"' || c == b'\\') ≡ false
    → decode inside (c ∷ t) ≡ prepend (c ∷ []) (decode inside t)
decode-plain c t h =
    decode_reads inside inside c t (c ∷ []) (unfold read read_plain in ground arith)

decode-hex_digits :
    (d e : ℕ) (t : Bytes)
    → is_hex_digit d ≡ true
    → is_hex_digit e ≡ true
    → decode inside (b'\\' ∷ b'x' ∷ d ∷ e ∷ t) ≡ decode (hex (hex_value d * 16 + hex_value e)) t
decode-hex_digits d e t hd he =
    decode_reads inside escaped b'\\' (b'x' ∷ d ∷ e ∷ t) [] (unfold read read_plain in refl)
    ∙ prepend-nil (decode escaped (b'x' ∷ d ∷ e ∷ t))
    ∙ decode_reads escaped hex_start b'x' (d ∷ e ∷ t) [] (unfold read read_escaped in refl)
    ∙ prepend-nil (decode hex_start (d ∷ e ∷ t))
    ∙ decode_reads hex_start (hex (hex_value d)) d (e ∷ t) [] (unfold read in ground arith)
    ∙ prepend-nil (decode (hex (hex_value d)) (e ∷ t))
    ∙ decode_reads (hex (hex_value d)) (hex (hex_value d * 16 + hex_value e)) e t []
        (unfold read in ground arith)
    ∙ prepend-nil (decode (hex (hex_value d * 16 + hex_value e)) t)

pub decode-hex_pair :
    (c : ℕ) (t : Bytes)
    → c < 256
    → decode inside (b'\\' ∷ b'x' ∷ hex_digit (c / 16) ∷ hex_digit (c % 16) ∷ t) ≡ decode (hex c) t
decode-hex_pair c t h =
    let high = hex_digit-IsHex (c / 16) (omega arith) in
    let low = hex_digit-IsHex (c % 16) (omega arith) in
    decode-hex_digits (hex_digit (c / 16)) (hex_digit (c % 16)) t high.0 low.0
    ∙ ap (λ v. decode (hex v) t) (omega (arith, high, low))

-- The text for a byte is read as the byte, in front of any text that cannot prolong it.
decode-escape_char :
    (c next : ℕ) (t : Bytes)
    → c < 256
    → IsPrintable c ⊎ (is_hex_digit (first t) ≡ false)
    → decode inside (escape_char c next ++ t) ≡ prepend (c ∷ []) (decode inside t)
unfolding escape_char
decode-escape_char c next t h p = ground (
  arith,
  decode-question t,
  decode-backslash c t,
  decode-plain c t,
  decode-hex_pair c t h,
  decode-hex c t h,
)

first-escape :
    (s rest : Bytes)
    → is_hex_digit (first s) ≡ false
    → is_hex_digit (first (escape s ++ b'"' ∷ rest)) ≡ false
unfolding escape escape_char is_hex_digit
first-escape [] rest h = refl
first-escape (c ∷ s) rest h = ground arith

escape-nil : escape [] ≡ []
unfolding escape
escape-nil = refl

pub escape-cons :
    (c : ℕ) (s t : Bytes) → escape (c ∷ s) ++ t ≡ escape_char c (first s) ++ (escape s ++ t)
unfolding escape
escape-cons c s t = append_assoc (escape_char c (first s)) (escape s) t

decode_inside-escape :
    (s rest : Bytes)
    → IsEscapable s
    → decode inside (escape s ++ b'"' ∷ b',' ∷ rest) ≡ some (s, b',' ∷ rest)
decode_inside-escape [] rest h = rw escape-nil (unfold decode read read_plain in refl)
decode_inside-escape (c ∷ s) rest (pos, lt, p, h) =
    ap (decode inside) (escape-cons c s (b'"' ∷ b',' ∷ rest))
    ∙ decode-escape_char c (first s) (escape s ++ b'"' ∷ b',' ∷ rest) lt (stops p)
    ∙ ap (prepend (c ∷ [])) (decode_inside-escape s rest h)
  where
    stops :
        IsPrintable c ⊎ (is_hex_digit (first s) ≡ false)
        → IsPrintable c ⊎ (is_hex_digit (first (escape s ++ b'"' ∷ b',' ∷ rest)) ≡ false)
    stops (inl q) = inl q
    stops (inr q) = inr (first-escape s (b',' ∷ rest) q)

replace-keeps :
    (c : ℕ) (t : Bytes)
    → (c ≢ b'?') ⊎ (first t ≢ b'?')
    → replace_trigraphs (c ∷ t) ≡ c ∷ replace_trigraphs t
unfolding replace_trigraphs replace_from trigraph
replace-keeps c [] h = refl
replace-keeps c (d ∷ []) h = refl
replace-keeps c (d ∷ e ∷ t) h = ground arith

hex_digit-ne-question : (d : ℕ) → d < 16 → hex_digit d ≢ b'?'
unfolding hex_digit
hex_digit-ne-question d h = λ e. ground arith

replace-hex :
    (c : ℕ) (t : Bytes)
    → c < 256
    → replace_trigraphs (codes "\\x" ++ hex_digit (c / 16) ∷ hex_digit (c % 16) ∷ t)
      ≡ codes "\\x" ++ hex_digit (c / 16) ∷ hex_digit (c % 16) ∷ replace_trigraphs t
replace-hex c t h =
    rw
      (
        replace-keeps b'\\' (b'x' ∷ hex_digit (c / 16) ∷ hex_digit (c % 16) ∷ t)
            (inl (omega arith)),
        replace-keeps b'x' (hex_digit (c / 16) ∷ hex_digit (c % 16) ∷ t) (inl (omega arith)),
        replace-keeps (hex_digit (c / 16)) (hex_digit (c % 16) ∷ t)
            (inl (hex_digit-ne-question (c / 16) (omega arith))),
        replace-keeps (hex_digit (c % 16)) t (inl (hex_digit-ne-question (c % 16) (omega arith))),
      )
      refl

replace-question :
    (t : Bytes) → replace_trigraphs (codes "?\"\"" ++ t) ≡ codes "?\"\"" ++ replace_trigraphs t
replace-question t =
    replace-keeps b'?' (b'"' ∷ b'"' ∷ t) (inr (omega arith))
    ∙ ap (λ x. b'?' ∷ x)
        (replace-keeps b'"' (b'"' ∷ t) (inl (omega arith))
          ∙ ap (λ x. b'"' ∷ x) (replace-keeps b'"' t (inl (omega arith))))

replace-backslash :
    (c : ℕ) (t : Bytes)
    → c ≢ b'?'
    → replace_trigraphs (b'\\' ∷ c ∷ t) ≡ b'\\' ∷ c ∷ replace_trigraphs t
replace-backslash c t h =
    replace-keeps b'\\' (c ∷ t) (inl (omega arith))
    ∙ ap (λ x. b'\\' ∷ x) (replace-keeps c t (inl h))

-- What is written for a byte holds no trigraph, and begins none.
replace-escape_char :
    (c next : ℕ) (t : Bytes)
    → c < 256
    → (next ≢ b'?' → first t ≢ b'?')
    → replace_trigraphs (escape_char c next ++ t) ≡ escape_char c next ++ replace_trigraphs t
unfolding escape_char
replace-escape_char c next t h k =
    ground (arith, replace-question t, replace-backslash c t, replace-keeps c t, replace-hex c t h)

first-escape_question : (s rest : Bytes) → first s ≢ b'?' → first (escape s ++ b'"' ∷ rest) ≢ b'?'
unfolding escape escape_char
first-escape_question [] rest h = λ e. ground arith
first-escape_question (c ∷ s) rest h = λ e. ground arith

replace-escape :
    (s rest : Bytes)
    → IsEscapable s
    → replace_trigraphs (escape s ++ b'"' ∷ b',' ∷ rest)
      ≡ escape s ++ b'"' ∷ b',' ∷ replace_trigraphs rest
replace-escape [] rest h = rw escape-nil (
    replace-keeps b'"' (b',' ∷ rest) (inl (omega arith))
    ∙ ap (λ x. b'"' ∷ x) (replace-keeps b',' rest (inl (omega arith))))
replace-escape (c ∷ s) rest (pos, lt, p, h) =
    ap replace_trigraphs (escape-cons c s (b'"' ∷ b',' ∷ rest))
    ∙ replace-escape_char c (first s) (escape s ++ b'"' ∷ b',' ∷ rest) lt
        (first-escape_question s (b',' ∷ rest))
    ∙ ap (λ x. escape_char c (first s) ++ x) (replace-escape s rest h)
    ∙ sym (escape-cons c s (b'"' ∷ b',' ∷ replace_trigraphs rest))

-- The literal that dcc writes for an argument is read by a C compiler, which replaces trigraphs first,
-- as that argument, and ends where the writer ends it, if the argument is a C string in which no byte
-- that is written as `\x..` has a hexadecimal digit behind it.
pub decode-escape :
    (s rest : Bytes)
    → IsEscapable s
    → read_literal (escape s ++ b'"' ∷ b',' ∷ rest) ≡ some (s, b',' ∷ replace_trigraphs rest)
unfolding read_literal decode_literal
decode-escape s rest h =
    ap (decode inside) (replace-escape s rest h) ∙ decode_inside-escape s (replace_trigraphs rest) h
