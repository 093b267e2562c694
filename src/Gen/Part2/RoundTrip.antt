-- ===== src/Gen/Part2/RoundTrip.antt =====
-- dcc/dcc_gen.c: a C compiler reads the definitions of the second part back.
use doarr.Base.{
  ℕ, zero, suc, ◌+◌, ◌/◌, ◌%◌, ◌<◌, ◌≡◌, ◌==◌, ==_refl, ltb, leb, ◌&&◌, Bytes, codes, false, Option,
  none, some, [], ◌∷◌, ◌++◌, length, All, append_assoc, append-nil, arith, refl, sym, ap, ◌∙◌,
  Bool-cases, inl, inr,
}
use doarr.Base.Decimal.{digits, decimal, digits-append}
use doarr.Base.Int.{ℤ, pos, negsuc}
use doarr.Gen.Literal.{decode_literal}
use doarr.Gen.Dump.{dump}
use doarr.Gen.Dump.RoundTrip.{IsByte, decode-dump}
use doarr.Gen.Part2.{
  int_decimal, generated_file_epilog, binary_symbol, text_symbol, generate_c_part2_bin,
  generate_c_part2_txt,
}
use doarr.Gen.Part2.Reader.{
  expect, read_decimal, number, integer, Defined, read_epilog, read_bin, read_txt,
}

expect_own :
    {A : Type 0} (p s : Bytes) (k : Bytes → Option A) (x : Option A)
    → k s ≡ x
    → expect p (p ++ s) k ≡ x
unfolding expect
expect_own [] s k x h = h
expect_own (c ∷ p) s k x h = rw (==_refl c) (expect_own p s k x h)

-- A character that no number goes on with.
abbrev Ends : ℕ → Type 0
Ends c = (leb b'0' c && leb c b'9') ≡ false

read_decimal-digits :
    (fuel n : ℕ) (s : Bytes) → n < fuel → read_decimal 0 (digits fuel n s) ≡ read_decimal n s
unfolding read_decimal digits
read_decimal-digits zero n s h = absurd (omega arith)
read_decimal-digits (suc fuel) n s h =
    ground (arith, read_decimal-digits fuel (n / 10) ((b'0' + n % 10) ∷ s))

read_decimal_own : (n c : ℕ) (s : Bytes) → Ends c → read_decimal 0 (decimal n ++ c ∷ s) ≡ (n, c ∷ s)
unfolding read_decimal
read_decimal_own n c s e =
    ap (read_decimal 0) (sym (digits-append (suc n) n [] (c ∷ s)))
    ∙ read_decimal-digits (suc n) n (c ∷ s) (omega arith)
    ∙ rw e refl

number_own :
    {A : Type 0} (n c : ℕ) (s : Bytes) (k : ℕ → Bytes → Option A) (x : Option A)
    → Ends c
    → k n (c ∷ s) ≡ x
    → number (decimal n ++ c ∷ s) k ≡ x
unfolding number
number_own n c s k x e h = rw (read_decimal_own n c s e) h

module _ (symbol : Bytes) (i size : ℕ) (p : ℤ) (rest : Bytes) where
  epilog_text :
      generated_file_epilog i symbol size p ++ rest
      ≡ codes "\nstatic struct guest_file doarr__file_"
        ++ (decimal i
            ++ (codes " = {\n .gch_data = "
                ++ (symbol
                    ++ (codes ",\n .gch_data_end = "
                        ++ (symbol
                            ++ (codes " + "
                                ++ (decimal size
                                    ++ (codes
                                          ",\n .compiler_args = doarr__compiler_args,\n .num_compiler_args = sizeof doarr__compiler_args / sizeof *doarr__compiler_args,\n .pos_between_args = "
                                        ++ (int_decimal p ++ (codes ",\n};\n" ++ rest))))))))))
  unfolding generated_file_epilog
  epilog_text = simp append_assoc

-- The first character of a decimal number is a digit.
digits-first :
    (fuel n : ℕ) (s : Bytes)
    → n < fuel
    → (c : ℕ) × (t : Bytes) × (digits fuel n s ≡ c ∷ t) × ((c == b'-') ≡ false)
unfolding digits
digits-first zero n s h = absurd (omega arith)
digits-first (suc fuel) n s h = elim (Bool-cases (ltb n 10)) [
  | inl e ↦ (b'0' + n, s, ground (arith, e), ground arith)
  | inr e ↦
      let (c, t, same, no_sign) = digits-first fuel (n / 10) ((b'0' + n % 10) ∷ s) (ground arith) in
      (c, t, ground (arith, e, same), no_sign)
]

unsigned :
    {A : Type 0} (c n : ℕ) (s t : Bytes) (k : ℤ → Bytes → Option A)
    → s ≡ c ∷ t
    → (c == b'-') ≡ false
    → integer s k ≡ number s (λ m rest. k (pos m) rest)
unfolding integer
unsigned c n s t k same no_sign = rw (same, no_sign) refl

integer_own :
    {A : Type 0} (p : ℤ) (c : ℕ) (s : Bytes) (k : ℤ → Bytes → Option A) (x : Option A)
    → Ends c
    → k p (c ∷ s) ≡ x
    → integer (int_decimal p ++ c ∷ s) k ≡ x
unfolding integer
integer_own (pos n) c s k x e h =
    let (d, t, same, no_sign) = digits-first (suc n) n [] (omega arith) in
    unsigned d n (decimal n ++ c ∷ s) (t ++ c ∷ s) k (ap (λ x. x ++ c ∷ s) same) no_sign
    ∙ number_own n c s (λ m rest. k (pos m) rest) x e h
integer_own (negsuc n) c s k x e h =
    number_own (suc n) c s (λ m rest. elim m [ zero ↦ none | suc m ↦ k (negsuc m) rest ]) x e h

epilog_own :
    {A : Type 0} (symbol : Bytes) (i size : ℕ) (p : ℤ) (rest : Bytes)
    (k : Defined → Bytes → Option A) (x : Option A)
    → k (record { file_index = i; data_size = size; pos_between_args = p }) rest ≡ x
    → read_epilog symbol (generated_file_epilog i symbol size p ++ rest) k ≡ x
unfolding read_epilog
epilog_own symbol i size p rest k x h =
    ap (λ s. read_epilog symbol s k) (epilog_text symbol i size p rest)
    ∙ expect_own _ _ _ x (
        number_own i _ _ _ x refl (
          expect_own _ _ _ x (
            expect_own symbol _ _ x (
              expect_own _ _ _ x (
                expect_own symbol _ _ x (
                  expect_own _ _ _ x (
                    number_own size _ _ _ x refl (
                      expect_own _ _ _ x (integer_own p _ _ _ x refl (expect_own _ _ _ x h))))))))))

bin_own :
    (i size : ℕ) (p : ℤ)
    → read_bin binary_symbol (generate_c_part2_bin i size p)
      ≡ some (record { file_index = i; data_size = size; pos_between_args = p })
unfolding read_bin generate_c_part2_bin
bin_own i size p =
    let x : Option Defined =
      some (record { file_index = i; data_size = size; pos_between_args = p }) in
    let epilog = generated_file_epilog i binary_symbol size p in
    expect_own _ _ _ x (
      expect_own binary_symbol _ _ x (
        expect_own _ epilog _ x (
          ap (λ s. read_epilog binary_symbol s (λ d s. some d)) (sym (append-nil epilog))
          ∙ epilog_own binary_symbol i size p [] (λ d s. some d) x refl)))

-- The literal, from behind its quote.
literal_own :
    {A : Type 0} (header : Bytes) (k : Bytes → Option A)
    → All IsByte header
    → (elim (decode_literal (codes "\\\n" ++ (dump header ++ codes "\";\n"))) [
      | none ↦ none
      | some (bytes, rest) ↦ expect (codes ";\n") rest (λ s. k bytes)
    ])
      ≡ k header
unfolding expect
literal_own header k h = rw (decode-dump header h) refl

txt_text :
    (i : ℕ) (p : ℤ) (header : Bytes)
    → generate_c_part2_txt i header p
      ≡ codes "\nstatic const unsigned char "
        ++ (text_symbol i
            ++ (codes "["
                ++ (decimal (length header)
                    ++ (codes "];\n"
                        ++ (generated_file_epilog i (text_symbol i) (length header) p
                            ++ (codes "\nstatic const unsigned char "
                                ++ (text_symbol i
                                    ++ (codes "["
                                        ++ (decimal (length header)
                                            ++ (codes "] = \""
                                                ++ (codes "\\\n"
                                                    ++ (dump header ++ codes "\";\n"))))))))))))
unfolding generate_c_part2_txt
txt_text i p header = simp append_assoc

txt_own :
    (i : ℕ) (p : ℤ) (header : Bytes)
    → All IsByte header
    → read_txt (text_symbol i) (generate_c_part2_txt i header p)
      ≡ some (
        record { file_index = i; data_size = length header; pos_between_args = p },
        length header,
        length header,
        header,
      )
unfolding read_txt
txt_own i p header h =
    let d : Defined = record { file_index = i; data_size = length header; pos_between_args = p } in
    let n = length header in
    let x : Option (Defined × ℕ × ℕ × Bytes) = some (d, n, n, header) in
    ap (read_txt (text_symbol i)) (txt_text i p header)
    ∙ expect_own _ _ _ x (
        expect_own (text_symbol i) _ _ x (
          expect_own _ _ _ x (
            number_own n _ _ _ x refl (
              expect_own _ _ _ x (
                epilog_own (text_symbol i) i n p _ _ x (
                  expect_own _ _ _ x (
                    expect_own (text_symbol i) _ _ x (
                      expect_own _ _ _ x (
                        number_own n _ _ _ x refl (
                          expect_own _ _ _ x
                            (literal_own header (λ bytes. some (d, n, n, bytes)) h)))))))))))

-- The definitions that are written behind the C source, as a C compiler reads them: the structure
-- for the file has its number and its position, and its data end as far behind their start as the
-- header has bytes. In the text form the array has that size wherever it is declared, and the bytes
-- that initialise it are those of the header.
pub read-generate_c_part2 :
    (i size : ℕ) (p : ℤ) (header : Bytes)
    → All IsByte header
    → (read_bin binary_symbol (generate_c_part2_bin i size p)
        ≡ some (record { file_index = i; data_size = size; pos_between_args = p }))
      × (read_txt (text_symbol i) (generate_c_part2_txt i header p)
          ≡ some (
            record { file_index = i; data_size = length header; pos_between_args = p },
            length header,
            length header,
            header,
          ))
read-generate_c_part2 i size p header h = (bin_own i size p, txt_own i p header h)
