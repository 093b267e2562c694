-- ===== src/Gen/Part2/Reader.antt =====
-- What a C compiler reads from the definitions that dcc writes. This is no code of the program, but
-- what it is compared with.
use doarr.Base.{
  ℕ, zero, suc, ◌+◌, ◌-◌, ◌*◌, Bytes, codes, ◌&&◌, Option, none, some, [], ◌∷◌, ◌==◌, leb,
  if◌then◌else◌,
}
use doarr.Base.Int.{ℤ, pos, negsuc}
use doarr.Gen.Literal.{decode_literal}

-- The text is to begin with another, and goes on.
unfoldable pub expect : {A : Type 0} → Bytes → Bytes → (Bytes → Option A) → Option A
expect [] s k = k s
expect (c ∷ p) [] k = none
expect (c ∷ p) (d ∷ s) k = let rest = expect p s k in if c == d then rest else none

-- A decimal number, behind the digits of `v`.
unfoldable pub read_decimal : ℕ → Bytes → ℕ × Bytes
read_decimal v [] = (v, [])
read_decimal v (c ∷ s) =
    let next = read_decimal (10 * v + (c - b'0')) s in
    if leb b'0' c && leb c b'9' then next else (v, c ∷ s)

unfoldable pub number : {A : Type 0} → Bytes → (ℕ → Bytes → Option A) → Option A
unfolding read_decimal
number s k = let (n, rest) = read_decimal 0 s in k n rest

unfoldable pub integer : {A : Type 0} → Bytes → (ℤ → Bytes → Option A) → Option A
unfolding number
integer [] k = none
integer (c ∷ s) k =
    if c == b'-'
    then number s (λ n rest. elim n [ zero ↦ none | suc m ↦ k (negsuc m) rest ])
    else number (c ∷ s) (λ n rest. k (pos n) rest)

-- struct guest_file as the definition initialises it: the number of the file, the offset of
-- `gch_data_end`, and `pos_between_args`.
pub record Defined : Type 0 where
  pub file_index : ℕ
  pub data_size : ℕ
  pub pos_between_args : ℤ

-- The definition, where `gch_data` and the base of `gch_data_end` are the symbol.
unfoldable pub read_epilog : {A : Type 0} → Bytes → Bytes → (Defined → Bytes → Option A) → Option A
read_epilog symbol s k = expect (codes "\nstatic struct guest_file doarr__file_") s λ s.
    number s λ i s. expect (codes " = {\n .gch_data = ") s λ s. expect symbol s λ s.
      expect (codes ",\n .gch_data_end = ") s λ s. expect symbol s λ s. expect (codes " + ") s λ s.
        number s λ size s.
          expect
            (codes
              ",\n .compiler_args = doarr__compiler_args,\n .num_compiler_args = sizeof doarr__compiler_args / sizeof *doarr__compiler_args,\n .pos_between_args = ")
            s
            λ s. integer s λ p s.
              expect (codes ",\n};\n") s
                λ s. k (record { file_index = i; data_size = size; pos_between_args = p }) s

-- A declaration of an array that is defined elsewhere, with the structure.
unfoldable pub read_bin : Bytes → Bytes → Option Defined
read_bin symbol s =
    expect (codes "\nextern const unsigned char ") s
      λ s. expect symbol s λ s. expect (codes "[];\n") s λ s. read_epilog symbol s λ d s. some d

-- An array of a size under a symbol, the structure, and again the array with the string literal that
-- initialises it: the structure and the bytes.
unfoldable pub read_txt : Bytes → Bytes → Option (Defined × ℕ × ℕ × Bytes)
read_txt symbol s = expect (codes "\nstatic const unsigned char ") s λ s. expect symbol s λ s.
    expect (codes "[") s λ s. number s λ size s. expect (codes "];\n") s λ s.
      read_epilog symbol s λ d s. expect (codes "\nstatic const unsigned char ") s λ s.
        expect symbol s λ s. expect (codes "[") s λ s. number s λ size' s.
          expect (codes "] = \"") s λ s. elim (decode_literal s) [
            | none ↦ none
            | some (bytes, rest) ↦ expect (codes ";\n") rest λ s. some (d, size, size', bytes)
          ]
