-- ===== src/Expr/Ctors/Numbers.antt =====
-- runtime/expr_all.cpp: the text of a number.
use doarr.Base.{
  ℕ, zero, suc, ◌+◌, ◌*◌, ◌/◌, ◌%◌, ◌^◌, ◌≤◌, ◌<◌, ◌≡◌, Bytes, [], ◌∷◌, length, ◌==◌, arith, refl,
  ap, ◌∙◌, Bool-cases, inl, inr,
}
use doarr.Base.Decimal.{digits, decimal, read_number, read_number-digits, length-digits}
use doarr.Expr.Ctors.{int_loop, int_text}

int_loop-digits : (fuel n : ℕ) (str : Bytes) → int_loop fuel n str ≡ digits fuel n str
unfolding int_loop digits
int_loop-digits zero n str = refl
int_loop-digits (suc fuel) n str = elim (Bool-cases (n / 10 == 0)) [
  | inl e ↦
      let small : n < 10 = ground arith in
      let same : n % 10 ≡ n = omega arith in ground (arith, same)
  | inr e ↦
      let big : 10 ≤ n = ground arith in
      ground (arith, int_loop-digits fuel (n / 10) ((b'0' + n % 10) ∷ str))
]

-- A size_t is written as its decimal digits, as printf writes it: they are read back as the number,
-- there is one at least, and with the null they fit into the array of 25 characters.
pub int_text-decimal :
    (value : ℕ)
    → value < 2 ^ 64
    → (int_text value ≡ decimal value)
      × (read_number 0 (int_text value) ≡ value)
      × (length (int_text value) + 1 ≤ 3 * 8 + 1)
unfolding int_text
int_text-decimal value h =
    let same = int_loop-digits (suc value) value [] in
    let back : read_number value [] ≡ value = unfold read_number in refl in
    (
      same,
      ap (read_number 0) same ∙ read_number-digits (suc value) value [] (omega arith) ∙ back,
      omega (arith, ap length same, length-digits 19 (suc value) value [] (omega arith)),
    )
