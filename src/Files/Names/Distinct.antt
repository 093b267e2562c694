-- ===== src/Files/Names/Distinct.antt =====
-- dcc/dcc.c: no two temporary outputs have the same name.
use doarr.Base.{
  ℕ, zero, suc, ◌-◌, ◌^◌, ◌<◌, ◌≡◌, ◌≢◌, Bytes, [], ◌∷◌, ◌++◌, length, take, arith, refl, ap, sym,
  ◌∙◌,
}
use doarr.Base.Decimal.{digits, read_number, read_number-digits, digits-append, length-digits}
use doarr.Files.Names.{my_basename, tmp_output}

take-append_cons :
    (k : ℕ) (xs s : Bytes) (c : ℕ)
    → length xs < k
    → take k (xs ++ c ∷ s) ≡ xs ++ c ∷ take (k - length xs - 1) s
take-append_cons zero xs s c h = absurd (omega arith)
take-append_cons (suc k) [] s c h = ap (λ n. c ∷ take n s) (omega arith)
take-append_cons (suc k) (x ∷ xs) s c h =
    let e : k - length xs - 1 ≡ suc k - suc (length xs) - 1 = omega arith in
    ap (λ t. x ∷ t) (take-append_cons k xs s c (omega arith)) ∙ ap (λ n. x ∷ (xs ++ c ∷ take n s)) e

read_number-tmp_output : (i : ℕ) (name : Bytes) → i < 2 ^ 31 → read_number 0 (tmp_output i name) ≡ i
read_number-tmp_output i name h =
    let ds = digits (suc i) i [] in
    let rest = take (63 - length ds - 1) (my_basename name) in
    let few : length ds < 63 = omega (arith, length-digits 9 (suc i) i [] (omega arith)) in
    let cut : tmp_output i name ≡ ds ++ b'.' ∷ rest =
      unfold tmp_output in take-append_cons 63 ds (my_basename name) b'.' few in
    let dot : read_number i (b'.' ∷ rest) ≡ i = unfold read_number in refl in
    ap (read_number 0) (cut ∙ sym (digits-append (suc i) i [] (b'.' ∷ rest)))
    ∙ read_number-digits (suc i) i (b'.' ∷ rest) (omega arith)
    ∙ dot

-- The names of the temporary outputs of two different input files differ, whatever the files are
-- called and although the names are cut off after 63 characters.
pub tmp_output-distinct :
    (i j : ℕ) (name name' : Bytes)
    → i < 2 ^ 31
    → j < 2 ^ 31
    → i ≢ j
    → tmp_output i name ≢ tmp_output j name'
tmp_output-distinct i j name name' hi hj ne e = ne (
    sym (read_number-tmp_output i name hi)
    ∙ ap (read_number 0) e
    ∙ read_number-tmp_output j name' hj)
