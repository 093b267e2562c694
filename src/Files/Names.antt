-- ===== src/Files/Names.antt =====
-- The names of outputs: `my_basename` in dcc/dcc.h, the temporary outputs in `main` of dcc/dcc.c, and
-- the object files of `-c` in `dcc_gen_main` of dcc/dcc_gen.c.
pub mod Distinct
pub mod Objects
use doarr.Base.{
  ℕ, zero, suc, ◌+◌, ◌/◌, ◌%◌, Bytes, codes, Option, none, some, [], ◌∷◌, ◌++◌, length, take, ◌==◌,
  ltb, if◌then◌else◌,
}
use doarr.Base.Decimal.{digits}

-- What stands behind the last slash, or `found`.
unfoldable pub after_slash : Bytes → Bytes → Bytes
after_slash [] found = found
after_slash (c ∷ path) found = after_slash path (if c == b'/' then path else found)

unfoldable pub my_basename : Bytes → Bytes
unfolding after_slash
my_basename path = after_slash path path

-- The array has TmpOutputNameLen = 64 characters, so 63 and the null:
-- snprintf(tmp_outputs[i], sizeof tmp_outputs[i], "%i.%s", i, my_basename(inputs[i].name))
unfoldable pub tmp_output : ℕ → Bytes → Bytes
unfolding digits my_basename
tmp_output i name = take 63 (digits (suc i) i [] ++ b'.' ∷ my_basename name)

-- The number of characters in front of the last dot.
unfoldable pub last_dot : Bytes → Option ℕ
last_dot [] = none
last_dot (c ∷ s) = elim (last_dot s) [
  | some n ↦ some (suc n)
  | none ↦ if c == b'.' then some 0 else none
]

-- The object file of an input in the current directory; `none` is the failed assertion at an empty
-- name.
unfoldable pub with_o : Bytes → Option Bytes
unfolding last_dot
with_o [] = none
with_o (c ∷ rest) =
    let len_noext : ℕ = elim (last_dot rest) [ none ↦ suc (length rest) | some n ↦ suc n ] in
    some (take len_noext (c ∷ rest) ++ codes ".o")

unfoldable pub object_name : Bytes → Option Bytes
unfolding my_basename with_o
object_name name = with_o (my_basename name)
