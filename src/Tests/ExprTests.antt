-- ===== src/Tests/ExprTests.antt =====
-- runtime/expr_all.cpp and include/doarr/expr_base.hpp at concrete inputs.
use mathlib.Core.Option
use doarr.Base.{
  ℕ, ◌≡◌, ◌==◌, if◌then◌else◌, ◌↔◌, Bytes, codes, bytes_eq, bytes_eq_sound, Bool, true, false, none,
  some, [], ◌∷◌, ◌++◌, length, refl, ap, arith, List,
}
use doarr.Base.Int.{pos, negsuc}
use doarr.Base.{◌≤◌, ◌+◌, ◌*◌}
use doarr.Base.Decimal.{digits, decimal, read_number}
use doarr.Expr.Ctors.Numbers.{int_text-decimal}
use doarr.Expr.{
  i, f, p, Expr, raw, nil, cons, Classes, mix, hash_bytes, hash, extract_params, write_to,
}
use doarr.Expr.Text.{spell_all, pieces, inlined, read_all, IsTagged}
use doarr.Expr.Reads.{write_to-inlined}
use doarr.Expr.Equal.{are_equal, expr_eq, all_equal, skeleton, skeleton_all, expr_eq-skeleton}
use doarr.Expr.Refs.{Heap, copy_assign}
use doarr.Expr.Refs.Counted.{IsCounted}
use doarr.Expr.Refs.Assign.{Assigns, assign-IsCounted}
use doarr.Expr.Ctors.{
  dyn_expr, call_expr, infix_expr, int_expr, int_text, char_expr, qname_expr, valid_qname,
}
use doarr.Expr.Ctors.QNames.{IsQName, qname_expr-IsQName}

abbrev pub op_text : ℕ → Bytes
op_text op = if op == 3 then codes "+" else codes "*"

-- f(2 * 7, (x + 9)) where 7 and 9 are dynamic values.
abbrev sum : ℕ → ℕ → Expr
unfolding dyn_expr call_expr infix_expr
sum a b = call_expr (raw (codes "f")) (
    cons (infix_expr 4 (raw (codes "2")) (dyn_expr (i a)))
      (cons (infix_expr 3 (raw (codes "x")) (dyn_expr (p b))) nil))

written :
    write_to op_text (sum 7 9) 1 ≡ (codes "f((2*DOARR_EXPORT[1].i), (x+DOARR_EXPORT[2].p))", 3)
unfolding sum write_to digits
written = refl

sum-IsTagged : IsTagged (sum 7 9)
unfolding sum IsTagged
sum-IsTagged = (tt, ((tt, refl), ((tt, refl), tt)))

write_to-inlined_example :
    ((write_to op_text (sum 7 9) 1).0 ≡ spell_all (pieces op_text (sum 7 9) 1))
    × (read_all (f 5 ∷ extract_params (sum 7 9) ++ []) (pieces op_text (sum 7 9) 1)
        ≡ some (inlined op_text (sum 7 9)))
    × ((write_to op_text (sum 7 9) 1).1 ≡ length (f 5 ∷ extract_params (sum 7 9)))
write_to-inlined_example = write_to-inlined op_text (sum 7 9) (f 5 ∷ []) [] sum-IsTagged

abbrev pub classes : Classes
classes = record { dyn_cls = 4096; call_cls = 4128; infix_cls = 4160; raw_cls = 4192 }

-- The objects of two raw expressions are the same where their texts are.
abbrev pub same : Expr → Expr → Bool
same (raw s) (raw t) = bytes_eq s t
same _ _ = false

pub same_sound : (a b : Expr) → same a b ≡ true → a ≡ b
same_sound (raw s) (raw t) h = ap raw (bytes_eq_sound s t h)
same_sound _ _ h = cc

same_but_values : expr_eq classes same (sum 7 9) (sum 8 10) ≡ true
unfolding sum expr_eq are_equal mix hash_bytes hash bytes_eq
same_but_values = refl

expr_eq-skeleton_example :
    ((expr_eq classes same (sum 7 9) (sum 8 10) ≡ true)
      ↔ (skeleton (sum 7 9) ≡ skeleton (sum 8 10)))
    × ((all_equal classes same (cons (sum 7 9) nil) (cons (raw []) nil) ≡ true)
        ↔ (skeleton_all (cons (sum 7 9) nil) ≡ skeleton_all (cons (raw []) nil)))
expr_eq-skeleton_example =
    expr_eq-skeleton classes same same_sound (sum 7 9) (sum 8 10) (cons (sum 7 9) nil)
      (cons (raw []) nil)

one_char : char_expr (pos b'a') ≡ raw (codes "'a'")
unfolding char_expr
one_char = refl

-- A character that is no ASCII character becomes a size_t near the end of its range.
negative_char : char_expr (negsuc 0) ≡ raw (codes "18446744073709551615")
unfolding char_expr int_expr int_text
negative_char = refl

not_a_name : qname_expr (codes "a::1") ≡ none
unfolding qname_expr valid_qname
not_a_name = refl

qname_expr-IsQName_example :
    (qname_expr (codes "::std::less") ≡ some (raw (codes "::std::less")))
    ↔ IsQName (codes "::std::less")
qname_expr-IsQName_example = qname_expr-IsQName (codes "::std::less")

-- The object 2 holds a handle to the object 1.
abbrev members : ℕ → List ℕ
members o = if o == 2 then 1 ∷ [] else []

abbrev heap : Heap
heap = record { refcount = λ x. if x == 1 then 2 else if x == 2 then 1 else 0; live = 1 ∷ 2 ∷ [] }

heap-IsCounted : IsCounted members (2 ∷ 1 ∷ []) heap
heap-IsCounted = record { counted = λ x. ground arith; alive = λ x. ground arith }

-- The handle to 2 is overwritten, so 2 is deleted, and 1 loses a handle and gets one.
overwrites :
    Option.map (λ (v, h). h.live) (copy_assign members 3 (some 2) (some 1) heap) ≡ some (1 ∷ [])
unfolding copy_assign
overwrites = refl

assign-IsCounted_example : Assigns members 3 (some 2) (some 1) [] heap
assign-IsCounted_example =
    assign-IsCounted members 3 (some 2) (some 1) [] heap heap-IsCounted (omega arith)

int_text-decimal_example :
    (int_text 1207 ≡ decimal 1207)
    × (read_number 0 (int_text 1207) ≡ 1207)
    × (length (int_text 1207) + 1 ≤ 3 * 8 + 1)
int_text-decimal_example = int_text-decimal 1207 (omega arith)
