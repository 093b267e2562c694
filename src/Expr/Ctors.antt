-- ===== src/Expr/Ctors.antt =====
-- runtime/expr_all.cpp: the functions that make expressions.
pub mod Numbers
pub mod QNames
use mathlib.Core.Option
use doarr.Base.{
  ℕ, zero, suc, ◌+◌, ◌-◌, ◌/◌, ◌%◌, ◌*◌, ◌^◌, Bytes, codes, Bool, true, false, not, ◌&&◌, ◌||◌,
  Option, none, some, List, [], ◌∷◌, ◌++◌, ◌==◌, leb, ltb, length, take, if◌then◌else◌,
}
use doarr.Base.Int.{ℤ, pos, negsuc, to_size_t}
use doarr.Expr.{AnyValue, i, f, p, Expr, Exprs, dyn, call, infix_op, raw}

-- The three overloads of `dyn_expr`, by the type of the value.
unfoldable pub dyn_expr : AnyValue → Expr
dyn_expr (i value) = dyn b'i' (i value)
dyn_expr (f value) = dyn b'f' (f value)
dyn_expr (p value) = dyn b'p' (p value)

unfoldable pub call_expr : Expr → Exprs → Expr
call_expr fn args = call fn args b'(' b')'

unfoldable pub inst_expr : Expr → Exprs → Expr
inst_expr tmpl args = call tmpl args b'<' b'>'

-- `op` is the address of the text of an operator.
unfoldable pub infix_expr : ℕ → Expr → Expr → Expr
infix_expr op left right = infix_op op left right

-- The loop of `int_expr`, with what stands at `p`; on fuel.
unfoldable pub int_loop : ℕ → ℕ → Bytes → Bytes
int_loop zero value str = str
int_loop (suc fuel) value str =
    let more = int_loop fuel (value / 10) ((b'0' + value % 10) ∷ str) in
    if value / 10 == 0 then (b'0' + value % 10) ∷ str else more

unfoldable pub int_text : ℕ → Bytes
unfolding int_loop
int_text value = int_loop (suc value) value []

unfoldable pub int_expr : ℕ → Expr
unfolding int_text
int_expr value = raw (int_text value)

-- A char is signed; where it is none of the easy ones, it is converted to size_t.
unfoldable pub char_expr : ℤ → Expr
unfolding int_expr
char_expr (pos c) =
    if leb 32 c && ltb c 127 && not (c == b'\'') && not (c == b'\\')
    then raw (b'\'' ∷ c ∷ b'\'' ∷ [])
    else int_expr c
char_expr (negsuc n) = int_expr (to_size_t (negsuc n))

unfoldable pub valid_ident_start : ℕ → Bool
valid_ident_start c = (leb b'A' c && leb c b'Z') || c == b'_' || (leb b'a' c && leb c b'z')

unfoldable pub valid_ident_cont : ℕ → Bool
unfolding valid_ident_start
valid_ident_cont c = valid_ident_start c || (leb b'0' c && leb c b'9')

-- The loop of `valid_qname_end`, on the characters in front of the null. `in_ident` is set in the
-- loop over the rest of an identifier. True where the end is reached.
unfoldable pub qname_loop : Bool → Bytes → Bool
qname_loop in_ident [] = in_ident
qname_loop true (c ∷ []) = valid_ident_cont c
qname_loop true (c ∷ d ∷ s) =
    let rest = qname_loop true (d ∷ s) in
    let next = qname_loop false s in
    if valid_ident_cont c then rest else (c == b':' && d == b':' && next)
qname_loop false (c ∷ s) = valid_ident_start c && qname_loop true s

unfoldable pub valid_qname : Bytes → Bool
unfolding qname_loop valid_ident_cont
valid_qname [] = false
valid_qname (c ∷ []) = qname_loop false (c ∷ [])
valid_qname (c ∷ d ∷ s) =
    if c == b':' then (d == b':' && qname_loop false s) else qname_loop false (c ∷ d ∷ s)

-- `none` is abort().
unfoldable pub qname_expr : Bytes → Option Expr
unfolding valid_qname
qname_expr name = if valid_qname name then some (raw name) else none
