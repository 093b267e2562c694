-- ===== src/Typed/Wrappers.antt =====
-- include/doarr/expr.hpp: the wrappers. A value of a wrapper is an expression, marked by its type.
-- A const and an rvalue overload of one operator copy and move, and so have one value.
use mathlib.Core.Option
use doarr.Base.{ℕ, Bytes, Option}
use doarr.Base.Int.{ℤ}
use doarr.Expr.{Expr, Exprs, i, p}
use doarr.Expr.Ctors.{dyn_expr, call_expr, inst_expr, infix_expr, int_expr, char_expr, qname_expr}
use doarr.Typed.Types.{
  Ty, Tys, num, dim, type, ptr, proto_struct, noarr_struct, fn, tmpl, var_fn, var_tmpl, Noarr,
  noarr_type, noarr_name,
}

-- An object of a struct that derives from `expr`, or of `expr` itself.
pub record Wrapped (t : Ty) : Type 0 where
  pub wrapped : Expr

-- The explicit constructor from any expression, and the conversion to the base class.
abbrev pub wrap : {t : Ty} → Expr → Wrapped t
wrap e = record { wrapped = e }

-- The constructors from a size_t, a char, a string and an address; `none` is abort(). Then `dyn`.
unfoldable pub num_of : ℕ → Wrapped num
num_of v = wrap (int_expr v)

unfoldable pub dim_of : ℤ → Wrapped dim
dim_of c = wrap (char_expr c)

unfoldable pub type_of : Bytes → Option (Wrapped type)
type_of qname = Option.map wrap (qname_expr qname)

unfoldable pub ptr_of : ℕ → Wrapped ptr
ptr_of value = wrap (dyn_expr (p value))

unfoldable pub dyn : ℕ → Wrapped num
dyn value = wrap (dyn_expr (i value))

-- The four operators. The arguments have been converted by `as_expr`.
unfoldable pub call_fn : {ret : Ty} {args : Tys} → Wrapped (fn ret args) → Exprs → Wrapped ret
call_fn f args = wrap (call_expr f.wrapped args)

unfoldable pub call_var_fn : {ret arg : Ty} → Wrapped (var_fn ret arg) → Exprs → Wrapped ret
call_var_fn f args = wrap (call_expr f.wrapped args)

unfoldable pub inst_tmpl : {ret : Ty} {args : Tys} → Wrapped (tmpl ret args) → Exprs → Wrapped ret
inst_tmpl f args = wrap (inst_expr f.wrapped args)

unfoldable pub inst_var_tmpl : {ret arg : Ty} → Wrapped (var_tmpl ret arg) → Exprs → Wrapped ret
inst_var_tmpl f args = wrap (inst_expr f.wrapped args)

-- operator^, with the address of infix_xor
module _ (infix_xor : ℕ) where
  unfoldable pub xor_proto : Wrapped proto_struct → Wrapped proto_struct → Wrapped proto_struct
  xor_proto inner outer = wrap (infix_expr infix_xor inner.wrapped outer.wrapped)

  unfoldable pub xor_noarr : Wrapped noarr_struct → Wrapped proto_struct → Wrapped proto_struct
  xor_noarr inner outer = wrap (infix_expr infix_xor inner.wrapped outer.wrapped)

-- A member of the object `noarr`.
unfoldable pub noarr : (x : Noarr) → Option (Wrapped (noarr_type x))
noarr x = Option.map wrap (qname_expr (noarr_name x))
