-- ===== src/Typed/Terms.antt =====
-- include/doarr/expr.hpp: what a program can write with the wrappers, where it uses no explicit
-- conversion.
use mathlib.Core.Option
use doarr.Base.{ℕ, Bytes, Option, none, some, Bool, true, ◌&&◌}
use doarr.Base.Int.{ℤ}
use doarr.Expr.{Expr, Exprs}
use doarr.Expr.Ctors.{valid_qname}
use doarr.Typed.Types.{
  Ty, Tys, expr, num, dim, type, ptr, proto_struct, noarr_struct, fn, tmpl, var_fn, var_tmpl, Noarr,
  noarr_type,
}
use doarr.Typed.Wrappers
use doarr.Typed.Wrappers.{Wrapped}

-- A C++ expression of a wrapper's type. An argument is what the concept Expr<T> admits: an object of
-- T, for `expr` an object of any wrapper, and what T has a constructor for that is not explicit.
mutual
  pub data Term : Ty → Type 0 where
    noarr : (x : Noarr) → Term (noarr_type x)
    dyn : ℕ → Term num
    num_of : ℕ → Term num
    dim_of : ℤ → Term dim
    type_of : Bytes → Term type
    ptr_of : ℕ → Term ptr
    call_fn : {ret : Ty} {args : Tys} → Term (fn ret args) → Args args → Term ret
    call_var_fn : {ret arg : Ty} → Term (var_fn ret arg) → VarArgs arg → Term ret
    inst_tmpl : {ret : Ty} {args : Tys} → Term (tmpl ret args) → Args args → Term ret
    inst_var_tmpl : {ret arg : Ty} → Term (var_tmpl ret arg) → VarArgs arg → Term ret
    xor_proto : Term proto_struct → Term proto_struct → Term proto_struct
    xor_noarr : Term noarr_struct → Term proto_struct → Term proto_struct

  pub data Arg : Ty → Type 0 where
    same : {t : Ty} → Term t → Arg t
    base : {t : Ty} → Term t → Arg expr
    number : ℕ → Arg num
    character : ℤ → Arg dim
    name : Bytes → Arg type
    address : ℕ → Arg ptr

  pub data Args : Tys → Type 0 where
    nil : Args Tys.nil
    cons : {t : Ty} {ts : Tys} → Arg t → Args ts → Args (Tys.cons t ts)

  pub data VarArgs : Ty → Type 0 where
    no_more : {t : Ty} → VarArgs t
    more : {t : Ty} → Arg t → VarArgs t → VarArgs t

-- Both, or abort().
abbrev pub both {ℓ} : {A B C : Type ℓ} → (A → B → C) → Option A → Option B → Option C
both f none b = none
both f (some a) none = none
both f (some a) (some b) = some (f a b)

-- What the program makes.
module _ (infix_xor : ℕ) where
  unfoldable mutual
    unfolding Wrappers.num_of Wrappers.dim_of Wrappers.type_of Wrappers.ptr_of Wrappers.dyn
        Wrappers.call_fn Wrappers.call_var_fn Wrappers.inst_tmpl Wrappers.inst_var_tmpl
        Wrappers.xor_proto Wrappers.xor_noarr Wrappers.noarr

    pub build : {t : Ty} → Term t → Option (Wrapped t)
    build (noarr x) = Wrappers.noarr x
    build (dyn v) = some (Wrappers.dyn v)
    build (num_of v) = some (Wrappers.num_of v)
    build (dim_of c) = some (Wrappers.dim_of c)
    build (type_of qname) = Wrappers.type_of qname
    build (ptr_of value) = some (Wrappers.ptr_of value)
    build (call_fn f args) = both Wrappers.call_fn (build f) (build_args args)
    build (call_var_fn f args) = both Wrappers.call_var_fn (build f) (build_var_args args)
    build (inst_tmpl f args) = both Wrappers.inst_tmpl (build f) (build_args args)
    build (inst_var_tmpl f args) = both Wrappers.inst_var_tmpl (build f) (build_var_args args)
    build (xor_proto inner outer) = both (Wrappers.xor_proto infix_xor) (build inner) (build outer)
    build (xor_noarr inner outer) = both (Wrappers.xor_noarr infix_xor) (build inner) (build outer)

    -- as_expr
    pub as_expr : {t : Ty} → Arg t → Option Expr
    as_expr (same e) = Option.map (λ w. w.wrapped) (build e)
    as_expr (base e) = Option.map (λ w. w.wrapped) (build e)
    as_expr (number v) = some ((Wrappers.num_of v).wrapped)
    as_expr (character c) = some ((Wrappers.dim_of c).wrapped)
    as_expr (name qname) = Option.map (λ w. w.wrapped) (Wrappers.type_of qname)
    as_expr (address value) = some ((Wrappers.ptr_of value).wrapped)

    pub build_args : {ts : Tys} → Args ts → Option Exprs
    build_args nil = some Exprs.nil
    build_args (cons a args) = both Exprs.cons (as_expr a) (build_args args)

    pub build_var_args : {t : Ty} → VarArgs t → Option Exprs
    build_var_args no_more = some Exprs.nil
    build_var_args (more a args) = both Exprs.cons (as_expr a) (build_var_args args)

-- Every name that the program writes is a qualified name.
unfoldable mutual
  pub has_names : {t : Ty} → Term t → Bool
  has_names (type_of qname) = valid_qname qname
  has_names (call_fn f args) = has_names f && args_have_names args
  has_names (call_var_fn f args) = has_names f && var_args_have_names args
  has_names (inst_tmpl f args) = has_names f && args_have_names args
  has_names (inst_var_tmpl f args) = has_names f && var_args_have_names args
  has_names (xor_proto inner outer) = has_names inner && has_names outer
  has_names (xor_noarr inner outer) = has_names inner && has_names outer
  has_names _ = true

  pub arg_has_names : {t : Ty} → Arg t → Bool
  arg_has_names (same e) = has_names e
  arg_has_names (base e) = has_names e
  arg_has_names (name qname) = valid_qname qname
  arg_has_names _ = true

  pub args_have_names : {ts : Tys} → Args ts → Bool
  args_have_names nil = true
  args_have_names (cons a args) = arg_has_names a && args_have_names args

  pub var_args_have_names : {t : Ty} → VarArgs t → Bool
  var_args_have_names no_more = true
  var_args_have_names (more a args) = arg_has_names a && var_args_have_names args
