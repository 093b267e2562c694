-- ===== src/Expr/Params.antt =====
-- runtime/expr_all.cpp: the number of dynamic values, and the indices at which they are read.
use doarr.Base.{ℕ, ◌+◌, ◌≡◌, Bytes, Bool, true, false, length, arith, refl, length-append}
use doarr.Expr.{
  Expr, Exprs, dyn, call, infix_op, raw, nil, cons, num_params, num_params_all, extract_params,
  extract_params_all, write_to, write_all,
}

mutual
  unfolding num_params extract_params

  count : (e : Expr) → length (extract_params e) ≡ num_params e
  count (dyn tag value) = refl
  count (call fn args lbr rbr) =
      omega (
        arith,
        length-append (extract_params fn) (extract_params_all args),
        count fn,
        count_all args,
      )
  count (infix_op op left right) =
      omega
        (arith, length-append (extract_params left) (extract_params right), count left, count right)
  count (raw code) = refl

  count_all : (es : Exprs) → length (extract_params_all es) ≡ num_params_all es
  count_all nil = refl
  count_all (cons e es) =
      omega (arith, length-append (extract_params e) (extract_params_all es), count e, count_all es)

pub length-extract_params : (e : Expr) → length (extract_params e) ≡ num_params e
length-extract_params e = count e

pub length-extract_params_all : (es : Exprs) → length (extract_params_all es) ≡ num_params_all es
length-extract_params_all es = count_all es

module _ (op_text : ℕ → Bytes) where
  mutual
    unfolding num_params write_to

    index : (e : Expr) (k : ℕ) → (write_to op_text e k).1 ≡ k + num_params e
    index (dyn tag value) k = refl
    index (call fn args lbr rbr) k =
        omega (arith, index fn k, index_all false args (write_to op_text fn k).1)
    index (infix_op op left right) k =
        omega (arith, index left k, index right (write_to op_text left k).1)
    index (raw code) k = omega arith

    index_all :
        (sep : Bool) (es : Exprs) (k : ℕ) → (write_all op_text sep es k).1 ≡ k + num_params_all es
    index_all sep nil k = omega arith
    index_all sep (cons e es) k =
        omega (arith, index e k, index_all true es (write_to op_text e k).1)

  pub write_to-index : (e : Expr) (k : ℕ) → (write_to op_text e k).1 ≡ k + num_params e
  write_to-index e k = index e k
