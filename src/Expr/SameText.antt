-- ===== src/Expr/SameText.antt =====
-- runtime/expr_all.cpp: equal expressions have the same text and as many dynamic values.
use doarr.Base.{ℕ, ◌≡◌, Bytes, Bool, true, false, refl, ap, sym, ◌∙◌}
use doarr.Expr.{
  Expr, Exprs, dyn, call, infix_op, raw, nil, cons, num_params, num_params_all, write_to, write_all,
}
use doarr.Expr.Equal.{skeleton, skeleton_all}

mutual
  unfolding skeleton num_params

  counted : (e : Expr) → num_params (skeleton e) ≡ num_params e
  counted (dyn tag v) = refl
  counted (call fn args lbr rbr) = rw (counted fn, counted_all args) refl
  counted (infix_op op left right) = rw (counted left, counted right) refl
  counted (raw code) = refl

  counted_all : (es : Exprs) → num_params_all (skeleton_all es) ≡ num_params_all es
  counted_all nil = refl
  counted_all (cons e es) = rw (counted e, counted_all es) refl

pub num_params_all-skeleton_all :
    (as' bs : Exprs) → skeleton_all as' ≡ skeleton_all bs → num_params_all as' ≡ num_params_all bs
num_params_all-skeleton_all as' bs h = sym (counted_all as') ∙ ap num_params_all h ∙ counted_all bs

module _ (op_text : ℕ → Bytes) where
  mutual
    unfolding skeleton write_to

    written : (e : Expr) (k : ℕ) → write_to op_text (skeleton e) k ≡ write_to op_text e k
    written (dyn tag v) k = refl
    written (call fn args lbr rbr) k =
        rw (written fn k, written_all false args (write_to op_text fn k).1) refl
    written (infix_op op left right) k =
        rw (written left k, written right (write_to op_text left k).1) refl
    written (raw code) k = refl

    written_all :
        (sep : Bool) (es : Exprs) (k : ℕ)
        → write_all op_text sep (skeleton_all es) k ≡ write_all op_text sep es k
    written_all sep nil k = refl
    written_all sep (cons e es) k =
        rw (written e k, written_all true es (write_to op_text e k).1) refl

  pub write_all-skeleton_all :
      (as' bs : Exprs) (k : ℕ)
      → skeleton_all as' ≡ skeleton_all bs
      → write_all op_text false as' k ≡ write_all op_text false bs k
  write_all-skeleton_all as' bs k h =
      sym (written_all false as' k)
      ∙ ap (λ es. write_all op_text false es k) h
      ∙ written_all false bs k
