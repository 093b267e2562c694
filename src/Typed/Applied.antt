-- ===== src/Typed/Applied.antt =====
-- include/doarr/expr.hpp: what an operator of a wrapper makes, as the checker sees it.
use doarr.Base.{ℕ, Bytes, Option, ==_refl, ◌≡◌, inl, inr, some, true, refl}
use doarr.Expr.{Expr, Exprs}
use doarr.Expr.Ctors.{call_expr, inst_expr, infix_expr}
use doarr.Typed.Types.{Ty, Tys, proto_struct, noarr_struct, fn, tmpl, var_fn, var_tmpl}
use doarr.Typed.Check.{matches, is_literal, infer, match_all, match_each}
use doarr.Typed.Literals.{IsTyped, IsTyped-matches, or_true}

module _ (op : ℕ) (declared : Bytes → Option Ty) where
  -- Nothing that can be applied is a literal.
  pub fn-infer :
      (r : Ty) (a : Tys) (e : Expr)
      → IsTyped op declared (fn r a) e
      → infer op declared e ≡ some (fn r a)
  unfolding is_literal
  fn-infer r a e (inl h) = h
  fn-infer r a e (inr (code, same_raw, h)) = cc

  pub tmpl-infer :
      (r : Ty) (a : Tys) (e : Expr)
      → IsTyped op declared (tmpl r a) e
      → infer op declared e ≡ some (tmpl r a)
  unfolding is_literal
  tmpl-infer r a e (inl h) = h
  tmpl-infer r a e (inr (code, same_raw, h)) = cc

  pub var_fn-infer :
      (r a : Ty) (e : Expr)
      → IsTyped op declared (var_fn r a) e
      → infer op declared e ≡ some (var_fn r a)
  unfolding is_literal
  var_fn-infer r a e (inl h) = h
  var_fn-infer r a e (inr (code, same_raw, h)) = cc

  pub var_tmpl-infer :
      (r a : Ty) (e : Expr)
      → IsTyped op declared (var_tmpl r a) e
      → infer op declared e ≡ some (var_tmpl r a)
  unfolding is_literal
  var_tmpl-infer r a e (inl h) = h
  var_tmpl-infer r a e (inr (code, same_raw, h)) = cc

  pub call-IsTyped :
      (r : Ty) (a : Tys) (e : Expr) (es : Exprs)
      → IsTyped op declared (fn r a) e
      → match_all op declared es a ≡ true
      → IsTyped op declared r (call_expr e es)
  unfolding call_expr infer
  call-IsTyped r a e es h k = inl (rw (fn-infer r a e h, k) refl)

  pub call_var-IsTyped :
      (r a : Ty) (e : Expr) (es : Exprs)
      → IsTyped op declared (var_fn r a) e
      → match_each op declared es a ≡ true
      → IsTyped op declared r (call_expr e es)
  unfolding call_expr infer
  call_var-IsTyped r a e es h k = inl (rw (var_fn-infer r a e h, k) refl)

  pub inst-IsTyped :
      (r : Ty) (a : Tys) (e : Expr) (es : Exprs)
      → IsTyped op declared (tmpl r a) e
      → match_all op declared es a ≡ true
      → IsTyped op declared r (inst_expr e es)
  unfolding inst_expr infer
  inst-IsTyped r a e es h k = inl (rw (tmpl-infer r a e h, k) refl)

  pub inst_var-IsTyped :
      (r a : Ty) (e : Expr) (es : Exprs)
      → IsTyped op declared (var_tmpl r a) e
      → match_each op declared es a ≡ true
      → IsTyped op declared r (inst_expr e es)
  unfolding inst_expr infer
  inst_var-IsTyped r a e es h k = inl (rw (var_tmpl-infer r a e h, k) refl)

  pub xor_proto-IsTyped :
      (e e' : Expr)
      → IsTyped op declared proto_struct e
      → IsTyped op declared proto_struct e'
      → IsTyped op declared proto_struct (infix_expr op e e')
  unfolding infix_expr infer
  xor_proto-IsTyped e e' h k =
      let left = IsTyped-matches op declared proto_struct e h in
      let right = IsTyped-matches op declared proto_struct e' k in
      inl (rw (left, right, ==_refl op) refl)

  pub xor_noarr-IsTyped :
      (e e' : Expr)
      → IsTyped op declared noarr_struct e
      → IsTyped op declared proto_struct e'
      → IsTyped op declared proto_struct (infix_expr op e e')
  unfolding infix_expr infer
  xor_noarr-IsTyped e e' h k =
      let left = IsTyped-matches op declared noarr_struct e h in
      let right = IsTyped-matches op declared proto_struct e' k in
      inl (rw (left, right, ==_refl op, or_true _) refl)

  pub match_all-cons :
      (e : Expr) (es : Exprs) (t : Ty) (ts : Tys)
      → matches (infer op declared e) e t ≡ true
      → match_all op declared es ts ≡ true
      → match_all op declared (Exprs.cons e es) (Tys.cons t ts) ≡ true
  unfolding match_all
  match_all-cons e es t ts h k = rw h k

  pub match_each-cons :
      (e : Expr) (es : Exprs) (t : Ty)
      → matches (infer op declared e) e t ≡ true
      → match_each op declared es t ≡ true
      → match_each op declared (Exprs.cons e es) t ≡ true
  unfolding match_each
  match_each-cons e es t h k = rw h k

  pub match_all-nil : match_all op declared Exprs.nil Tys.nil ≡ true
  unfolding match_all
  match_all-nil = refl

  pub match_each-nil : (t : Ty) → match_each op declared Exprs.nil t ≡ true
  unfolding match_each
  match_each-nil t = refl
