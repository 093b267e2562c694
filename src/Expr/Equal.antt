-- ===== src/Expr/Equal.antt =====
-- runtime/expr_all.cpp: two expressions are equal if they are the same but for their dynamic values.
use doarr.Base.{
  ℕ, ◌≡◌, ◌==◌, Bool, true, false, ◌&&◌, ◌||◌, ◌↔◌, bytes_eq, bytes_eq_sound, bytes_eq_refl, arith,
  refl, ap, sym, ◌∙◌, ==_iff, Bool-cases, inl, inr,
}
use doarr.Expr.{i, Expr, Exprs, dyn, call, infix_op, raw, nil, cons, Classes, hash, hash_all}

module _ (cls : Classes) (same : Expr → Expr → Bool) where
  -- operator == of expr around a call of are_equal: the same object; or equal hashes and what
  -- are_equal finds, which also compares the classes.
  abbrev pub guarded : Expr → Expr → Bool → Bool
  guarded a b equal = same a b || (hash cls a == hash cls b && equal)

  unfoldable mutual
    pub are_equal : Expr → Expr → Bool
    are_equal (dyn tag v) (dyn tag' v') = tag == tag'
    are_equal (call fn args lbr rbr) (call fn' args' lbr' rbr') =
        guarded fn fn' (are_equal fn fn') && all_equal args args' && lbr == lbr' && rbr == rbr'
    are_equal (infix_op op left right) (infix_op op' left' right') =
        op == op'
        && guarded left left' (are_equal left left')
        && guarded right right' (are_equal right right')
    are_equal (raw code) (raw code') = bytes_eq code code'
    are_equal _ _ = false

    -- std::ranges::equal
    pub all_equal : Exprs → Exprs → Bool
    all_equal nil nil = true
    all_equal (cons a as') (cons b bs) = guarded a b (are_equal a b) && all_equal as' bs
    all_equal _ _ = false

  unfoldable pub expr_eq : Expr → Expr → Bool
  unfolding are_equal
  expr_eq a b = guarded a b (are_equal a b)

-- The expression with its dynamic values left out.
unfoldable mutual
  pub skeleton : Expr → Expr
  skeleton (dyn tag v) = dyn tag (i 0)
  skeleton (call fn args lbr rbr) = call (skeleton fn) (skeleton_all args) lbr rbr
  skeleton (infix_op op left right) = infix_op op (skeleton left) (skeleton right)
  skeleton (raw code) = raw code

  pub skeleton_all : Exprs → Exprs
  skeleton_all nil = nil
  skeleton_all (cons e es) = cons (skeleton e) (skeleton_all es)

and_true : (a b : Bool) → (a && b) ≡ true → (a ≡ true) × (b ≡ true)
and_true true b h = (refl, h)
and_true false b h = absurd (cc)

module _ (cls : Classes) where
  mutual
    unfolding skeleton hash

    hashed : (e : Expr) → hash cls (skeleton e) ≡ hash cls e
    hashed (dyn tag v) = refl
    hashed (call fn args lbr rbr) = rw (hashed fn, hashed_all 1 args) refl
    hashed (infix_op op left right) = rw (hashed left, hashed right) refl
    hashed (raw code) = refl

    hashed_all : (r : ℕ) (es : Exprs) → hash_all cls r (skeleton_all es) ≡ hash_all cls r es
    hashed_all r nil = refl
    hashed_all r (cons e es) = rw (hashed e) (hashed_all _ es)

  pub hash-skeleton : (a b : Expr) → skeleton a ≡ skeleton b → hash cls a ≡ hash cls b
  hash-skeleton a b h = sym (hashed a) ∙ ap (hash cls) h ∙ hashed b

  pub hash_all-skeleton_all :
      (as' bs : Exprs) → skeleton_all as' ≡ skeleton_all bs → hash_all cls 1 as' ≡ hash_all cls 1 bs
  hash_all-skeleton_all as' bs h = sym (hashed_all 1 as') ∙ ap (hash_all cls 1) h ∙ hashed_all 1 bs

  -- One object has one value.
  module _ (same : Expr → Expr → Bool) (sound : (a b : Expr) → same a b ≡ true → a ≡ b) where
    guarded-skeleton :
        (a b : Expr) (equal : Bool)
        → (equal ≡ true → skeleton a ≡ skeleton b)
        → guarded cls same a b equal ≡ true
        → skeleton a ≡ skeleton b
    guarded-skeleton a b equal h g = elim (Bool-cases (same a b)) [
      | inl s ↦ ap skeleton (sound a b s)
      | inr s ↦ h (ground arith)
    ]

    guarded-true :
        (a b : Expr) (equal : Bool)
        → skeleton a ≡ skeleton b
        → equal ≡ true
        → guarded cls same a b equal ≡ true
    guarded-true a b equal h e = ground (arith, hash-skeleton a b h)

    mutual
      unfolding are_equal skeleton

      to_skeleton : (a b : Expr) → are_equal cls same a b ≡ true → skeleton a ≡ skeleton b
      to_skeleton (dyn tag v) (dyn tag' v') h = ground arith
      to_skeleton (call fn args lbr rbr) (call fn' args' lbr' rbr') h =
          let g = and_true _ (rbr == rbr') h in
          let b = and_true _ (lbr == lbr') g.0 in
          let a =
            and_true (guarded cls same fn fn' (are_equal cls same fn fn'))
              (all_equal cls same args args') b.0 in
          let ef = guarded-skeleton fn fn' (are_equal cls same fn fn') (to_skeleton fn fn') a.0 in
          let ea = to_skeletons args args' a.1 in
          let el : lbr ≡ lbr' = (==_iff lbr lbr').0 b.1 in
          let er : rbr ≡ rbr' = (==_iff rbr rbr').0 g.1 in cc
      to_skeleton (infix_op op left right) (infix_op op' left' right') h =
          let g = and_true _ (guarded cls same right right' (are_equal cls same right right')) h in
          let o =
            and_true (op == op') (guarded cls same left left' (are_equal cls same left left'))
              g.0 in
          let el =
            guarded-skeleton left left' (are_equal cls same left left') (to_skeleton left left')
              o.1 in
          let er =
            guarded-skeleton right right' (are_equal cls same right right')
              (to_skeleton right right') g.1 in
          let eo : op ≡ op' = (==_iff op op').0 o.0 in cc
      to_skeleton (raw code) (raw code') h = ap raw (bytes_eq_sound code code' h)
      to_skeleton _ _ h = cc

      to_skeletons :
          (as' bs : Exprs) → all_equal cls same as' bs ≡ true → skeleton_all as' ≡ skeleton_all bs
      to_skeletons nil nil h = refl
      to_skeletons (cons a as') (cons b bs) h =
          let g =
            and_true (guarded cls same a b (are_equal cls same a b)) (all_equal cls same as' bs)
              h in
          let ea = guarded-skeleton a b (are_equal cls same a b) (to_skeleton a b) g.0 in
          let es = to_skeletons as' bs g.1 in cc
      to_skeletons _ _ h = cc

    mutual
      unfolding are_equal skeleton

      from_skeleton : (a b : Expr) → skeleton a ≡ skeleton b → are_equal cls same a b ≡ true
      from_skeleton (dyn tag v) (dyn tag' v') h = ground arith
      from_skeleton (call fn args lbr rbr) (call fn' args' lbr' rbr') h =
          let hf : skeleton fn ≡ skeleton fn' = cc in
          let ha : skeleton_all args ≡ skeleton_all args' = cc in
          let gf = guarded-true fn fn' (are_equal cls same fn fn') hf (from_skeleton fn fn' hf) in
          let ga = from_skeletons args args' ha in rw (gf, ga) (ground arith)
      from_skeleton (infix_op op left right) (infix_op op' left' right') h =
          let hl : skeleton left ≡ skeleton left' = cc in
          let hr : skeleton right ≡ skeleton right' = cc in
          let gl =
            guarded-true left left' (are_equal cls same left left') hl
              (from_skeleton left left' hl) in
          let gr =
            guarded-true right right' (are_equal cls same right right') hr
              (from_skeleton right right' hr) in
          rw (gl, gr) (ground arith)
      from_skeleton (raw code) (raw code') h =
          let e : code ≡ code' = cc in rw e (bytes_eq_refl code')
      from_skeleton _ _ h = cc

      from_skeletons :
          (as' bs : Exprs) → skeleton_all as' ≡ skeleton_all bs → all_equal cls same as' bs ≡ true
      from_skeletons nil nil h = refl
      from_skeletons (cons a as') (cons b bs) h =
          let ha : skeleton a ≡ skeleton b = cc in
          let hs : skeleton_all as' ≡ skeleton_all bs = cc in
          let ga = guarded-true a b (are_equal cls same a b) ha (from_skeleton a b ha) in
          let gs = from_skeletons as' bs hs in rw (ga, gs) refl
      from_skeletons _ _ h = cc

    pub all_equal-skeleton_all :
        (as' bs : Exprs) → (all_equal cls same as' bs ≡ true) ↔ (skeleton_all as' ≡ skeleton_all bs)
    all_equal-skeleton_all as' bs = (to_skeletons as' bs, from_skeletons as' bs)

    -- Two expressions are found equal exactly when they differ in nothing but their dynamic values,
    -- and the comparison of their hashes refuses none of these; so for two lists of expressions, by
    -- the equality of exprs.
    pub expr_eq-skeleton :
        (a b : Expr) (as' bs : Exprs)
        → ((expr_eq cls same a b ≡ true) ↔ (skeleton a ≡ skeleton b))
          × ((all_equal cls same as' bs ≡ true) ↔ (skeleton_all as' ≡ skeleton_all bs))
    unfolding expr_eq
    expr_eq-skeleton a b as' bs = (
      (
        guarded-skeleton a b (are_equal cls same a b) (to_skeleton a b),
        λ h. guarded-true a b (are_equal cls same a b) h (from_skeleton a b h),
      ),
      all_equal-skeleton_all as' bs,
    )
