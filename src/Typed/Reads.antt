-- ===== src/Typed/Reads.antt =====
-- include/doarr/expr.hpp and runtime/expr_all.cpp: what a typed program makes is read in the compiled
-- function as it is meant.
use doarr.Base.{
  ℕ, ◌≡◌, ◌⊎◌, inl, inr, Bytes, Option, none, some, Bool, true, false, ◌&&◌, ◌||◌, [],
  if◌then◌else◌, arith, refl, sym, ap, append-nil, ◌∙◌,
}
use doarr.Expr.{AnyValue, i, f, p, Expr, Exprs, extract_params, write_to}
use doarr.Expr.Text.{spell_all, read_all, pieces, inlined, member, bits, IsTagged, AreTagged}
use doarr.Expr.Reads.{write_to-inlined}
use doarr.Typed.Types.{
  Ty, Tys, expr, num, ptr, proto_struct, noarr_struct, fn, tmpl, var_fn, var_tmpl,
}
use doarr.Typed.Wrappers.{Wrapped}
use doarr.Typed.Terms.{Term, build, has_names}
use doarr.Typed.Check.{
  fits, matches, applied, tag_type, infer, match_all, match_each, check, table, table-Declares,
}
use doarr.Typed.Sound.{Built, build-IsChecked}

tag_type-member :
    (tag : ℕ) (value : AnyValue) (u : Ty)
    → tag_type tag value ≡ some u
    → member tag value ≡ some (bits value)
tag_type-member tag (i v) u h = ground (arith, h)
tag_type-member tag (f v) u h = cc
tag_type-member tag (p v) u h = ground (arith, h)

-- Where an application has a type, its head has one, and its arguments are right.
applied-some :
    (o : Option Ty) (all : Tys → Bool) (each : Ty → Bool) (lbr rbr : ℕ) (u : Ty)
    → applied o all each lbr rbr ≡ some u
    → (t : Ty) × (o ≡ some t) × (((ts : Tys) × (all ts ≡ true)) ⊎ ((a : Ty) × (each a ≡ true)))
applied-some (some (fn ret args)) all each lbr rbr u h = (_, refl, inl (args, ground arith))
applied-some (some (tmpl ret args)) all each lbr rbr u h = (_, refl, inl (args, ground arith))
applied-some (some (var_fn ret arg)) all each lbr rbr u h = (_, refl, inr (arg, ground arith))
applied-some (some (var_tmpl ret arg)) all each lbr rbr u h = (_, refl, inr (arg, ground arith))
applied-some none all each lbr rbr u h = cc
applied-some (some expr) all each lbr rbr u h = cc
applied-some (some num) all each lbr rbr u h = cc
applied-some (some Ty.dim) all each lbr rbr u h = cc
applied-some (some proto_struct) all each lbr rbr u h = cc
applied-some (some noarr_struct) all each lbr rbr u h = cc
applied-some (some Ty.type) all each lbr rbr u h = cc
applied-some (some ptr) all each lbr rbr u h = cc

fits-some : (found : Option Ty) (t : Ty) → fits found t ≡ true → (u : Ty) × (found ≡ some u)
unfolding fits
fits-some none t h = cc
fits-some (some u) t h = (u, refl)

both_true : (a b : Bool) → (a && b) ≡ true → (a ≡ true) × (b ≡ true)
both_true true true h = (refl, refl)
both_true true false h = cc
both_true false b h = cc

either_true : (a b : Bool) → (a || b) ≡ true → (a ≡ true) ⊎ (b ≡ true)
either_true true b h = inl refl
either_true false b h = inr h

when_true : (b : Bool) (t u : Ty) → (if b then some t else none) ≡ some u → b ≡ true
when_true true t u h = refl
when_true false t u h = cc

-- An expression that stands where a type is wanted is a literal, or has a type.
matches-IsTagged :
    (found : Option Ty) (e : Expr) (t : Ty)
    → matches found e t ≡ true
    → ((u : Ty) → found ≡ some u → IsTagged e)
    → IsTagged e
unfolding matches IsTagged
matches-IsTagged found (Expr.raw code) t h k = tt
matches-IsTagged found (Expr.dyn tag value) t h k = let (u, x) = fits-some found t h in k u x
matches-IsTagged found (Expr.infix_op o left right) t h k =
    let (u, x) = fits-some found t h in k u x
matches-IsTagged found (Expr.call head args lbr rbr) t h k =
    let (u, x) = fits-some found t h in k u x

module _ (op : ℕ) where
  mutual
    unfolding infer matches match_all match_each IsTagged

    infer-IsTagged : (e : Expr) (u : Ty) → infer op table e ≡ some u → IsTagged e
    infer-IsTagged (Expr.dyn tag value) u h = tag_type-member tag value u h
    infer-IsTagged (Expr.raw code) u h = tt
    infer-IsTagged (Expr.infix_op o left right) u h =
        let (a, b) = both_true _ _ (when_true _ _ u h) in
        let (l, r) = both_true _ _ b in
        (
          elim (either_true _ _ l) [
            | inl x ↦ matches-IsTagged _ left proto_struct x (infer-IsTagged left)
            | inr x ↦ matches-IsTagged _ left noarr_struct x (infer-IsTagged left)
          ],
          matches-IsTagged _ right proto_struct r (infer-IsTagged right),
        )
    infer-IsTagged (Expr.call head args lbr rbr) u h =
        let (t, some_head, right) = applied-some _ _ _ lbr rbr u h in
        (
          infer-IsTagged head t some_head,
          elim right [
            | inl (ts, x) ↦ match_all-AreTagged args ts x
            | inr (a, x) ↦ match_each-AreTagged args a x
          ],
        )

    match_all-AreTagged : (es : Exprs) (ts : Tys) → match_all op table es ts ≡ true → AreTagged es
    match_all-AreTagged Exprs.nil ts h = tt
    match_all-AreTagged (Exprs.cons e es) Tys.nil h = cc
    match_all-AreTagged (Exprs.cons e es) (Tys.cons t ts) h =
        let (a, b) = both_true _ _ h in
        (matches-IsTagged _ e t a (infer-IsTagged e), match_all-AreTagged es ts b)

    match_each-AreTagged : (es : Exprs) (t : Ty) → match_each op table es t ≡ true → AreTagged es
    match_each-AreTagged Exprs.nil t h = tt
    match_each-AreTagged (Exprs.cons e es) t h =
        let (a, b) = both_true _ _ h in
        (matches-IsTagged _ e t a (infer-IsTagged e), match_each-AreTagged es t b)

  made-IsTagged :
      {t : Ty} (b : Bool) (x : Option (Wrapped t)) (w : Wrapped t)
      → Built (λ w. check op table w.wrapped t ≡ true) b x
      → x ≡ some w
      → check op table w.wrapped t ≡ true
  unfolding Built
  made-IsTagged b none w h e = cc
  made-IsTagged {t} b (some v) w (_, h) e = let same : v ≡ w = ground arith in rw (sym same) h

  -- Of what a program makes with the wrappers, the text that is written reads each dynamic value at
  -- its own index, through the member of its type, from the array that `extract_params` fills; and
  -- then it is the expression with the values in place.
  pub build-inlined :
      (op_text : ℕ → Bytes) {t : Ty} (e : Term t) (w : Wrapped t)
      → build op e ≡ some w
      → ((write_to op_text w.wrapped 0).0 ≡ spell_all (pieces op_text w.wrapped 0))
        × (read_all (extract_params w.wrapped) (pieces op_text w.wrapped 0)
            ≡ some (inlined op_text w.wrapped))
  unfolding check
  build-inlined op_text {t} e w made =
      let checked =
        made-IsTagged (has_names e) (build op e) w (build-IsChecked op table e table-Declares)
          made in
      let tagged = matches-IsTagged _ w.wrapped t checked (infer-IsTagged w.wrapped) in
      let (written, reads, _) = write_to-inlined op_text w.wrapped [] [] tagged in
      (
        written,
        ap (λ params. read_all params (pieces op_text w.wrapped 0))
              (sym (append-nil (extract_params w.wrapped)))
            ∙ reads,
      )
