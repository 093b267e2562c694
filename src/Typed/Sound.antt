-- ===== src/Typed/Sound.antt =====
-- include/doarr/expr.hpp: the checker admits what the wrappers build.
use mathlib.Core.Option
use doarr.Base.{
  ℕ, ◌≡◌, inl, inr, Bytes, Option, none, some, Bool, true, false, ◌&&◌, refl, Bool-cases,
}
use doarr.Expr.{Expr}
use doarr.Expr.Ctors.{dyn_expr, qname_expr, valid_qname}
use doarr.Typed.Types.{
  Ty, Tys, num, dim, type, ptr, Noarr, lit, scalar, vector, sized_vector, bcast, hoist, set_length,
  into_blocks, make_bag, noarr_type,
}
use doarr.Typed.Wrappers
use doarr.Typed.Wrappers.{Wrapped}
use doarr.Typed.Terms.{
  Term, Arg, Args, VarArgs, dyn, num_of, dim_of, type_of, ptr_of, call_fn, call_var_fn, inst_tmpl,
  inst_var_tmpl, xor_proto, xor_noarr, same, base, number, character, name, address, nil, cons,
  no_more, more, both, build, as_expr, build_args, build_var_args, has_names, arg_has_names,
  args_have_names, var_args_have_names,
}
use doarr.Typed.Check.{matches, is_literal, infer, match_all, match_each, check, Declares}
use doarr.Typed.Literals.{
  IsTyped, IsTyped-matches, IsTyped-expr, num-IsTyped, dim-IsTyped, ptr-IsTyped,
}
use doarr.Typed.Applied.{
  call-IsTyped, call_var-IsTyped, inst-IsTyped, inst_var-IsTyped, xor_proto-IsTyped,
  xor_noarr-IsTyped, match_all-cons, match_each-cons, match_all-nil, match_each-nil,
}

-- What is built, exactly where a condition on the names holds.
unfoldable pub Built {ℓ} : {A : Type ℓ} → (A → Type 0) → Bool → Option A → Type 0
Built P b none = b ≡ false
Built P b (some a) = (b ≡ true) × P a

is_Built {ℓ} : {A : Type ℓ} (P : A → Type 0) (a : A) → P a → Built P true (some a)
unfolding Built
is_Built P a h = (refl, h)

weaker {ℓ} :
    {A : Type ℓ} (P Q : A → Type 0) (b : Bool) (x : Option A)
    → ((u : A) → P u → Q u)
    → Built P b x
    → Built Q b x
unfolding Built
weaker P Q b none step h = h
weaker P Q b (some u) step (e, h) = (e, step u h)

both-Built {ℓ} :
    {A B C : Type ℓ} (P : A → Type 0) (Q : B → Type 0) (R : C → Type 0) (b c : Bool) (g : A → B → C)
    (x : Option A) (y : Option B)
    → Built P b x
    → Built Q c y
    → ((u : A) (v : B) → P u → Q v → R (g u v))
    → Built R (b && c) (both g x y)
unfolding Built
both-Built P Q R b c g none y h k step = rw h refl
both-Built P Q R b c g (some u) none (e, h) k step = rw (e, k) refl
both-Built P Q R b c g (some u) (some v) (e, h) (d, k) step = (rw (e, d) refl, step u v h k)

map-Built {ℓ} :
    {A B : Type ℓ} (P : A → Type 0) (Q : B → Type 0) (b : Bool) (g : A → B) (x : Option A)
    → Built P b x
    → ((u : A) → P u → Q (g u))
    → Built Q b (Option.map g x)
unfolding Built
map-Built P Q b g none h step = h
map-Built P Q b g (some u) (e, h) step = (e, step u h)

-- The names of noarr are qualified names that the checker knows.
noarr-Built :
    (op : ℕ) (declared : Bytes → Option Ty) (known : Declares declared) (x : Noarr)
    → Built (λ w. IsTyped op declared (noarr_type x) w.wrapped) true (Wrappers.noarr x)
unfolding Built Wrappers.noarr qname_expr infer
noarr-Built op declared known lit = (refl, inl known.declares_lit)
noarr-Built op declared known scalar = (refl, inl known.declares_scalar)
noarr-Built op declared known vector = (refl, inl known.declares_vector)
noarr-Built op declared known sized_vector = (refl, inl known.declares_sized_vector)
noarr-Built op declared known bcast = (refl, inl known.declares_bcast)
noarr-Built op declared known hoist = (refl, inl known.declares_hoist)
noarr-Built op declared known set_length = (refl, inl known.declares_set_length)
noarr-Built op declared known into_blocks = (refl, inl known.declares_into_blocks)
noarr-Built op declared known make_bag = (refl, inl known.declares_make_bag)

qname-Built :
    (op : ℕ) (declared : Bytes → Option Ty) (qname : Bytes)
    → Built (λ w. IsTyped op declared type w.wrapped) (valid_qname qname) (Wrappers.type_of qname)
unfolding Built Wrappers.type_of qname_expr is_literal
qname-Built op declared qname = elim (Bool-cases (valid_qname qname)) [
  | inl e ↦ rw (qname_expr, e) (refl, inr (qname, refl, e))
  | inr e ↦ rw (qname_expr, e) refl
]

module _ (op : ℕ) (declared : Bytes → Option Ty) (known : Declares declared) where
  dyn-Built : (v : ℕ) → Built (λ w. IsTyped op declared num w.wrapped) true (some (Wrappers.dyn v))
  unfolding Built Wrappers.dyn dyn_expr infer
  dyn-Built v = (refl, inl refl)

  abbrev BuiltArg : Ty → Bool → Option Expr → Type 0
  BuiltArg t = Built (λ e. matches (infer op declared e) e t ≡ true)

  -- Of each term, what it builds is typed.
  mutual
    unfolding build has_names

    build-Built :
        {t : Ty} (e : Term t)
        → Built (λ w. IsTyped op declared t w.wrapped) (has_names e) (build op e)
    build-Built (Term.noarr x) = noarr-Built op declared known x
    build-Built (dyn v) = dyn-Built v
    build-Built (num_of v) = is_Built _ _ (num-IsTyped op declared v)
    build-Built (dim_of c) = is_Built _ _ (dim-IsTyped op declared c)
    build-Built (type_of qname) = qname-Built op declared qname
    build-Built (ptr_of value) = is_Built _ _ (ptr-IsTyped op declared value)
    build-Built (call_fn {ret} {args} f xs) =
        both-Built _ _ _ _ _ _ _ _ (build-Built f) (build_args-Built xs)
          (λ w es. call-IsTyped op declared ret args w.wrapped es)
    build-Built (call_var_fn {ret} {arg} f xs) =
        both-Built _ _ _ _ _ _ _ _ (build-Built f) (build_var_args-Built xs)
          (λ w es. call_var-IsTyped op declared ret arg w.wrapped es)
    build-Built (inst_tmpl {ret} {args} f xs) =
        both-Built _ _ _ _ _ _ _ _ (build-Built f) (build_args-Built xs)
          (λ w es. inst-IsTyped op declared ret args w.wrapped es)
    build-Built (inst_var_tmpl {ret} {arg} f xs) =
        both-Built _ _ _ _ _ _ _ _ (build-Built f) (build_var_args-Built xs)
          (λ w es. inst_var-IsTyped op declared ret arg w.wrapped es)
    build-Built (xor_proto inner outer) =
        both-Built _ _ _ _ _ _ _ _ (build-Built inner) (build-Built outer)
          (λ w v. xor_proto-IsTyped op declared w.wrapped v.wrapped)
    build-Built (xor_noarr inner outer) =
        both-Built _ _ _ _ _ _ _ _ (build-Built inner) (build-Built outer)
          (λ w v. xor_noarr-IsTyped op declared w.wrapped v.wrapped)

    as_expr-Built : {t : Ty} (a : Arg t) → BuiltArg t (arg_has_names a) (as_expr op a)
    as_expr-Built (same {t} e) =
        map-Built _ _ _ _ _ (build-Built e) (λ w. IsTyped-matches op declared t w.wrapped)
    as_expr-Built (base {t} e) =
        map-Built _ _ _ _ _ (build-Built e) (λ w. IsTyped-expr op declared t w.wrapped)
    as_expr-Built (number v) =
        is_Built _ _ (IsTyped-matches op declared num _ (num-IsTyped op declared v))
    as_expr-Built (character c) =
        is_Built _ _ (IsTyped-matches op declared dim _ (dim-IsTyped op declared c))
    as_expr-Built (name qname) =
        map-Built _ _ _ _ _ (qname-Built op declared qname)
          (λ w. IsTyped-matches op declared type w.wrapped)
    as_expr-Built (address value) =
        is_Built _ _ (IsTyped-matches op declared ptr _ (ptr-IsTyped op declared value))

    build_args-Built :
        {ts : Tys} (args : Args ts)
        → Built
            (λ es. match_all op declared es ts ≡ true)
            (args_have_names args)
            (build_args op args)
    build_args-Built nil = is_Built _ _ (match_all-nil op declared)
    build_args-Built (cons a args) =
        both-Built _ _ _ _ _ _ _ _ (as_expr-Built a) (build_args-Built args)
          (λ e es. match_all-cons op declared e es _ _)

    build_var_args-Built :
        {t : Ty} (args : VarArgs t)
        → Built
            (λ es. match_each op declared es t ≡ true)
            (var_args_have_names args)
            (build_var_args op args)
    build_var_args-Built no_more = is_Built _ _ (match_each-nil op declared _)
    build_var_args-Built (more a args) =
        both-Built _ _ _ _ _ _ _ _ (as_expr-Built a) (build_var_args-Built args)
          (λ e es. match_each-cons op declared e es _)

pub build-IsChecked :
    (op : ℕ) (declared : Bytes → Option Ty) {t : Ty} (e : Term t)
    → Declares declared
    → Built (λ w. check op declared w.wrapped t ≡ true) (has_names e) (build op e)
unfolding check
build-IsChecked op declared {t} e known =
    weaker _ _ _ (build op e) (λ w. IsTyped-matches op declared t w.wrapped)
      (build-Built op declared known e)
