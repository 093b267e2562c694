-- ===== src/Typed/Params.antt =====
-- include/doarr/expr.hpp: the dynamic values in what the wrappers build.
use mathlib.Core.Option
use doarr.Base.{
  ℕ, ◌+◌, ◌≡◌, Bytes, Option, none, some, ◌&&◌, refl, Bool-cases, inl, inr, not, leb, ltb, ◌==◌,
}
use doarr.Base.Int.{ℤ, pos, negsuc}
use doarr.Expr.{Expr, Exprs, num_params, num_params_all}
use doarr.Expr.Ctors.{
  dyn_expr, call_expr, inst_expr, infix_expr, int_expr, char_expr, qname_expr, valid_qname,
}
use doarr.Typed.Types.{Ty, Tys, type, Noarr, noarr_type}
use doarr.Typed.Wrappers
use doarr.Typed.Wrappers.{Wrapped}
use doarr.Typed.Terms.{
  Term, Arg, Args, VarArgs, dyn, num_of, dim_of, type_of, ptr_of, call_fn, call_var_fn, inst_tmpl,
  inst_var_tmpl, xor_proto, xor_noarr, same, base, number, character, name, address, nil, cons,
  no_more, more, both, build, as_expr, build_args, build_var_args,
}

-- How many dynamic values and pointers a program writes.
unfoldable mutual
  pub params : {t : Ty} → Term t → ℕ
  params (dyn v) = 1
  params (ptr_of value) = 1
  params (call_fn f args) = params f + args_params args
  params (call_var_fn f args) = params f + var_args_params args
  params (inst_tmpl f args) = params f + args_params args
  params (inst_var_tmpl f args) = params f + var_args_params args
  params (xor_proto inner outer) = params inner + params outer
  params (xor_noarr inner outer) = params inner + params outer
  params _ = 0

  pub arg_params : {t : Ty} → Arg t → ℕ
  arg_params (same e) = params e
  arg_params (base e) = params e
  arg_params (address value) = 1
  arg_params _ = 0

  pub args_params : {ts : Tys} → Args ts → ℕ
  args_params nil = 0
  args_params (cons a args) = arg_params a + args_params args

  pub var_args_params : {t : Ty} → VarArgs t → ℕ
  var_args_params no_more = 0
  var_args_params (more a args) = arg_params a + var_args_params args

-- What is built, when something is.
unfoldable Makes {ℓ} : {A : Type ℓ} → (A → ℕ) → ℕ → Option A → Type 0
Makes count n none = Unit
Makes count n (some a) = count a ≡ n

abbrev wrapped_params : {t : Ty} → Wrapped t → ℕ
wrapped_params w = num_params w.wrapped

some-Makes : {A : Type 0} (count : A → ℕ) (n : ℕ) (a : A) → count a ≡ n → Makes count n (some a)
unfolding Makes
some-Makes count n a h = h

both-Makes :
    {A B C : Type 0} (p : A → ℕ) (q : B → ℕ) (s : C → ℕ) (m n : ℕ) (g : A → B → C) (x : Option A)
    (y : Option B)
    → ((u : A) (v : B) → s (g u v) ≡ p u + q v)
    → Makes p m x
    → Makes q n y
    → Makes s (m + n) (both g x y)
unfolding Makes
both-Makes p q s m n g none y e h k = tt
both-Makes p q s m n g (some u) none e h k = tt
both-Makes p q s m n g (some u) (some v) e h k = rw (e u v, h, k) refl

map-Makes :
    {A B : Type 0} (p : A → ℕ) (q : B → ℕ) (n : ℕ) (g : A → B) (x : Option A)
    → ((u : A) → q (g u) ≡ p u)
    → Makes p n x
    → Makes q n (Option.map g x)
unfolding Makes
map-Makes p q n g none e h = tt
map-Makes p q n g (some u) e h = rw (e u) h

qname-Makes : (qname : Bytes) → Makes num_params 0 (qname_expr qname)
unfolding Makes qname_expr num_params
qname-Makes qname = elim (Bool-cases (valid_qname qname)) [
  | inl e ↦ rw (qname_expr, e) refl
  | inr e ↦ rw (qname_expr, e) tt
]

named-Makes :
    (t : Ty) (qname : Bytes)
    → Makes wrapped_params 0 (Option.map (Wrappers.wrap {t = t}) (qname_expr qname))
named-Makes t qname =
    map-Makes num_params wrapped_params 0 (Wrappers.wrap {t = t}) (qname_expr qname) (λ e. refl)
      (qname-Makes qname)

int_expr-params : (v : ℕ) → num_params (int_expr v) ≡ 0
unfolding int_expr num_params
int_expr-params v = refl

char_expr-params : (c : ℤ) → num_params (char_expr c) ≡ 0
unfolding char_expr num_params int_expr
char_expr-params (pos c) =
    elim (Bool-cases (leb 32 c && ltb c 127 && not (c == b'\'') && not (c == b'\\'))) [
      | inl e ↦ rw (char_expr, e) refl
      | inr e ↦ rw (char_expr, e) refl
    ]
char_expr-params (negsuc n) = refl

wrapper-params :
    (v : ℕ) (c : ℤ)
    → (wrapped_params (Wrappers.num_of v) ≡ 0)
      × (wrapped_params (Wrappers.dim_of c) ≡ 0)
      × (wrapped_params (Wrappers.dyn v) ≡ 1)
      × (wrapped_params (Wrappers.ptr_of v) ≡ 1)
unfolding Wrappers.num_of Wrappers.dim_of Wrappers.dyn Wrappers.ptr_of num_params dyn_expr
wrapper-params v c = (int_expr-params v, char_expr-params c, refl, refl)

type_of-Makes : (qname : Bytes) → Makes wrapped_params 0 (Wrappers.type_of qname)
unfolding Wrappers.type_of
type_of-Makes qname = named-Makes type qname

noarr-Makes : (x : Noarr) → Makes wrapped_params 0 (Wrappers.noarr x)
unfolding Wrappers.noarr
noarr-Makes x = named-Makes (noarr_type x) _

empty-params : Makes num_params_all 0 (some Exprs.nil)
unfolding Makes num_params_all
empty-params = refl

more-params :
    (e : Expr) (es : Exprs) → num_params_all (Exprs.cons e es) ≡ num_params e + num_params_all es
unfolding num_params_all
more-params e es = refl

-- An application and an infix operator add up.
applied-params :
    (e : Expr) (es : Exprs)
    → (num_params (call_expr e es) ≡ num_params e + num_params_all es)
      × (num_params (inst_expr e es) ≡ num_params e + num_params_all es)
unfolding num_params call_expr inst_expr
applied-params e es = (refl, refl)

infix_expr-params :
    (op : ℕ) (e e' : Expr) → num_params (infix_expr op e e') ≡ num_params e + num_params e'
unfolding num_params infix_expr
infix_expr-params op e e' = refl

module _ (op : ℕ) where
  mutual
    unfolding build params Wrappers.call_fn Wrappers.call_var_fn Wrappers.inst_tmpl
        Wrappers.inst_var_tmpl Wrappers.xor_proto Wrappers.xor_noarr

    build-params : {t : Ty} (e : Term t) → Makes wrapped_params (params e) (build op e)
    build-params (Term.noarr x) = noarr-Makes x
    build-params (dyn v) = some-Makes wrapped_params _ _ (wrapper-params v (pos 0)).2
    build-params (num_of v) = some-Makes wrapped_params _ _ (wrapper-params v (pos 0)).0
    build-params (dim_of c) = some-Makes wrapped_params _ _ (wrapper-params 0 c).1
    build-params (type_of qname) = type_of-Makes qname
    build-params (ptr_of value) = some-Makes wrapped_params _ _ (wrapper-params value (pos 0)).3
    build-params (call_fn f xs) =
        both-Makes wrapped_params num_params_all wrapped_params _ _ _ _ _
          (λ w es. (applied-params w.wrapped es).0) (build-params f) (build_args-params xs)
    build-params (call_var_fn f xs) =
        both-Makes wrapped_params num_params_all wrapped_params _ _ _ _ _
          (λ w es. (applied-params w.wrapped es).0) (build-params f) (var_args_counted xs)
    build-params (inst_tmpl f xs) =
        both-Makes wrapped_params num_params_all wrapped_params _ _ _ _ _
          (λ w es. (applied-params w.wrapped es).1) (build-params f) (build_args-params xs)
    build-params (inst_var_tmpl f xs) =
        both-Makes wrapped_params num_params_all wrapped_params _ _ _ _ _
          (λ w es. (applied-params w.wrapped es).1) (build-params f) (var_args_counted xs)
    build-params (xor_proto inner outer) =
        both-Makes wrapped_params wrapped_params wrapped_params _ _ _ _ _
          (λ w v. infix_expr-params op w.wrapped v.wrapped) (build-params inner)
          (build-params outer)
    build-params (xor_noarr inner outer) =
        both-Makes wrapped_params wrapped_params wrapped_params _ _ _ _ _
          (λ w v. infix_expr-params op w.wrapped v.wrapped) (build-params inner)
          (build-params outer)

    as_expr-params : {t : Ty} (a : Arg t) → Makes num_params (arg_params a) (as_expr op a)
    as_expr-params (same e) = map-Makes wrapped_params num_params _ _ _ (λ w. refl) (build-params e)
    as_expr-params (base e) = map-Makes wrapped_params num_params _ _ _ (λ w. refl) (build-params e)
    as_expr-params (number v) = some-Makes num_params _ _ (wrapper-params v (pos 0)).0
    as_expr-params (character c) = some-Makes num_params _ _ (wrapper-params 0 c).1
    as_expr-params (name qname) =
        map-Makes wrapped_params num_params _ _ _ (λ w. refl) (type_of-Makes qname)
    as_expr-params (address value) = some-Makes num_params _ _ (wrapper-params value (pos 0)).3

    build_args-params :
        {ts : Tys} (args : Args ts) → Makes num_params_all (args_params args) (build_args op args)
    build_args-params nil = empty-params
    build_args-params (cons a args) =
        both-Makes num_params num_params_all num_params_all _ _ _ _ _ more-params (as_expr-params a)
          (build_args-params args)

    var_args_counted :
        {t : Ty} (args : VarArgs t)
        → Makes num_params_all (var_args_params args) (build_var_args op args)
    var_args_counted no_more = empty-params
    var_args_counted (more a args) =
        both-Makes num_params num_params_all num_params_all _ _ _ _ _ more-params (as_expr-params a)
          (var_args_counted args)

made-params :
    (n : ℕ) (x : Option Exprs) (es : Exprs)
    → Makes num_params_all n x
    → x ≡ some es
    → num_params_all es ≡ n
unfolding Makes
made-params n none es h e = cc
made-params n (some es') es h e = cc

pub build_var_args-params :
    (op : ℕ) {t : Ty} (args : VarArgs t) (es : Exprs)
    → build_var_args op args ≡ some es
    → num_params_all es ≡ var_args_params args
build_var_args-params op args es e =
    made-params _ (build_var_args op args) es (var_args_counted op args) e
