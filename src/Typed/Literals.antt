-- ===== src/Typed/Literals.antt =====
-- include/doarr/expr.hpp: literals, and how the checker sees them.
use doarr.Base.{
  ℕ, zero, suc, ◌+◌, ◌/◌, ◌%◌, ◌==◌, leb, ltb, ◌≡◌, ◌⊎◌, inl, inr, Bytes, Option, some, Bool, true,
  false, not, ◌&&◌, ◌||◌, [], ◌∷◌, arith, refl, Bool-cases,
}
use doarr.Base.Int.{ℤ, pos, negsuc, to_size_t}
use doarr.Expr.{Expr}
use doarr.Expr.Ctors.{dyn_expr, int_expr, int_text, int_loop, char_expr}
use doarr.Typed.Types.{
  Ty, Tys, expr, num, dim, type, ptr, proto_struct, noarr_struct, fn, tmpl, var_fn, var_tmpl,
}
use doarr.Typed.Wrappers
use doarr.Typed.Wrappers.{Wrapped}
use doarr.Typed.Check.{ty_eq, tys_eq, fits, matches, is_literal, is_number, all_digits, infer}

-- The checker's answer is that of the wrapper; or the expression is a literal of its type.
abbrev pub IsTyped : ℕ → (Bytes → Option Ty) → Ty → Expr → Type 0
IsTyped op declared t e =
    (infer op declared e ≡ some t)
    ⊎ ((code : Bytes) × (e ≡ Expr.raw code) × (is_literal code t ≡ true))

mutual
  unfolding ty_eq

  ty_eq_refl : (t : Ty) → ty_eq t t ≡ true
  ty_eq_refl expr = refl
  ty_eq_refl num = refl
  ty_eq_refl dim = refl
  ty_eq_refl proto_struct = refl
  ty_eq_refl noarr_struct = refl
  ty_eq_refl type = refl
  ty_eq_refl ptr = refl
  ty_eq_refl (fn r a) = rw (ty_eq_refl r) (tys_eq_refl a)
  ty_eq_refl (tmpl r a) = rw (ty_eq_refl r) (tys_eq_refl a)
  ty_eq_refl (var_fn r a) = rw (ty_eq_refl r) (ty_eq_refl a)
  ty_eq_refl (var_tmpl r a) = rw (ty_eq_refl r) (ty_eq_refl a)

  tys_eq_refl : (ts : Tys) → tys_eq ts ts ≡ true
  tys_eq_refl Tys.nil = refl
  tys_eq_refl (Tys.cons t ts) = rw (ty_eq_refl t) (tys_eq_refl ts)

pub fits_own : (t : Ty) → fits (some t) t ≡ true
unfolding fits
fits_own expr = refl
fits_own num = refl
fits_own dim = refl
fits_own proto_struct = refl
fits_own noarr_struct = refl
fits_own type = refl
fits_own ptr = refl
fits_own (fn r a) = ty_eq_refl (fn r a)
fits_own (tmpl r a) = ty_eq_refl (tmpl r a)
fits_own (var_fn r a) = ty_eq_refl (var_fn r a)
fits_own (var_tmpl r a) = ty_eq_refl (var_tmpl r a)

pub or_true : (a : Bool) → (a || true) ≡ true
or_true true = refl
or_true false = refl

pub found-matches :
    (found : Option Ty) (t : Ty) (e : Expr) → fits found t ≡ true → matches found e t ≡ true
unfolding matches
found-matches found t (Expr.dyn tag v) h = h
found-matches found t (Expr.call f args l r) h = h
found-matches found t (Expr.infix_op op a b) h = h
found-matches found t (Expr.raw code) h = rw h refl

pub literal-matches :
    (found : Option Ty) (t : Ty) (code : Bytes)
    → is_literal code t ≡ true
    → matches found (Expr.raw code) t ≡ true
unfolding matches
literal-matches found t code h = rw h (or_true (fits found t))

-- A literal is an expression.
pub literal_expr : (code : Bytes) (t : Ty) → is_literal code t ≡ true → is_literal code expr ≡ true
unfolding is_literal
literal_expr code expr h = h
literal_expr code num h = ground (arith, h)
literal_expr code dim h = ground (arith, h)
literal_expr code type h = ground (arith, h)
literal_expr code proto_struct h = cc
literal_expr code noarr_struct h = cc
literal_expr code ptr h = cc
literal_expr code (fn r a) h = cc
literal_expr code (tmpl r a) h = cc
literal_expr code (var_fn r a) h = cc
literal_expr code (var_tmpl r a) h = cc

module _ (op : ℕ) (declared : Bytes → Option Ty) where
  pub IsTyped-matches :
      (t : Ty) (e : Expr) → IsTyped op declared t e → matches (infer op declared e) e t ≡ true
  IsTyped-matches t e (inl h) = rw h (found-matches (some t) t e (fits_own t))
  IsTyped-matches t e (inr (code, same_raw, h)) = rw same_raw (literal-matches _ t code h)

  pub IsTyped-expr :
      (t : Ty) (e : Expr) → IsTyped op declared t e → matches (infer op declared e) e expr ≡ true
  unfolding fits
  IsTyped-expr t e (inl h) = rw h (found-matches (some t) expr e refl)
  IsTyped-expr t e (inr (code, same_raw, h)) =
      rw same_raw (literal-matches _ expr code (literal_expr code t h))

pub int_loop-digits_only :
    (fuel n : ℕ) (s : Bytes) → all_digits s ≡ true → is_number (int_loop (suc fuel) n s) ≡ true
unfolding int_loop
int_loop-digits_only zero n s h = ground (arith, h)
int_loop-digits_only (suc fuel) n s h = elim (Bool-cases (n / 10 == 0)) [
  | inl e ↦ rw (int_loop, e) (ground (arith, h))
  | inr e ↦
      rw (int_loop, e)
        (int_loop-digits_only fuel (n / 10) ((b'0' + n % 10) ∷ s) (ground (arith, h)))
]

pub int_text-number : (v : ℕ) → is_number (int_text v) ≡ true
unfolding int_text
int_text-number v = int_loop-digits_only v v [] refl

pub number_of-IsTyped :
    (op : ℕ) (declared : Bytes → Option Ty) (v : ℕ) → IsTyped op declared num (int_expr v)
unfolding int_expr is_literal
number_of-IsTyped op declared v = inr (int_text v, refl, int_text-number v)

pub number_as_dim :
    (op : ℕ) (declared : Bytes → Option Ty) (v : ℕ) → IsTyped op declared dim (int_expr v)
unfolding int_expr is_literal
number_as_dim op declared v = inr (int_text v, refl, rw (int_text-number v) (or_true _))

pub character-IsTyped :
    (op : ℕ) (declared : Bytes → Option Ty) (c : ℤ) → IsTyped op declared dim (char_expr c)
unfolding char_expr is_literal
character-IsTyped op declared (pos c) =
    elim (Bool-cases (leb 32 c && ltb c 127 && not (c == b'\'') && not (c == b'\\'))) [
      | inl e ↦ rw (char_expr, e) (inr (_, refl, refl))
      | inr e ↦ rw (char_expr, e) (number_as_dim op declared c)
    ]
character-IsTyped op declared (negsuc n) = number_as_dim op declared (to_size_t (negsuc n))

module _ (op : ℕ) (declared : Bytes → Option Ty) where
  pub ptr-IsTyped : (value : ℕ) → IsTyped op declared ptr ((Wrappers.ptr_of value).wrapped)
  unfolding Wrappers.ptr_of dyn_expr infer
  ptr-IsTyped value = inl refl

  pub num-IsTyped : (v : ℕ) → IsTyped op declared num ((Wrappers.num_of v).wrapped)
  unfolding Wrappers.num_of
  num-IsTyped v = number_of-IsTyped op declared v

  pub dim-IsTyped : (c : ℤ) → IsTyped op declared dim ((Wrappers.dim_of c).wrapped)
  unfolding Wrappers.dim_of
  dim-IsTyped c = character-IsTyped op declared c
