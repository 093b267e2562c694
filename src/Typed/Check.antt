-- ===== src/Typed/Check.antt =====
-- include/doarr/expr.hpp: a checker of expressions without types, to compare the wrappers with.
use doarr.Base.{
  ℕ, Bytes, codes, bytes_eq, ◌≡◌, refl, Option, none, some, Bool, true, false, ◌||◌, ◌&&◌, ◌==◌,
  leb, List, [], ◌∷◌, if◌then◌else◌,
}
use doarr.Expr.{AnyValue, i, f, p, Expr, Exprs}
use doarr.Expr.Ctors.{valid_qname}
use doarr.Typed.Types.{
  Ty, Tys, expr, num, dim, type, ptr, proto_struct, noarr_struct, fn, tmpl, var_fn, var_tmpl, nil,
  cons,
}

unfoldable mutual
  pub ty_eq : Ty → Ty → Bool
  ty_eq expr expr = true
  ty_eq num num = true
  ty_eq dim dim = true
  ty_eq proto_struct proto_struct = true
  ty_eq noarr_struct noarr_struct = true
  ty_eq type type = true
  ty_eq ptr ptr = true
  ty_eq (fn r a) (fn s b) = ty_eq r s && tys_eq a b
  ty_eq (tmpl r a) (tmpl s b) = ty_eq r s && tys_eq a b
  ty_eq (var_fn r a) (var_fn s b) = ty_eq r s && ty_eq a b
  ty_eq (var_tmpl r a) (var_tmpl s b) = ty_eq r s && ty_eq a b
  ty_eq _ _ = false

  pub tys_eq : Tys → Tys → Bool
  tys_eq nil nil = true
  tys_eq (cons t ts) (cons u us) = ty_eq t u && tys_eq ts us
  tys_eq _ _ = false

abbrev one : Ty → Tys
one t = cons t nil

-- What the library noarr declares: the kinds of the template parameters and of the parameters, and the
-- kind of the result, under each name.
pub record Declares (declared : Bytes → Option Ty) : Type 0 where
  pub declares_lit : declared (codes "noarr::lit") ≡ some (tmpl num (one num))
  pub declares_scalar :
      declared (codes "noarr::scalar") ≡ some (tmpl (fn noarr_struct nil) (one type))
  pub declares_vector :
      declared (codes "noarr::vector") ≡ some (tmpl (fn proto_struct nil) (one dim))
  pub declares_sized_vector :
      declared (codes "noarr::sized_vector") ≡ some (tmpl (fn proto_struct (one num)) (one dim))
  pub declares_bcast :
      declared (codes "noarr::bcast") ≡ some (var_tmpl (var_fn proto_struct num) dim)
  pub declares_hoist : declared (codes "noarr::hoist") ≡ some (var_tmpl (fn proto_struct nil) dim)
  pub declares_set_length :
      declared (codes "noarr::set_length") ≡ some (var_tmpl (var_fn proto_struct num) dim)
  pub declares_into_blocks :
      declared (codes "noarr::into_blocks")
      ≡ some (tmpl (fn proto_struct (one num)) (cons dim (cons dim (one dim))))
  pub declares_make_bag :
      declared (codes "noarr::make_bag") ≡ some (fn expr (cons noarr_struct (one ptr)))

abbrev find_name : List (Bytes × Ty) → Bytes → Option Ty
find_name [] code = none
find_name ((name, t) ∷ rest) code = if bytes_eq name code then some t else find_name rest code

-- These declarations and no other.
unfoldable pub table : Bytes → Option Ty
unfolding bytes_eq
table = find_name (
    (codes "noarr::lit", tmpl num (one num))
    ∷ (codes "noarr::scalar", tmpl (fn noarr_struct nil) (one type))
    ∷ (codes "noarr::vector", tmpl (fn proto_struct nil) (one dim))
    ∷ (codes "noarr::sized_vector", tmpl (fn proto_struct (one num)) (one dim))
    ∷ (codes "noarr::bcast", var_tmpl (var_fn proto_struct num) dim)
    ∷ (codes "noarr::hoist", var_tmpl (fn proto_struct nil) dim)
    ∷ (codes "noarr::set_length", var_tmpl (var_fn proto_struct num) dim)
    ∷ (codes "noarr::into_blocks", tmpl (fn proto_struct (one num)) (cons dim (cons dim (one dim))))
    ∷ (codes "noarr::make_bag", fn expr (cons noarr_struct (one ptr)))
    ∷ [])

pub table-Declares : Declares table
unfolding table
table-Declares = record {
  declares_lit = refl;
  declares_scalar = refl;
  declares_vector = refl;
  declares_sized_vector = refl;
  declares_bcast = refl;
  declares_hoist = refl;
  declares_set_length = refl;
  declares_into_blocks = refl;
  declares_make_bag = refl;
}

abbrev pub all_digits : Bytes → Bool
all_digits [] = true
all_digits (c ∷ s) = leb b'0' c && leb c b'9' && all_digits s

abbrev pub is_number : Bytes → Bool
is_number [] = false
is_number (c ∷ s) = all_digits (c ∷ s)

abbrev pub is_character : Bytes → Bool
is_character (q ∷ c ∷ r ∷ []) = q == b'\'' && r == b'\''
is_character _ = false

-- A literal, or the name of a type, as the type that is wanted.
unfoldable pub is_literal : Bytes → Ty → Bool
is_literal code num = is_number code
is_literal code dim = is_character code || is_number code
is_literal code type = valid_qname code
is_literal code expr = is_number code || is_character code || valid_qname code
is_literal code _ = false

-- A value stands where its type is wanted, or any expression.
unfoldable pub fits : Option Ty → Ty → Bool
unfolding ty_eq
fits none t = false
fits (some u) expr = true
fits (some u) t = ty_eq u t

unfoldable pub matches : Option Ty → Expr → Ty → Bool
unfolding fits is_literal
matches found (Expr.raw code) t = fits found t || is_literal code t
matches found e t = fits found t

-- The result of an application with its brackets, where the arguments are right for it.
abbrev pub applied : Option Ty → (Tys → Bool) → (Ty → Bool) → ℕ → ℕ → Option Ty
applied (some (fn ret args)) ok each lbr rbr =
    if ok args && (lbr == b'(' && rbr == b')') then some ret else none
applied (some (var_fn ret arg)) ok each lbr rbr =
    if each arg && (lbr == b'(' && rbr == b')') then some ret else none
applied (some (tmpl ret args)) ok each lbr rbr =
    if ok args && (lbr == b'<' && rbr == b'>') then some ret else none
applied (some (var_tmpl ret arg)) ok each lbr rbr =
    if each arg && (lbr == b'<' && rbr == b'>') then some ret else none
applied _ ok each lbr rbr = none

-- A value under the tag of its member of the union.
abbrev pub tag_type : ℕ → AnyValue → Option Ty
tag_type tag (i v) = if tag == b'i' then some num else none
tag_type tag (p v) = if tag == b'p' then some ptr else none
tag_type tag (f v) = none

-- The type of an expression, where it is no literal: by the declarations of the library alone, from the tags, the
-- names, the brackets and the operators that stand in the expression.
module _ (infix_xor : ℕ) (declared : Bytes → Option Ty) where
  unfoldable mutual
    unfolding matches

    pub infer : Expr → Option Ty
    infer (Expr.dyn tag value) = tag_type tag value
    infer (Expr.raw code) = declared code
    infer (Expr.infix_op op left right) =
        if op == infix_xor
          && ((matches (infer left) left proto_struct || matches (infer left) left noarr_struct)
              && matches (infer right) right proto_struct)
        then some proto_struct
        else none
    infer (Expr.call head args lbr rbr) =
        applied (infer head) (match_all args) (match_each args) lbr rbr

    pub match_all : Exprs → Tys → Bool
    match_all Exprs.nil nil = true
    match_all (Exprs.cons e es) (cons t ts) = matches (infer e) e t && match_all es ts
    match_all _ _ = false

    pub match_each : Exprs → Ty → Bool
    match_each Exprs.nil t = true
    match_each (Exprs.cons e es) t = matches (infer e) e t && match_each es t

  unfoldable pub check : Expr → Ty → Bool
  unfolding infer
  check e t = matches (infer e) e t
