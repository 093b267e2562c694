-- ===== src/Expr.antt =====
-- runtime/expr_all.cpp: expressions, from which the runtime writes a call in C++.
-- An expression is immutable, so an object is its value: reference counts do not show. What only an
-- address gives is a parameter where it is used.
pub mod Params
pub mod Text
pub mod Reads
pub mod Equal
pub mod SameText
pub mod Ctors
pub mod Refs
use doarr.Base.{
  ℕ, suc, ◌+◌, ◌*◌, ◌%◌, ◌^◌, Bytes, codes, List, [], ◌∷◌, ◌++◌, Bool, true, false, if◌then◌else◌,
}
use doarr.Base.Decimal.{decimal}

-- union any, with the bits of the double and the address of the pointer.
pub data AnyValue : Type 0 where
  i f p : ℕ → AnyValue

-- The classes that derive from expr_impl. `dyn` has its tag and value, `call` its function, arguments
-- and brackets, `infix_op` the address of the operator's text and the operands, `raw` its code
-- without the null.
mutual
  pub data Expr : Type 0 where
    dyn : ℕ → AnyValue → Expr
    call : Expr → Exprs → ℕ → ℕ → Expr
    infix_op : ℕ → Expr → Expr → Expr
    raw : Bytes → Expr

  -- class exprs
  pub data Exprs : Type 0 where
    nil : Exprs
    cons : Expr → Exprs → Exprs

-- The field num_params, and exs::num_params.
unfoldable mutual
  pub num_params : Expr → ℕ
  num_params (dyn tag value) = 1
  num_params (call fn args lbr rbr) = num_params fn + num_params_all args
  num_params (infix_op op left right) = num_params left + num_params right
  num_params (raw code) = 0

  pub num_params_all : Exprs → ℕ
  num_params_all nil = 0
  num_params_all (cons e es) = num_params e + num_params_all es

-- What `extract_params` writes from `out` on.
unfoldable mutual
  pub extract_params : Expr → List AnyValue
  extract_params (dyn tag value) = value ∷ []
  extract_params (call fn args lbr rbr) = extract_params fn ++ extract_params_all args
  extract_params (infix_op op left right) = extract_params left ++ extract_params right
  extract_params (raw code) = []

  pub extract_params_all : Exprs → List AnyValue
  extract_params_all nil = []
  extract_params_all (cons e es) = extract_params e ++ extract_params_all es

-- `write_to`: what is written from `param_idx` on, and the index that is returned. `op_text` reads
-- the text of an operator at its address.
module _ (op_text : ℕ → Bytes) where
  unfoldable mutual
    pub write_to : Expr → ℕ → Bytes × ℕ
    write_to (dyn tag value) param_idx =
        (codes "DOARR_EXPORT[" ++ decimal param_idx ++ codes "]." ++ tag ∷ [], param_idx + 1)
    write_to (call fn args lbr rbr) param_idx =
        let (s, k) = write_to fn param_idx in
        let (t, m) = write_all false args k in (s ++ lbr ∷ t ++ rbr ∷ [], m)
    write_to (infix_op op left right) param_idx =
        let (s, k) = write_to left param_idx in
        let (t, m) = write_to right k in (b'(' ∷ s ++ op_text op ++ t ++ b')' ∷ [], m)
    write_to (raw code) param_idx = (code, param_idx)

    -- The loop of exs::write_to; the flag is `sep`.
    pub write_all : Bool → Exprs → ℕ → Bytes × ℕ
    write_all sep nil param_idx = ([], param_idx)
    write_all sep (cons e es) param_idx =
        let (s, k) = write_to e param_idx in
        let (t, m) = write_all true es k in ((if sep then codes ", " else []) ++ s ++ t, m)

-- One step of hash_all, of `hash` of exprs and of hash_str: a size_t has 64 bits.
unfoldable pub mix : ℕ → ℕ → ℕ
mix r component = (r * 31 + component) % 2 ^ 64

unfoldable pub hash_bytes : ℕ → Bytes → ℕ
unfolding mix
hash_bytes r [] = r
hash_bytes r (c ∷ str) = hash_bytes (mix r c) str

-- The addresses of the four objects `cls`.
pub record Classes : Type 0 where
  pub dyn_cls : ℕ
  pub call_cls : ℕ
  pub infix_cls : ℕ
  pub raw_cls : ℕ

-- The field hash; hash_str goes over the code and its null.
module _ (cls : Classes) where
  unfoldable mutual
    unfolding mix hash_bytes

    pub hash : Expr → ℕ
    hash (dyn tag value) = mix (mix 1 cls.dyn_cls) tag
    hash (call fn args lbr rbr) =
        mix (mix (mix (mix 1 cls.call_cls) (hash fn)) (hash_all 1 args)) lbr
    hash (infix_op op left right) =
        mix (mix (mix (mix 1 cls.infix_cls) op) (hash left)) (hash right)
    hash (raw code) = mix (mix 1 cls.raw_cls) (hash_bytes 1 (code ++ 0 ∷ []))

    -- The loop of `hash` of exprs.
    pub hash_all : ℕ → Exprs → ℕ
    hash_all r nil = r
    hash_all r (cons e es) = hash_all (mix r (hash e)) es
