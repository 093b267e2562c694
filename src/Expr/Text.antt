-- ===== src/Expr/Text.antt =====
-- runtime/expr_all.cpp: the text of an expression reads each dynamic value at its own index.
use doarr.Base.{
  ℕ, ◌+◌, ◌≡◌, ◌==◌, Bytes, codes, Option, none, some, List, [], ◌∷◌, ◌++◌, Bool, true, false,
  if◌then◌else◌, get_elem?,
}
use doarr.Base.Decimal.{decimal}
use doarr.Expr.{AnyValue, i, f, p, Expr, Exprs, dyn, call, infix_op, raw, nil, cons, num_params}

-- A piece of C++ source: text, or a member of an element of the parameter array.
pub data Piece : Type 0 where
  source : Bytes → Piece
  param : ℕ → ℕ → Piece

abbrev pub spell : Piece → Bytes
spell (source s) = s
spell (param k tag) = codes "DOARR_EXPORT[" ++ decimal k ++ codes "]." ++ tag ∷ []

abbrev pub spell_all : List Piece → Bytes
spell_all [] = []
spell_all (x ∷ xs) = spell x ++ spell_all xs

-- The same text with the values in place.
pub data Inlined : Type 0 where
  source : Bytes → Inlined
  value : ℕ → ℕ → Inlined

-- The member of the union that a tag names; reading any other than the one that was stored gives
-- nothing.
abbrev pub member : ℕ → AnyValue → Option ℕ
member tag (i n) = if tag == b'i' then some n else none
member tag (f n) = if tag == b'f' then some n else none
member tag (p n) = if tag == b'p' then some n else none

abbrev pub read : List AnyValue → Piece → Option Inlined
read params (Piece.source s) = some (Inlined.source s)
read params (param k tag) = elim (get_elem? params k) [
  | none ↦ none
  | some v ↦ elim (member tag v) [ none ↦ none | some n ↦ some (value tag n) ]
]

-- What the compiled function sees: every piece read from the array.
abbrev pub read_all : List AnyValue → List Piece → Option (List Inlined)
read_all params [] = some []
read_all params (x ∷ xs) = elim (read params x) [
  | none ↦ none
  | some y ↦ elim (read_all params xs) [ none ↦ none | some ys ↦ some (y ∷ ys) ]
]

abbrev pub bits : AnyValue → ℕ
bits (i n) = n
bits (f n) = n
bits (p n) = n

module _ (op_text : ℕ → Bytes) where
  -- The expression as it is meant: its source with the values themselves.
  unfoldable mutual
    pub inlined : Expr → List Inlined
    inlined (dyn tag v) = value tag (bits v) ∷ []
    inlined (call fn args lbr rbr) =
        inlined fn
        ++ Inlined.source (lbr ∷ []) ∷ inlined_all false args
        ++ Inlined.source (rbr ∷ []) ∷ []
    inlined (infix_op op left right) =
        Inlined.source (codes "(") ∷ inlined left
        ++ Inlined.source (op_text op) ∷ inlined right
        ++ Inlined.source (codes ")") ∷ []
    inlined (raw code) = Inlined.source code ∷ []

    pub inlined_all : Bool → Exprs → List Inlined
    inlined_all sep nil = []
    inlined_all sep (cons e es) =
        (if sep then Inlined.source (codes ", ") ∷ [] else []) ++ inlined e ++ inlined_all true es

  -- The pieces of the text that is written.
  unfoldable mutual
    pub pieces : Expr → ℕ → List Piece
    pieces (dyn tag v) k = param k tag ∷ []
    pieces (call fn args lbr rbr) k =
        pieces fn k
        ++ Piece.source (lbr ∷ []) ∷ pieces_all false args (k + num_params fn)
        ++ Piece.source (rbr ∷ []) ∷ []
    pieces (infix_op op left right) k =
        Piece.source (codes "(") ∷ pieces left k
        ++ Piece.source (op_text op) ∷ pieces right (k + num_params left)
        ++ Piece.source (codes ")") ∷ []
    pieces (raw code) k = Piece.source code ∷ []

    pub pieces_all : Bool → Exprs → ℕ → List Piece
    pieces_all sep nil k = []
    pieces_all sep (cons e es) k =
        (if sep then Piece.source (codes ", ") ∷ [] else [])
        ++ pieces e k
        ++ pieces_all true es (k + num_params e)

-- Every dynamic value is tagged with the member that holds it, as `dyn_expr` tags it.
unfoldable mutual
  pub IsTagged : Expr → Type 0
  IsTagged (dyn tag v) = member tag v ≡ some (bits v)
  IsTagged (call fn args lbr rbr) = IsTagged fn × AreTagged args
  IsTagged (infix_op op left right) = IsTagged left × IsTagged right
  IsTagged (raw code) = Unit

  pub AreTagged : Exprs → Type 0
  AreTagged nil = Unit
  AreTagged (cons e es) = IsTagged e × AreTagged es
