-- ===== src/Expr/Reads.antt =====
-- runtime/expr_all.cpp: a compiled expression means what the expression means.
use doarr.Base.{
  ℕ, ◌+◌, ◌≡◌, Bytes, codes, some, List, [], ◌∷◌, ◌++◌, Bool, true, false, if◌then◌else◌, length,
  get_elem?, arith, refl, ◌∙◌, length-append, append_assoc, append-nil, Option-cases, inl, inr,
}
use doarr.Expr.{
  AnyValue, Expr, Exprs, dyn, call, infix_op, raw, nil, cons, num_params, extract_params,
  extract_params_all, write_to, write_all,
}
use doarr.Expr.Params.{length-extract_params, write_to-index}
use doarr.Expr.Text.{
  Piece, spell_all, Inlined, read, read_all, inlined, inlined_all, pieces, pieces_all, IsTagged,
  AreTagged,
}

spell_all-append : (xs ys : List Piece) → spell_all (xs ++ ys) ≡ spell_all xs ++ spell_all ys
spell_all-append [] ys = refl
spell_all-append (x ∷ xs) ys = simp (spell_all-append xs ys, append_assoc)

read_all-append :
    (params : List AnyValue) (xs ys : List Piece) (a b : List Inlined)
    → read_all params xs ≡ some a
    → read_all params ys ≡ some b
    → read_all params (xs ++ ys) ≡ some (a ++ b)
read_all-append params [] ys a b h k = ground arith
read_all-append params (x ∷ xs) ys a b h k = elim (Option-cases (read params x)) [
  | inl e ↦ absurd (ground arith)
  | inr (y, e) ↦ elim (Option-cases (read_all params xs)) [
    | inl e' ↦ absurd (ground arith)
    | inr (c, e') ↦ ground (arith, read_all-append params xs ys c b e' k)
  ]
]

get_elem?-append :
    (pre post : List AnyValue) (v : AnyValue) → get_elem? (pre ++ v ∷ post) (length pre) ≡ some v
get_elem?-append [] post v = refl
get_elem?-append (x ∷ pre) post v = get_elem?-append pre post v

split : (a b c d : List AnyValue) → a ++ (b ++ c) ++ d ≡ a ++ b ++ (c ++ d)
split a b c d = simp append_assoc

regroup : (a b c d : List AnyValue) → a ++ (b ++ c) ++ d ≡ (a ++ b) ++ c ++ d
regroup a b c d = simp append_assoc

read_all-separator :
    (params : List AnyValue) (sep : Bool)
    → read_all params (if sep then Piece.source (codes ", ") ∷ [] else [])
      ≡ some (if sep then Inlined.source (codes ", ") ∷ [] else [])
read_all-separator params true = refl
read_all-separator params false = refl

module _ (op_text : ℕ → Bytes) where
  mutual
    unfolding pieces write_to

    spelled : (e : Expr) (k : ℕ) → (write_to op_text e k).0 ≡ spell_all (pieces op_text e k)
    spelled (dyn tag v) k = simp append-nil
    spelled (call fn args lbr rbr) k = simp (
      spell_all-append,
      append_assoc,
      spelled fn k,
      write_to-index op_text fn k,
      spelled_all false args (k + num_params fn),
    )
    spelled (infix_op op left right) k = simp (
      spell_all-append,
      append_assoc,
      spelled left k,
      write_to-index op_text left k,
      spelled right (k + num_params left),
    )
    spelled (raw code) k = simp append-nil

    spelled_all :
        (sep : Bool) (es : Exprs) (k : ℕ)
        → (write_all op_text sep es k).0 ≡ spell_all (pieces_all op_text sep es k)
    spelled_all sep nil k = refl
    spelled_all true (cons e es) k = simp (
      spell_all-append,
      append_assoc,
      spelled e k,
      write_to-index op_text e k,
      spelled_all true es (k + num_params e),
    )
    spelled_all false (cons e es) k = simp (
      spell_all-append,
      append_assoc,
      spelled e k,
      write_to-index op_text e k,
      spelled_all true es (k + num_params e),
    )

  mutual
    unfolding pieces inlined extract_params IsTagged

    read_all-pieces :
        (e : Expr) (params pre post : List AnyValue) (k : ℕ)
        → params ≡ pre ++ extract_params e ++ post
        → length pre ≡ k
        → IsTagged e
        → read_all params (pieces op_text e k) ≡ some (inlined op_text e)
    read_all-pieces (dyn tag v) params pre post k e n t =
        let found : get_elem? params k ≡ some v =
          cc (e, n, append_assoc pre (v ∷ []) post, get_elem?-append pre post v) in
        ground arith
    read_all-pieces (call fn args lbr rbr) params pre post k e n (tf, ta) =
        let rf =
          read_all-pieces fn params pre (extract_params_all args ++ post) k
            (e ∙ split pre (extract_params fn) _ post) n tf in
        let ra =
          read_all-pieces_all false args params (pre ++ extract_params fn) post (k + num_params fn)
            (e ∙ regroup pre (extract_params fn) _ post)
            (omega (arith, length-append pre (extract_params fn), length-extract_params fn)) ta in
        let bracket : read_all params
              (Piece.source (lbr ∷ []) ∷ pieces_all op_text false args (k + num_params fn))
            ≡ some (Inlined.source (lbr ∷ []) ∷ inlined_all op_text false args) =
          ground arith in
        let after = Piece.source (lbr ∷ []) ∷ pieces_all op_text false args (k + num_params fn) in
        read_all-append params (pieces op_text fn k ++ after) (Piece.source (rbr ∷ []) ∷ []) _ _
          (read_all-append params (pieces op_text fn k) after _ _ rf bracket) refl
    read_all-pieces (infix_op op left right) params pre post k e n (tl, tr) =
        let rl =
          read_all-pieces left params pre (extract_params right ++ post) k
            (e ∙ split pre (extract_params left) _ post) n tl in
        let rr =
          read_all-pieces right params (pre ++ extract_params left) post (k + num_params left)
            (e ∙ regroup pre (extract_params left) _ post)
            (omega (arith, length-append pre (extract_params left), length-extract_params left))
            tr in
        let bracket : read_all params (Piece.source (codes "(") ∷ pieces op_text left k)
            ≡ some (Inlined.source (codes "(") ∷ inlined op_text left) =
          ground arith in
        let operator : read_all params
              (Piece.source (op_text op) ∷ pieces op_text right (k + num_params left))
            ≡ some (Inlined.source (op_text op) ∷ inlined op_text right) =
          ground arith in
        let before = Piece.source (codes "(") ∷ pieces op_text left k in
        let after = Piece.source (op_text op) ∷ pieces op_text right (k + num_params left) in
        read_all-append params (before ++ after) (Piece.source (codes ")") ∷ []) _ _
          (read_all-append params before after _ _ bracket operator) refl
    read_all-pieces (raw code) params pre post k e n t = refl

    read_all-pieces_all :
        (sep : Bool) (es : Exprs) (params pre post : List AnyValue) (k : ℕ)
        → params ≡ pre ++ extract_params_all es ++ post
        → length pre ≡ k
        → AreTagged es
        → read_all params (pieces_all op_text sep es k) ≡ some (inlined_all op_text sep es)
    read_all-pieces_all sep nil params pre post k e n t = refl
    read_all-pieces_all sep (cons x es) params pre post k e n (tx, ts) =
        let rx =
          read_all-pieces x params pre (extract_params_all es ++ post) k
            (e ∙ split pre (extract_params x) _ post) n tx in
        let rs =
          read_all-pieces_all true es params (pre ++ extract_params x) post (k + num_params x)
            (e ∙ regroup pre (extract_params x) _ post)
            (omega (arith, length-append pre (extract_params x), length-extract_params x)) ts in
        let before : List Piece = if sep then Piece.source (codes ", ") ∷ [] else [] in
        read_all-append params (before ++ pieces op_text x k)
          (pieces_all op_text true es (k + num_params x)) _ _
          (read_all-append params before (pieces op_text x k) _ _ (read_all-separator params sep)
            rx)
          rs

  -- What a compiled expression means is what was meant. The text that is written for it, from
  -- whatever index on, is made of pieces that read each dynamic value of the expression, through the
  -- member of its type, from the array that holds the values where `extract_params` puts them behind
  -- as many others, whatever stands behind them; and no piece reads any other element.
  pub write_to-inlined :
      (e : Expr) (pre post : List AnyValue)
      → IsTagged e
      → ((write_to op_text e (length pre)).0 ≡ spell_all (pieces op_text e (length pre)))
        × (read_all (pre ++ extract_params e ++ post) (pieces op_text e (length pre))
            ≡ some (inlined op_text e))
        × ((write_to op_text e (length pre)).1 ≡ length (pre ++ extract_params e))
  write_to-inlined e pre post t = (
    spelled e (length pre),
    read_all-pieces e _ pre post (length pre) refl refl t,
    omega (
      arith,
      write_to-index op_text e (length pre),
      length-append pre (extract_params e),
      length-extract_params e,
    ),
  )
