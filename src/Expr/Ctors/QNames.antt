-- ===== src/Expr/Ctors/QNames.antt =====
-- runtime/expr_all.cpp: which names `qname_expr` takes.
use Prim.{⊥}
use doarr.Base.{
  ℕ, ◌≤◌, ◌≡◌, ◌⊎◌, ◌↔◌, ◌==◌, Bytes, codes, Bool, true, false, some, List, [], ◌∷◌, ◌++◌,
  if◌then◌else◌, arith, refl, All, Bool-cases, inl, inr, ap, sym, ◌∙◌,
}
use doarr.Expr.{raw}
use doarr.Expr.Ctors.{valid_ident_start, valid_ident_cont, qname_loop, valid_qname, qname_expr}

abbrev pub IsCont : ℕ → Type 0
IsCont c = valid_ident_cont c ≡ true

abbrev pub IsIdent : Bytes → Type 0
IsIdent [] = ⊥
IsIdent (c ∷ s) = (valid_ident_start c ≡ true) × All IsCont s

-- Each further identifier behind two colons.
abbrev pub qualified : List Bytes → Bytes
qualified [] = []
qualified (name ∷ names) = b':' ∷ b':' ∷ (name ++ qualified names)

qname_loop-cont : (c : ℕ) (s : Bytes) → IsCont c → qname_loop true (c ∷ s) ≡ qname_loop true s
unfolding qname_loop
qname_loop-cont c [] h = h
qname_loop-cont c (d ∷ s) h = rw h refl

qname_loop-colons :
    (x : ℕ) (s : Bytes)
    → valid_ident_start x ≡ true
    → qname_loop true (b':' ∷ b':' ∷ x ∷ s) ≡ qname_loop true s
unfolding qname_loop valid_ident_cont valid_ident_start
qname_loop-colons x s h = rw h refl

cont_step :
    (c d : ℕ) (s : Bytes)
    → IsCont c
    → qname_loop true (c ∷ d ∷ s) ≡ true
    → qname_loop true (d ∷ s) ≡ true
cont_step c d s h e = sym (qname_loop-cont c (d ∷ s) h) ∙ e

colons_step :
    (c d : ℕ) (s : Bytes)
    → valid_ident_cont c ≡ false
    → qname_loop true (c ∷ d ∷ s) ≡ true
    → (c ≡ b':') × (d ≡ b':') × (qname_loop false s ≡ true)
unfolding qname_loop
colons_step c d s h e = ground arith

start_step :
    (x : ℕ) (s : Bytes)
    → qname_loop false (x ∷ s) ≡ true
    → (valid_ident_start x ≡ true) × (qname_loop true s ≡ true)
unfolding qname_loop
start_step x s h = ground arith

qname_loop-qualified :
    (names : List Bytes) (s : Bytes)
    → All IsCont s
    → All IsIdent names
    → qname_loop true (s ++ qualified names) ≡ true
unfolding qname_loop
qname_loop-qualified names (c ∷ s) (hc, h) g =
    qname_loop-cont c (s ++ qualified names) hc ∙ qname_loop-qualified names s h g
qname_loop-qualified [] [] h g = refl
qname_loop-qualified ((x ∷ name) ∷ names) [] h ((gx, gn), g) =
    qname_loop-colons x (name ++ qualified names) gx ∙ qname_loop-qualified names name gn g
qname_loop-qualified ([] ∷ names) [] h g = absurd g.0

-- What follows the start of an identifier in a name that is taken.
abbrev Parsed : Bytes → Type 0
Parsed s =
    (w : Bytes) × (names : List Bytes) × (s ≡ w ++ qualified names)
    × All IsCont w
    × All IsIdent names

qname_loop-Parsed : (s : Bytes) → qname_loop true s ≡ true → Parsed s
qname_loop-Parsed [] h = ([], [], refl, tt, tt)
qname_loop-Parsed (c ∷ []) h = (c ∷ [], [], refl, ((unfold qname_loop in h), tt), tt)
qname_loop-Parsed (c ∷ d ∷ []) h = elim (Bool-cases (valid_ident_cont c)) [
  | inl e ↦
      let (w, names, p, a, g) = qname_loop-Parsed (d ∷ []) (cont_step c d [] e h) in
      (c ∷ w, names, ap (λ t. c ∷ t) p, (e, a), g)
  | inr e ↦ let (c_eq, d_eq, l) = colons_step c d [] e h in absurd (unfold qname_loop in cc)
]
qname_loop-Parsed (c ∷ d ∷ x ∷ s) h = elim (Bool-cases (valid_ident_cont c)) [
  | inl e ↦
      let (w, names, p, a, g) = qname_loop-Parsed (d ∷ x ∷ s) (cont_step c d (x ∷ s) e h) in
      (c ∷ w, names, ap (λ t. c ∷ t) p, (e, a), g)
  | inr e ↦
      let (c_eq, d_eq, l) = colons_step c d (x ∷ s) e h in
      let (start, l') = start_step x s l in
      let (w, names, p, a, g) = qname_loop-Parsed s l' in
      ([], (x ∷ w) ∷ names, cc, tt, ((start, a), g))
]

-- An optional `::` in front, then identifiers with `::` between them.
abbrev pub spelled : Bool → Bytes → List Bytes → Bytes
spelled global name names = (if global then codes "::" else []) ++ name ++ qualified names

ident_first :
    (x : ℕ) (t : Bytes) → valid_ident_start x ≡ true → valid_qname (x ∷ t) ≡ qname_loop true t
unfolding valid_qname qname_loop valid_ident_start
ident_first x [] h = ground arith
ident_first x (d ∷ t) h = ground arith

colons_first :
    (x : ℕ) (t : Bytes)
    → valid_ident_start x ≡ true
    → valid_qname (b':' ∷ b':' ∷ x ∷ t) ≡ qname_loop true t
unfolding valid_qname qname_loop
colons_first x t h = rw h refl

valid_qname-spelled :
    (global : Bool) (name : Bytes) (names : List Bytes)
    → IsIdent name
    → All IsIdent names
    → valid_qname (spelled global name names) ≡ true
valid_qname-spelled global [] names h g = absurd h
valid_qname-spelled true (x ∷ s) names (hx, h) g =
    colons_first x (s ++ qualified names) hx ∙ qname_loop-qualified names s h g
valid_qname-spelled false (x ∷ s) names (hx, h) g =
    ident_first x (s ++ qualified names) hx ∙ qname_loop-qualified names s h g

qname_loop-IsIdent :
    (s : Bytes)
    → qname_loop false s ≡ true
    → (name : Bytes) × (names : List Bytes) × (s ≡ name ++ qualified names)
      × IsIdent name
      × All IsIdent names
qname_loop-IsIdent [] h = absurd (unfold qname_loop in cc)
qname_loop-IsIdent (x ∷ s) h =
    let (start, l) = start_step x s h in
    let (w, names, p, a, g) = qname_loop-Parsed s l in
    (x ∷ w, names, ap (λ t. x ∷ t) p, (start, a), g)

qname_cases :
    (c d : ℕ) (s : Bytes)
    → valid_qname (c ∷ d ∷ s) ≡ true
    → ((c ≡ b':') × (d ≡ b':') × (qname_loop false s ≡ true))
      ⊎ (qname_loop false (c ∷ d ∷ s) ≡ true)
unfolding valid_qname
qname_cases c d s h = elim (Bool-cases (c == b':')) [
  | inl e ↦ inl (unfold qname_loop in ground arith)
  | inr e ↦ inr (rw e at h)
]

valid_qname-IsIdent :
    (s : Bytes)
    → valid_qname s ≡ true
    → (global : Bool) × (name : Bytes) × (names : List Bytes) × (s ≡ spelled global name names)
      × IsIdent name
      × All IsIdent names
valid_qname-IsIdent [] h = absurd (unfold valid_qname in cc)
valid_qname-IsIdent (c ∷ []) h =
    let (name, names, p, i, g) = qname_loop-IsIdent (c ∷ []) (unfold valid_qname in h) in
    (false, name, names, p, i, g)
valid_qname-IsIdent (c ∷ d ∷ s) h = elim (qname_cases c d s h) [
  | inl (ce, de, l) ↦
      let (name, names, p, i, g) = qname_loop-IsIdent s l in (true, name, names, cc, i, g)
  | inr l ↦
      let (name, names, p, i, g) = qname_loop-IsIdent (c ∷ d ∷ s) l in (false, name, names, p, i, g)
]

-- The characters of an identifier of C++.
abbrev pub IsStart : ℕ → Type 0
IsStart c = ((b'A' ≤ c) × (c ≤ b'Z')) ⊎ ((b'a' ≤ c) × (c ≤ b'z')) ⊎ (c ≡ b'_')

abbrev pub IsLater : ℕ → Type 0
IsLater c = IsStart c ⊎ ((b'0' ≤ c) × (c ≤ b'9'))

abbrev pub IsIdentifier : Bytes → Type 0
IsIdentifier [] = ⊥
IsIdentifier (c ∷ s) = IsStart c × All IsLater s

IsStart-iff :
    (c : ℕ) → (valid_ident_start c ≡ true → IsStart c) × (IsStart c → valid_ident_start c ≡ true)
unfolding valid_ident_start
IsStart-iff c = (λ h. ground arith, λ h. ground arith)

IsLater-iff : (c : ℕ) → (IsCont c → IsLater c) × (IsLater c → IsCont c)
unfolding valid_ident_cont
IsLater-iff c = (λ h. ground (arith, (IsStart-iff c).0), λ h. ground (arith, (IsStart-iff c).1))

All-map {ℓ κ} :
    {A : Type ℓ} {P Q : A → Type κ} (f : (a : A) → P a → Q a) (xs : List A) → All P xs → All Q xs
All-map f [] h = tt
All-map f (x ∷ xs) (hx, h) = (f x hx, All-map f xs h)

IsIdentifier-iff : (s : Bytes) → (IsIdent s → IsIdentifier s) × (IsIdentifier s → IsIdent s)
IsIdentifier-iff [] = (λ h. h, λ h. h)
IsIdentifier-iff (c ∷ s) = (
  λ (h, hs). ((IsStart-iff c).0 h, All-map (λ d. (IsLater-iff d).0) s hs),
  λ (h, hs). ((IsStart-iff c).1 h, All-map (λ d. (IsLater-iff d).1) s hs),
)

-- One identifier or several with `::` between them, with an optional `::` in front.
abbrev pub IsQName : Bytes → Type 0
IsQName s =
    (global : Bool) × (name : Bytes) × (names : List Bytes) × (s ≡ spelled global name names)
    × IsIdentifier name
    × All IsIdentifier names

-- A name is taken, and becomes the text of the expression, exactly when it is one identifier or
-- several with `::` between them, with an optional `::` in front, where an identifier begins with a
-- letter or an underscore and goes on with these and digits.
pub qname_expr-IsQName : (s : Bytes) → (qname_expr s ≡ some (raw s)) ↔ IsQName s
unfolding qname_expr
qname_expr-IsQName s = (
  λ h. elim (Bool-cases (valid_qname s)) [
    | inl e ↦
        let (global, name, names, p, i, g) = valid_qname-IsIdent s e in
        (
          global,
          name,
          names,
          p,
          (IsIdentifier-iff name).0 i,
          All-map (λ n. (IsIdentifier-iff n).0) names g,
        )
    | inr e ↦ absurd (ground arith)
  ],
  λ (global, name, names, p, i, g).
      rw
        (
          p,
          valid_qname-spelled global name names ((IsIdentifier-iff name).1 i)
              (All-map (λ n. (IsIdentifier-iff n).1) names g),
        )
        refl,
)
