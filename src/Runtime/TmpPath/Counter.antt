-- ===== src/Runtime/TmpPath/Counter.antt =====
-- runtime/io.c: the names count upwards in base 26, so none is given twice.
use mathlib.Core.List.{reverse, reverse_aux, reverse-append, reverse-cons, reverse-reverse}
use mathlib.Core.Option
use Prim.{⊥}
use doarr.Base.{
  ℕ, zero, suc, ◌+◌, ◌-◌, ◌*◌, ◌≤◌, ◌<◌, Bytes, Option, none, some, [], ◌∷◌, ◌++◌, ◌≡◌, ◌≢◌, refl,
  sym, ap, ◌∙◌, arith, All, All-of_reverse, length, Option-cases, inl, inr, Bool-cases,
  append_assoc, ◌==◌, subst,
}
use doarr.Runtime.TmpPath.{IoCtx, inc_back, tmp_path_inc, doarr_tmp_path}

abbrev pub IsDigit : ℕ → Type 0
IsDigit c = (b'a' ≤ c) × (c ≤ b'z')

-- The number that digits spell, the lowest digit first.
abbrev pub low_first : Bytes → ℕ
low_first [] = 0
low_first (c ∷ ds) = c - b'a' + 26 * low_first ds

-- How many numbers the digits can spell.
abbrev pub places : ℕ → ℕ
places zero = 1
places (suc n) = 26 * places n

inc_back-none :
    (ds rest : Bytes)
    → All IsDigit ds
    → inc_back (ds ++ b'/' ∷ rest) ≡ none
    → low_first ds + 1 ≡ places (length ds)
unfolding inc_back
inc_back-none [] rest h e = refl
inc_back-none (c ∷ ds) rest (hc, h) e = elim (Option-cases (inc_back (ds ++ b'/' ∷ rest))) [
  | inl n ↦ ground (arith, inc_back-none ds rest h n)
  | inr (x, n) ↦ ground arith
]

inc_back-some :
    (ds rest out : Bytes)
    → All IsDigit ds
    → inc_back (ds ++ b'/' ∷ rest) ≡ some out
    → (ds' : Bytes) × (out ≡ ds' ++ b'/' ∷ rest)
      × All IsDigit ds'
      × (low_first ds' ≡ low_first ds + 1)
      × (length ds' ≡ length ds)
unfolding inc_back
inc_back-some [] rest out h e = cc
inc_back-some (c ∷ ds) rest out (hc, h) e = elim (Bool-cases (c == b'z')) [
  | inl z ↦ elim (Option-cases (inc_back (ds ++ b'/' ∷ rest))) [
    | inl n ↦ ground (arith, z, n)
    | inr (x, n) ↦
        let (ds', o, d, v, l) = inc_back-some ds rest x h n in
        (
          b'a' ∷ ds',
          ground (arith, z, n, o),
          ((omega arith, omega arith), d),
          ground (arith, z, v),
          omega (arith, l),
        )
  ]
  | inr nz ↦
      let up : (b'a' ≤ c + 1) × (c + 1 ≤ b'z') = ground (arith, nz) in
      ((c + 1) ∷ ds, ground (arith, nz), (up, h), ground (arith, nz), refl)
]

abbrev pub path_of : Bytes → Bytes → IoCtx
path_of dir ds = record { tmp_path = dir ++ b'/' ∷ ds }

-- The number that digits spell.
abbrev pub number : Bytes → ℕ
number ds = low_first (reverse ds)

length-low_first : (ds : Bytes) → All IsDigit ds → low_first ds < places (length ds)
length-low_first [] h = ground arith
length-low_first (c ∷ ds) (hc, h) = omega (arith, length-low_first ds h)

reverse-path : (dir ds : Bytes) → reverse (dir ++ b'/' ∷ ds) ≡ reverse ds ++ b'/' ∷ reverse dir
reverse-path dir ds = cc (
  reverse-append dir (b'/' ∷ ds),
  reverse-cons (b'/') ds,
  append_assoc (reverse ds) (b'/' ∷ []) (reverse dir),
)

length-reverse_aux : (xs acc : Bytes) → length (reverse_aux xs acc) ≡ length xs + length acc
length-reverse_aux [] acc = omega arith
length-reverse_aux (x ∷ xs) acc = omega (arith, length-reverse_aux xs (x ∷ acc))

length-reverse_lem : (xs : Bytes) → length (reverse xs) ≡ length xs
length-reverse_lem xs = omega (arith, length-reverse_aux xs [])

-- The path behind the last slash is a number in base 26, written with the letters.
tmp_path_inc-adds :
    (dir ds : Bytes)
    → All IsDigit ds
    → number ds + 1 < places (length ds)
    → (ds' : Bytes) × (tmp_path_inc (path_of dir ds) ≡ some (path_of dir ds'))
      × All IsDigit ds'
      × (number ds' ≡ number ds + 1)
      × (length ds' ≡ length ds)
unfolding tmp_path_inc
tmp_path_inc-adds dir ds h more =
    let h' : All IsDigit (reverse ds) =
      All-of_reverse IsDigit (reverse ds) (subst (All IsDigit) (sym (reverse-reverse ds)) h) in
    elim (Option-cases (inc_back (reverse ds ++ b'/' ∷ reverse dir))) [
      | inl n ↦
          let full : ⊥ = omega (
            arith,
            inc_back-none (reverse ds) (reverse dir) h' n,
            ap places (length-reverse_lem ds),
          ) in
          elim full [ ]
      | inr (out, e) ↦
          let (up, o, d, v, l) = inc_back-some (reverse ds) (reverse dir) out h' e in
          (
            reverse up,
            cc (reverse-path dir ds, e, o, reverse-path up (reverse dir), reverse-reverse dir),
            All-of_reverse IsDigit (reverse up) (subst (All IsDigit) (sym (reverse-reverse up)) d),
            ap low_first (reverse-reverse up) ∙ v,
            omega (arith, length-reverse_lem up, length-reverse_lem ds),
          )
    ]

-- The context after `k` calls.
abbrev pub calls : ℕ → IoCtx → Option IoCtx
calls zero ctx = some ctx
calls (suc k) ctx = Option.bind (tmp_path_inc ctx) (calls k)

calls-some :
    (dir ds : Bytes) (k : ℕ)
    → All IsDigit ds
    → number ds + k < places (length ds)
    → (ds' : Bytes) × (calls k (path_of dir ds) ≡ some (path_of dir ds'))
      × All IsDigit ds'
      × (number ds' ≡ number ds + k)
      × (length ds' ≡ length ds)
unfolding Option.bind
calls-some dir ds zero h room = (ds, refl, h, omega arith, refl)
calls-some dir ds (suc k) h room =
    let (d1, e1, h1, n1, l1) = tmp_path_inc-adds dir ds h (omega arith) in
    let (d2, e2, h2, n2, l2) = calls-some dir d1 k h1 (rw l1 (omega arith)) in
    (d2, cc, h2, omega arith, omega arith)

-- The name that the call after `k` others gives.
abbrev pub name_after : ℕ → Bytes → IoCtx → Option Bytes
name_after k ext ctx =
    Option.bind (calls k ctx) (λ later. Option.map (λ result. result.0) (doarr_tmp_path later ext))

prefix-eq : (xs ys s t : Bytes) → length xs ≡ length ys → xs ++ s ≡ ys ++ t → xs ≡ ys
prefix-eq [] [] s t l e = refl
prefix-eq [] (y ∷ ys) s t l e = ground arith
prefix-eq (x ∷ xs) [] s t l e = ground arith
prefix-eq (x ∷ xs) (y ∷ ys) s t l e = ground (arith, prefix-eq xs ys s t)

path-prefix :
    (dir xs ys s t : Bytes)
    → length xs ≡ length ys
    → (dir ++ b'/' ∷ xs) ++ s ≡ (dir ++ b'/' ∷ ys) ++ t
    → xs ≡ ys
path-prefix [] xs ys s t l e = prefix-eq xs ys s t l (cc)
path-prefix (c ∷ dir) xs ys s t l e = path-prefix dir xs ys s t l (cc)

name_after_lem :
    (dir ds ext : Bytes) (k : ℕ)
    → All IsDigit ds
    → number ds + k + 1 < places (length ds)
    → (ds' : Bytes) × (name_after k ext (path_of dir ds) ≡ some ((dir ++ b'/' ∷ ds') ++ ext))
      × (number ds' ≡ number ds + k)
      × (length ds' ≡ length ds)
unfolding doarr_tmp_path Option.bind
name_after_lem dir ds ext k h room =
    let (d1, e1, h1, n1, l1) = calls-some dir ds k h (omega arith) in
    let (d2, e2, h2, n2, l2) = tmp_path_inc-adds dir d1 h1 (rw l1 (omega arith)) in (d1, cc, n1, l1)

-- The number in a name counts the calls: where the letters behind the directory leave room for `k`
-- more names, a call now and the call after `k` others both give a name, with any extensions, and
-- the two names differ.
pub tmp_path-differs :
    (dir ds ext ext' : Bytes) (k : ℕ)
    → 0 < k
    → All IsDigit ds
    → number ds + k + 1 < places (length ds)
    → (first later : Bytes) × (name_after 0 ext (path_of dir ds) ≡ some first)
      × (name_after k ext' (path_of dir ds) ≡ some later)
      × (first ≢ later)
tmp_path-differs dir ds ext ext' k some_calls h room =
    let (d1, e1, n1, l1) = name_after_lem dir ds ext 0 h (omega arith) in
    let (d2, e2, n2, l2) = name_after_lem dir ds ext' k h room in
    (
      (dir ++ b'/' ∷ d1) ++ ext,
      (dir ++ b'/' ∷ d2) ++ ext',
      e1,
      e2,
      λ e. omega (arith, ap number (path-prefix dir d1 d2 ext ext' (l1 ∙ sym l2) e)),
    )
