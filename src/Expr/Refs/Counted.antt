-- ===== src/Expr/Refs/Counted.antt =====
-- include/doarr/expr_base.hpp: every count is the number of handles.
use doarr.Base.{
  ℕ, zero, suc, ◌+◌, ◌-◌, ◌≤◌, ◌≡◌, true, false, some, List, [], ◌∷◌, ◌++◌, ◌==◌, length,
  length-append, if◌then◌else◌, arith, refl, sym, ◌∙◌, Bool-cases, inl, inr, ==_iff, ==_refl,
  append_assoc, subst,
}
use doarr.Expr.Refs.{Heap, put_count, remove, decref_all}

-- The number of times that an object is in a list.
abbrev pub occ : ℕ → List ℕ → ℕ
occ x [] = 0
occ x (o ∷ os) = (if x == o then 1 else 0) + occ x os

pub occ-append : (x : ℕ) (as' bs : List ℕ) → occ x (as' ++ bs) ≡ occ x as' + occ x bs
occ-append x [] bs = omega arith
occ-append x (a ∷ as') bs = omega (arith, occ-append x as' bs)

occ-remove :
    (x o : ℕ) (live : List ℕ)
    → 1 ≤ occ o live
    → occ x (remove o live) + (if x == o then 1 else 0) ≡ occ x live
occ-remove x o [] h = absurd (omega arith)
occ-remove x o (p ∷ live) h = elim (Bool-cases (o == p)) [
  | inl e ↦ ground arith
  | inr e ↦ let rest : 1 ≤ occ o live = ground arith in ground (arith, occ-remove x o live rest)
]

module _ (members : ℕ → List ℕ) where
  -- The handles inside the objects.
  abbrev pub occ_all : ℕ → List ℕ → ℕ
  occ_all x [] = 0
  occ_all x (p ∷ live) = occ x (members p) + occ_all x live

  abbrev pub size : List ℕ → ℕ
  size [] = 0
  size (p ∷ live) = length (members p) + size live

  occ_all-remove :
      (x o : ℕ) (live : List ℕ)
      → 1 ≤ occ o live
      → occ_all x live ≡ occ x (members o) + occ_all x (remove o live)
  occ_all-remove x o [] h = absurd (omega arith)
  occ_all-remove x o (p ∷ live) h = elim (Bool-cases (o == p)) [
    | inl e ↦ let same : o ≡ p = (==_iff o p).0 e in rw (e, same) refl
    | inr e ↦
        let rest : 1 ≤ occ o live = ground arith in
        rw e (omega (arith, occ_all-remove x o live rest))
  ]

  size-remove :
      (o : ℕ) (live : List ℕ)
      → 1 ≤ occ o live
      → size live ≡ length (members o) + size (remove o live)
  size-remove o [] h = absurd (omega arith)
  size-remove o (p ∷ live) h = elim (Bool-cases (o == p)) [
    | inl e ↦ let same : o ≡ p = (==_iff o p).0 e in rw (e, same) refl
    | inr e ↦
        let rest : 1 ≤ occ o live = ground arith in rw e (omega (arith, size-remove o live rest))
  ]

  -- Each count is the number of handles to the object, those in `held` and those inside objects; and
  -- the objects that have not been deleted are those with a handle, each once.
  pub record IsCounted (held : List ℕ) (h : Heap) : Type 0 where
    pub counted : (x : ℕ) → h.refcount x ≡ occ x held + occ_all x h.live
    pub alive : (x : ℕ) → occ x h.live ≡ (if h.refcount x == 0 then 0 else 1)

  pub own_count :
      (o : ℕ) (held : List ℕ) (h : Heap)
      → IsCounted (o ∷ held) h
      → h.refcount o ≡ 1 + (occ o held + occ_all o h.live)
  own_count o held h c =
      let k : h.refcount o ≡ ((if o == o then 1 else 0) + occ o held) + occ_all o h.live =
        c.counted o in
      let k' : h.refcount o ≡ (1 + occ o held) + occ_all o h.live = rw (==_refl o) at k in
      omega (arith, k')

  other_count :
      (x o : ℕ) (held : List ℕ) (h : Heap)
      → IsCounted (o ∷ held) h
      → (x == o) ≡ false
      → h.refcount x ≡ occ x held + occ_all x h.live
  other_count x o held h c s =
      let k : h.refcount x ≡ ((if x == o then 1 else 0) + occ x held) + occ_all x h.live =
        c.counted x in
      let k' : h.refcount x ≡ (0 + occ x held) + occ_all x h.live = rw s at k in omega (arith, k')

  kept-IsCounted :
      (o : ℕ) (held : List ℕ) (h : Heap)
      → IsCounted (o ∷ held) h
      → (h.refcount o == 1) ≡ false
      → IsCounted held (record h { refcount = put_count o (h.refcount o - 1) h.refcount })
  kept-IsCounted o held h c e =
      let own = own_count o held h c in
      record {
        counted = λ x. elim (Bool-cases (x == o)) [
          | inl s ↦ let same : x ≡ o = (==_iff x o).0 s in rw (s, same) (omega (arith, own))
          | inr s ↦ rw s (other_count x o held h c s)
        ];
        alive = λ x. elim (Bool-cases (x == o)) [
          | inl s ↦
              let same : x ≡ o = (==_iff x o).0 s in
              let k : occ o h.live ≡ (if h.refcount o == 0 then 0 else 1) = c.alive o in
              rw (s, same) (ground (arith, own, e, k))
          | inr s ↦ rw s (c.alive x)
        ];
      }

  live_once : (o : ℕ) (held : List ℕ) (h : Heap) → IsCounted (o ∷ held) h → occ o h.live ≡ 1
  live_once o held h c =
      let own = own_count o held h c in
      let k : occ o h.live ≡ (if h.refcount o == 0 then 0 else 1) = c.alive o in
      ground (arith, own, k)

  deleted-IsCounted :
      (o : ℕ) (held : List ℕ) (h : Heap)
      → IsCounted (o ∷ held) h
      → (h.refcount o == 1) ≡ true
      → IsCounted
          (members o ++ held)
          (record { refcount = put_count o 0 h.refcount; live = remove o h.live })
  deleted-IsCounted o held h c e =
      let own = own_count o held h c in
      let one : h.refcount o ≡ 1 = (==_iff (h.refcount o) 1).0 e in
      let there = live_once o held h c in
      let there' : 1 ≤ occ o h.live = omega (arith, there) in
      record {
        counted = λ x.
            let split = occ_all-remove x o h.live there' in
            let joined = occ-append x (members o) held in
            elim (Bool-cases (x == o)) [
              | inl s ↦
                  let same : x ≡ o = (==_iff x o).0 s in
                  let split = occ_all-remove o o h.live there' in
                  let joined = occ-append o (members o) held in
                  rw (s, same) (omega (arith, own, one, split, joined))
              | inr s ↦ rw s (omega (arith, other_count x o held h c s, split, joined))
            ];
        alive = λ x. elim (Bool-cases (x == o)) [
          | inl s ↦
              let same : x ≡ o = (==_iff x o).0 s in
              let left : occ o (remove o h.live) + 1 ≡ occ o h.live =
                rw (==_refl o) at (occ-remove o o h.live there') in
              rw (s, same) (omega (arith, left, there))
          | inr s ↦
              let left : occ x (remove o h.live) + 0 ≡ occ x h.live =
                rw s at (occ-remove x o h.live there') in
              let left' : occ x (remove o h.live) ≡ occ x h.live = omega (arith, left) in
              rw s (left' ∙ c.alive x)
        ];
      }

  -- With fuel for the handles in `os` and inside the objects, every decref is done.
  pub decref_all-IsCounted :
      (fuel : ℕ) (os held : List ℕ) (h : Heap)
      → IsCounted (os ++ held) h
      → length os + size h.live ≤ fuel
      → (h' : Heap) × (decref_all members fuel os h ≡ some h') × IsCounted held h'
  unfolding decref_all
  decref_all-IsCounted fuel [] held h c l = (h, refl, c)
  decref_all-IsCounted zero (o ∷ os) held h c l = absurd (omega arith)
  decref_all-IsCounted (suc fuel) (o ∷ os) held h c l = elim (Bool-cases (h.refcount o == 1)) [
    | inl e ↦
        let h1 : Heap = record { refcount = put_count o 0 h.refcount; live = remove o h.live } in
        let c1 : IsCounted ((members o ++ os) ++ held) h1 =
          subst (λ held. IsCounted held h1) (sym (append_assoc (members o) os held))
            (deleted-IsCounted o (os ++ held) h c e) in
        let (h', ends, c') = decref_all-IsCounted fuel (members o ++ os) held h1 c1 (
          omega (
            arith,
            l,
            length-append (members o) os,
            size-remove o h.live (omega (arith, live_once o (os ++ held) h c)),
          )) in
        (h', rw e ends, c')
    | inr e ↦
        let h1 : Heap = record h { refcount = put_count o (h.refcount o - 1) h.refcount } in
        let (h', ends, c') =
          decref_all-IsCounted fuel os held h1 (kept-IsCounted o (os ++ held) h c e)
            (omega arith) in
        (h', rw e ends, c')
  ]
