-- ===== src/Expr/Refs/Assign.antt =====
-- include/doarr/expr_base.hpp: the assignments of class expr.
use mathlib.Core.Option
use doarr.Base.{
  ℕ, ◌+◌, ◌≤◌, ◌≡◌, Option, none, some, List, ◌∷◌, ◌++◌, ◌==◌, length, if◌then◌else◌, arith, refl,
  ap, ◌∙◌, Bool-cases, inl, inr, ==_iff,
}
use doarr.Expr.Refs.{
  Heap, incref, handle, decref, copy_assign, move_assign, copy_construct, allocate,
}
use doarr.Expr.Refs.Counted.{
  occ, occ_all, size, occ-append, own_count, IsCounted, decref_all-IsCounted,
}

module _ (members : ℕ → List ℕ) where
  reordered-IsCounted :
      (held held' : List ℕ) (h : Heap)
      → ((x : ℕ) → occ x held ≡ occ x held')
      → IsCounted members held h
      → IsCounted members held' h
  reordered-IsCounted held held' h e c = record {
    counted = λ x. c.counted x ∙ ap (λ n. n + occ_all members x h.live) (e x);
    alive = c.alive;
  }

  incref-IsCounted :
      (o : ℕ) (held : List ℕ) (h : Heap)
      → IsCounted members (o ∷ held) h
      → IsCounted members (o ∷ o ∷ held) (incref (some o) h)
  unfolding incref
  incref-IsCounted o held h c =
      let own = own_count members o held h c in
      record {
        counted = λ x.
            let k : h.refcount x
                ≡ ((if x == o then 1 else 0) + occ x held) + occ_all members x h.live =
              c.counted x in
            elim (Bool-cases (x == o)) [
              | inl s ↦
                  let same : x ≡ o = (==_iff x o).0 s in
                  rw s (
                    omega (
                      arith,
                      own,
                      ap (λ y. occ y held) same,
                      ap (λ y. occ_all members y h.live) same,
                    ))
              | inr s ↦
                  let k' : h.refcount x ≡ (0 + occ x held) + occ_all members x h.live = rw s at k in
                  rw s (omega (arith, k'))
            ];
        alive = λ x. elim (Bool-cases (x == o)) [
          | inl s ↦
              let same : x ≡ o = (==_iff x o).0 s in
              let k : occ o h.live ≡ (if h.refcount o == 0 then 0 else 1) = c.alive o in
              rw (s, same) (ground (arith, own, k))
          | inr s ↦ rw s (c.alive x)
        ];
      }

  -- A copy of a handle that is held, in front.
  incref-handle :
      (src : Option ℕ) (held : List ℕ) (h : Heap)
      → IsCounted members (handle members src ++ held) h
      → IsCounted members (handle members src ++ (handle members src ++ held)) (incref src h)
  unfolding incref
  incref-handle none held h c = c
  incref-handle (some o) held h c = incref-IsCounted o held h c

  size-incref : (src : Option ℕ) (h : Heap) → size members (incref src h).live ≡ size members h.live
  unfolding incref
  size-incref none h = refl
  size-incref (some o) h = refl

  length-handle : (impl : Option ℕ) → length (handle members impl) ≤ 1
  length-handle none = omega arith
  length-handle (some o) = omega arith

  occ-swap : (x : ℕ) (a b c : List ℕ) → occ x (a ++ (b ++ c)) ≡ occ x (b ++ (a ++ c))
  occ-swap x a b c =
      omega (
        arith,
        occ-append x a (b ++ c),
        occ-append x b c,
        occ-append x b (a ++ c),
        occ-append x a c,
      )

  -- What the assignments make of a heap in which every count is right.
  pub Assigns : ℕ → Option ℕ → Option ℕ → List ℕ → Heap → Type 0
  Assigns fuel impl src held h =
      ((h' : Heap) × (copy_assign members fuel impl src h ≡ some (src, h'))
        × IsCounted members (handle members src ++ (handle members src ++ held)) h')
      × ((h' : Heap) × (move_assign members fuel impl src h ≡ some (src, none, h'))
          × IsCounted members (handle members src ++ held) h')

  -- When every reference count is the number of handles, and the objects that have not been deleted
  -- are those with a handle, then both are so again behind an assignment, by copy and by move, to
  -- another variable; and with fuel for one handle more than stand inside the objects the assignment
  -- ends, whatever objects it deletes.
  pub assign-IsCounted :
      (fuel : ℕ) (impl src : Option ℕ) (held : List ℕ) (h : Heap)
      → IsCounted members (handle members impl ++ (handle members src ++ held)) h
      → 1 + size members h.live ≤ fuel
      → Assigns fuel impl src held h
  unfolding Assigns copy_assign move_assign decref
  assign-IsCounted fuel impl src held h c l =
      let a = handle members impl in
      let b = handle members src in
      let c1 =
        reordered-IsCounted (a ++ (b ++ held)) (b ++ (a ++ held)) h (λ x. occ-swap x a b held) c in
      let c2 = incref-handle src (a ++ held) h c1 in
      let c3 =
        reordered-IsCounted (b ++ (b ++ (a ++ held))) (a ++ (b ++ (b ++ held))) (incref src h)
          (λ x. omega (
            arith,
            occ-append x b (b ++ (a ++ held)),
            occ-append x b (a ++ held),
            occ-append x a held,
            occ-append x a (b ++ (b ++ held)),
            occ-append x b (b ++ held),
            occ-append x b held,
          ))
          c2 in
      let (h1, e1, d1) =
        decref_all-IsCounted members fuel a (b ++ (b ++ held)) (incref src h) c3
          (omega (arith, l, size-incref src h, length-handle impl)) in
      let (h2, e2, d2) =
        decref_all-IsCounted members fuel a (b ++ held) h c
          (omega (arith, l, length-handle impl)) in
      (
        (h1, ap (Option.map (λ h'. (src, h'))) e1, d1),
        (h2, ap (Option.map (λ h'. (src, none, h'))) e2, d2),
      )

  -- The same for a variable that is assigned to itself by copy: nothing is deleted in between.
  pub self_assign-IsCounted :
      (fuel : ℕ) (impl : Option ℕ) (held : List ℕ) (h : Heap)
      → IsCounted members (handle members impl ++ held) h
      → 1 + size members h.live ≤ fuel
      → (h' : Heap) × (copy_assign members fuel impl impl h ≡ some (impl, h'))
        × IsCounted members (handle members impl ++ held) h'
  unfolding copy_assign decref
  self_assign-IsCounted fuel impl held h c l =
      let a = handle members impl in
      let (h1, e1, d1) =
        decref_all-IsCounted members fuel a (a ++ held) (incref impl h)
          (incref-handle impl held h c)
          (omega (arith, l, size-incref impl h, length-handle impl)) in
      (h1, ap (Option.map (λ h'. (impl, h'))) e1, d1)

  -- The same for a copy and for the end of a variable.
  pub copy_construct-IsCounted :
      (src : Option ℕ) (held : List ℕ) (h : Heap)
      → IsCounted members (handle members src ++ held) h
      → IsCounted members
          (handle members (copy_construct src h).0 ++ (handle members src ++ held))
          (copy_construct src h).1
  unfolding copy_construct
  copy_construct-IsCounted src held h c = incref-handle src held h c

  pub decref-IsCounted :
      (fuel : ℕ) (impl : Option ℕ) (held : List ℕ) (h : Heap)
      → IsCounted members (handle members impl ++ held) h
      → 1 + size members h.live ≤ fuel
      → (h' : Heap) × (decref members fuel impl h ≡ some h') × IsCounted members held h'
  unfolding decref
  decref-IsCounted fuel impl held h c l =
      decref_all-IsCounted members fuel (handle members impl) held h c
        (omega (arith, l, length-handle impl))

  -- A new object takes over the handles that are moved into it, and has one itself.
  pub allocate-IsCounted :
      (o : ℕ) (held : List ℕ) (h : Heap)
      → IsCounted members (members o ++ held) h
      → h.refcount o ≡ 0
      → IsCounted members (o ∷ held) (allocate o h)
  unfolding allocate
  allocate-IsCounted o held h c fresh =
      let own = c.counted o in
      let joined = occ-append o (members o) held in
      let none_left : occ o held + (occ o (members o) + occ_all members o h.live) ≡ 0 =
        omega (arith, own, joined, fresh) in
      let dead : occ o h.live ≡ (if h.refcount o == 0 then 0 else 1) = c.alive o in
      let dead' : occ o h.live ≡ 0 = rw fresh at dead in
      record {
        counted = λ x. elim (Bool-cases (x == o)) [
          | inl s ↦
              let same : x ≡ o = (==_iff x o).0 s in
              rw s (
                omega (
                  arith,
                  none_left,
                  ap (λ y. occ y held) same,
                  ap (λ y. occ y (members o)) same,
                  ap (λ y. occ_all members y h.live) same,
                ))
          | inr s ↦ rw s (omega (arith, c.counted x, occ-append x (members o) held))
        ];
        alive = λ x. elim (Bool-cases (x == o)) [
          | inl s ↦
              let same : x ≡ o = (==_iff x o).0 s in
              rw s (omega (arith, dead', ap (λ y. occ y h.live) same))
          | inr s ↦ rw s (omega (arith, c.alive x))
        ];
      }
