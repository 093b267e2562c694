-- ===== src/Files/Map.antt =====
-- dcc/dcc_util.c: the contents of a temporary file in memory.
use doarr.Base.{
  ◌≡◌, Bytes, Option, none, some, [], ◌∷◌, length, ◌==◌, if◌then◌else◌, arith, refl, Option-cases,
  Bool-cases, inl, inr, ap, subst, ◌∙◌, sym, take-length_self,
}
use doarr.Files.Os.{Os, IsLawful, Quiet}

module _ (os : Os) where
  -- The bytes that are mapped, or `none` for an error. An empty file is not mapped.
  unfoldable pub map_open : os.Fd → os.World → Option Bytes × os.World
  map_open fd w =
      let (size, w2) = os.lseek_end fd w in
      elim size [
        | none ↦ (none, (os.close fd w2).1)
        | some n ↦
            if n == 0
            then (some [], w2)
            else (let (mapped, w3) = os.mmap fd n w2 in (mapped, (os.close fd w3).1))
      ]

  unfoldable pub dcc_map : Bytes → os.World → Option Bytes × os.World
  unfolding map_open
  dcc_map name w =
      let (opened, w1) = os.openat name w in
      elim opened [ none ↦ (none, w1) | some fd ↦ map_open fd w1 ]

  unfoldable pub dcc_unmap : Bytes → os.World → os.World
  dcc_unmap [] w = w
  dcc_unmap (c ∷ d) w = os.munmap (c ∷ d) w

length_zero : (xs : Bytes) → length xs ≡ 0 → [] ≡ xs
length_zero [] e = refl
length_zero (x ∷ xs) e = absurd (omega arith)

pub Quiet-trans : (os : Os) (w1 w2 w3 : os.World) → Quiet os w1 w2 → Quiet os w2 w3 → Quiet os w1 w3
Quiet-trans os w1 w2 w3 (s, o) (s', o') = (λ name d e. s name d (s' name d e), λ fd. o' fd ∙ o fd)

module _ (os : Os) (lawful : IsLawful os) where
  map_open-Quiet : (fd : os.Fd) (w : os.World) → Quiet os w (map_open os fd w).1
  unfolding map_open
  map_open-Quiet fd w =
      let w2 : os.World = (os.lseek_end fd w).1 in
      let q = lawful.lseek_end-Quiet fd w in
      elim (Option-cases (os.lseek_end fd w).0) [
        | inl e ↦
            let same : (os.close fd w2).1 ≡ (map_open os fd w).1 = ground arith in
            subst (Quiet os w) same (Quiet-trans os w w2 _ q (lawful.close-Quiet fd w2))
        | inr (n, e) ↦
            let w3 : os.World = (os.mmap fd n w2).1 in
            elim (Bool-cases (n == 0)) [
              | inl z ↦
                  let same : w2 ≡ (map_open os fd w).1 = ground arith in subst (Quiet os w) same q
              | inr nz ↦
                  let same : (os.close fd w3).1 ≡ (map_open os fd w).1 = ground arith in
                  subst (Quiet os w) same (
                    Quiet-trans os w w2 _ q (
                      Quiet-trans os w2 w3 _ (lawful.mmap-Quiet fd n w2)
                        (lawful.close-Quiet fd w3)))
            ]
      ]

  pub dcc_map-Quiet : (name : Bytes) (w : os.World) → Quiet os w (dcc_map os name w).1
  unfolding dcc_map
  dcc_map-Quiet name w =
      let w1 : os.World = (os.openat name w).1 in
      elim (Option-cases (os.openat name w).0) [
        | inl e ↦
            let same : w1 ≡ (dcc_map os name w).1 = ground arith in
            subst (Quiet os w) same (lawful.openat-Quiet name w)
        | inr (fd, e) ↦
            let same : (map_open os fd w1).1 ≡ (dcc_map os name w).1 = ground arith in
            subst (Quiet os w) same
              (Quiet-trans os w w1 _ (lawful.openat-Quiet name w) (map_open-Quiet fd w1))
      ]

  pub dcc_unmap-Quiet : (d : Bytes) (w : os.World) → Quiet os w (dcc_unmap os d w)
  unfolding dcc_unmap
  dcc_unmap-Quiet [] w = (λ name d e. e, λ fd. refl)
  dcc_unmap-Quiet (c ∷ d) w = lawful.munmap-Quiet (c ∷ d) w

  map_open-eq_some :
      (fd : os.Fd) (w : os.World) (d : Bytes) → (map_open os fd w).0 ≡ some d → d ≡ os.contents w fd
  unfolding map_open
  map_open-eq_some fd w d h = elim (Option-cases (os.lseek_end fd w).0) [
    | inl e ↦ absurd (ground arith)
    | inr (n, e) ↦
        let (size, same) = lawful.lseek_end_size fd w n e in
        elim (Bool-cases (n == 0)) [
          | inl z ↦
              let empty : d ≡ [] = ground arith in
              empty ∙ length_zero (os.contents w fd) (ground arith)
          | inr nz ↦
              lawful.mmap_shows fd n (os.lseek_end fd w).1 d (ground arith)
              ∙ rw (same, size) (take-length_self (os.contents w fd))
        ]
  ]

  -- What is mapped is the file.
  pub dcc_map-eq_some :
      (name : Bytes) (w : os.World) (d : Bytes)
      → (dcc_map os name w).0 ≡ some d
      → os.files w name ≡ some d
  unfolding dcc_map
  dcc_map-eq_some name w d h = elim (Option-cases (os.openat name w).0) [
    | inl e ↦ absurd (ground arith)
    | inr (fd, e) ↦
        lawful.openat_opens name w fd e
        ∙ ap some (sym (map_open-eq_some fd (os.openat name w).1 d (ground arith)))
  ]
