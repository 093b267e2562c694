-- ===== src/Files/NoLeftovers.antt =====
-- dcc/dcc_gen.c: no temporary file stays behind, whatever fails.
use mathlib.Core.Option
use doarr.Base.{
  ◌≡◌, Bytes, Bool, true, false, Option, none, some, List, [], ◌∷◌, All, arith, refl, Option-cases,
  Bool-cases, inl, inr,
}
use doarr.Files.Os.{Os, IsLawful, Clears, Shrinks}
use doarr.Files.Write.{dcc_write-Writes}
use doarr.Files.Map.{dcc_map, dcc_unmap, dcc_map-Quiet, dcc_unmap-Quiet}
use doarr.Files.Cat.{dcc_unlink_all, give_up, copy_mapped, cat_unlink_close, move_from_tmp}

pub gone :
    (os : Os) (w w' : os.World) (name : Bytes)
    → Shrinks os w w'
    → os.files w name ≡ none
    → os.files w' name ≡ none
gone os w w' name s e = elim (Option-cases (os.files w' name)) [
  | inl n ↦ n
  | inr (d, f) ↦ absurd (ground (arith, s name d f))
]

-- None of the files is in the temporary directory.
abbrev pub Gone : (os : Os) → List Bytes → os.World → Type 0
Gone os names w = All (λ name. os.files w name ≡ none) names

Shrinks-Gone :
    (os : Os) (w w' : os.World) (names : List Bytes)
    → Shrinks os w w'
    → Gone os names w
    → Gone os names w'
Shrinks-Gone os w w' [] s g = tt
Shrinks-Gone os w w' (name ∷ names) s (g, gs) =
    (gone os w w' name s g, Shrinks-Gone os w w' names s gs)

-- A result whose world has none of the files, and no others than before.
abbrev pub Removed : (os : Os) → List Bytes → os.World → os.World → Type 0
Removed os names w w' = Gone os names w' × Shrinks os w w'

Removed-then :
    (os : Os) (names : List Bytes) (w1 w2 w3 : os.World)
    → Shrinks os w1 w2
    → Removed os names w2 w3
    → Removed os names w1 w3
Removed-then os names w1 w2 w3 s (g, s') = (g, λ m c f. s m c (s' m c f))

Removed-after :
    (os : Os) (names : List Bytes) (w1 w2 w3 : os.World)
    → Removed os names w1 w2
    → Shrinks os w2 w3
    → Removed os names w1 w3
Removed-after os names w1 w2 w3 (g, s) s' =
    (Shrinks-Gone os w2 w3 names s' g, λ m c f. s m c (s' m c f))

Removed-cons :
    (os : Os) (name : Bytes) (names : List Bytes) (w1 w2 w3 : os.World)
    → os.files w2 name ≡ none
    → Shrinks os w1 w2
    → Removed os names w2 w3
    → Removed os (name ∷ names) w1 w3
Removed-cons os name names w1 w2 w3 e s (g, s') =
    ((gone os w2 w3 name s' e, g), λ m c f. s m c (s' m c f))

module _ (os : Os) (lawful : IsLawful os) (clears : Clears os) where
  dcc_unlink_all-Removed :
      (names : List Bytes) (w : os.World) → Removed os names w (dcc_unlink_all os names w).1
  unfolding dcc_unlink_all
  dcc_unlink_all-Removed [] w = (tt, λ m c f. f)
  dcc_unlink_all-Removed (name ∷ names) w =
      Removed-cons os name names w _ _ (clears name w) (lawful.unlinkat-Quiet name w).0
        (dcc_unlink_all-Removed names (os.unlinkat name w).1)

  give_up-Removed :
      (names : List Bytes) (fd : os.Fd) (w : os.World) → Removed os names w (give_up os names fd w)
  unfolding give_up
  give_up-Removed names fd w =
      Removed-after os names w _ _ (dcc_unlink_all-Removed names w) (lawful.close-Quiet fd _).0

  -- The function ends, and behind it none of the files is left.
  abbrev Ends : List Bytes → os.World → Option (Bool × os.World) → Type 0
  Ends names w result =
      (ok : Bool) × (w' : os.World) × (result ≡ some (ok, w')) × Removed os names w w'

  copy_mapped-Ends :
      (name d : Bytes) (names : List Bytes) (fd : os.Fd) (w : os.World)
      (on : os.World → Option (Bool × os.World))
      → ((w4 : os.World) → Ends names w4 (on w4))
      → Ends (name ∷ names) w (copy_mapped os name d names fd w on)
  unfolding copy_mapped Option.bind
  copy_mapped-Ends name d names fd w on ends =
      let w2 : os.World = (os.unlinkat name w).1 in
      let s2 = (lawful.unlinkat-Quiet name w).0 in
      let (ok, n, w3, e3, o3, s3, all3) = dcc_write-Writes os lawful fd d w2 in
      let s4 = (dcc_unmap-Quiet os lawful d w3).0 in
      elim (Bool-cases (os.unlinkat name w).0) [
        | inr u ↦ (
          false,
          give_up os names fd (dcc_unmap os d w2),
          ground arith,
          Removed-cons os name names w w2 _ (clears name w) s2 (
              Removed-then os names w2 _ _ (dcc_unmap-Quiet os lawful d w2).0
                (give_up-Removed names fd _)),
        )
        | inl u ↦ elim (Bool-cases ok) [
          | inr k ↦ (
            false,
            give_up os names fd (dcc_unmap os d w3),
            ground (arith, e3),
            Removed-cons os name names w w2 _ (clears name w) s2 (
                Removed-then os names w2 _ _ (λ m c f. s3 m c (s4 m c f))
                  (give_up-Removed names fd _)),
          )
          | inl k ↦
              let (ok', w5, e5, r5) = ends (dcc_unmap os d w3) in
              (
                ok',
                w5,
                ground (arith, e3, e5),
                Removed-cons os name names w w2 _ (clears name w) s2
                    (Removed-then os names w2 _ _ (λ m c f. s3 m c (s4 m c f)) r5),
              )
        ]
      ]

  -- Concatenating the temporary files ends. Whatever fails on the way, but for removing a file that
  -- is there, none of them is in the temporary directory afterwards, and nothing has been added to it.
  pub cat_unlink_close-Removed :
      (names : List Bytes) (fd : os.Fd) (w : os.World)
      → (ok : Bool) × (w' : os.World) × (cat_unlink_close os names fd w ≡ some (ok, w'))
        × Removed os names w w'
  unfolding cat_unlink_close
  cat_unlink_close-Removed [] fd w =
      ((os.close fd w).0, (os.close fd w).1, refl, (tt, (lawful.close-Quiet fd w).0))
  cat_unlink_close-Removed (name ∷ names) fd w =
      let w1 : os.World = (dcc_map os name w).1 in
      let s1 = (dcc_map-Quiet os lawful name w).0 in
      elim (Option-cases (dcc_map os name w).0) [
        | inl e ↦ (
          false,
          give_up os (name ∷ names) fd w1,
          ground arith,
          Removed-then os (name ∷ names) w w1 _ s1 (give_up-Removed (name ∷ names) fd w1),
        )
        | inr (d, e) ↦
            let (ok, w', e', r) =
              copy_mapped-Ends name d names fd w1 (cat_unlink_close os names fd)
                (λ w4. cat_unlink_close-Removed names fd w4) in
            (ok, w', ground (arith, e'), Removed-then os (name ∷ names) w w1 _ s1 r)
      ]

  -- Moving an output out of the temporary directory ends, and the file is not left there: it has
  -- been renamed, or copied and removed, or removed after an error.
  pub move_from_tmp-Removed :
      (src_name dest_name : Bytes) (w : os.World)
      → (ok : Bool) × (w' : os.World) × (move_from_tmp os src_name dest_name w ≡ some (ok, w'))
        × Removed os (src_name ∷ []) w w'
  unfolding move_from_tmp
  move_from_tmp-Removed src_name dest_name w =
      let w1 : os.World = (os.renameat src_name dest_name w).1 in
      let s1 = lawful.renameat-Shrinks src_name dest_name w in
      let w2 : os.World = (os.open_output dest_name w1).1 in
      let s2 = lawful.open_output-Shrinks dest_name w1 in
      elim (Bool-cases (os.renameat src_name dest_name w).0) [
        | inl m ↦ (true, w1, ground arith, ((lawful.renameat_moves src_name dest_name w m, tt), s1))
        | inr m ↦ elim (Option-cases (os.open_output dest_name w1).0) [
          | inl e ↦ (
            false,
            (os.unlinkat src_name w2).1,
            ground arith,
            Removed-cons os src_name [] w _ _ (clears src_name w2)
                (λ n c f. s1 n c (s2 n c ((lawful.unlinkat-Quiet src_name w2).0 n c f)))
                (tt, λ n c f. f),
          )
          | inr (fd, e) ↦
              let (ok, w', e', r) = cat_unlink_close-Removed (src_name ∷ []) fd w2 in
              (
                ok,
                w',
                ground (arith, e'),
                Removed-then os (src_name ∷ []) w w2 w' (λ n c f. s1 n c (s2 n c f)) r,
              )
        ]
      ]
