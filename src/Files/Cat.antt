-- ===== src/Files/Cat.antt =====
-- dcc/dcc_gen.c: the output as the temporary files one after another.
use mathlib.Core.Option
use doarr.Base.{
  ◌≡◌, Bytes, Bool, true, false, Option, none, some, List, [], ◌∷◌, ◌++◌, ◌&&◌, if◌then◌else◌,
  arith, refl, Option-cases, Bool-cases, inl, inr, ap, ◌∙◌, sym, append_assoc, append-nil,
}
use doarr.Files.Os.{Os, IsLawful, Shrinks}
use doarr.Files.Write.{dcc_write, dcc_write-Writes}
use doarr.Files.Map.{dcc_map, dcc_unmap, dcc_map-Quiet, dcc_unmap-Quiet, dcc_map-eq_some}

module _ (os : Os) where
  abbrev pub dcc_unlink : Bytes → os.World → Bool × os.World
  dcc_unlink name w = os.unlinkat name w

  unfoldable pub dcc_unlink_all : List Bytes → os.World → Bool × os.World
  dcc_unlink_all [] w = (true, w)
  dcc_unlink_all (name ∷ names) w =
      let (ok, w1) = dcc_unlink name w in
      let (all_ok, w2) = dcc_unlink_all names w1 in (ok && all_ok, w2)

  -- From `error_early` on: the files that are left are removed.
  unfoldable pub give_up : List Bytes → os.Fd → os.World → os.World
  unfolding dcc_unlink_all
  give_up names out_fd w = (os.close out_fd (dcc_unlink_all names w).1).1

  -- The rest of a round behind `dcc_map`; `none` is a `dcc_write` that never ends.
  unfoldable pub copy_mapped :
      Bytes
      → Bytes
      → List Bytes
      → os.Fd
      → os.World
      → (os.World → Option (Bool × os.World))
      → Option (Bool × os.World)
  unfolding dcc_unmap give_up dcc_write
  copy_mapped name d names out_fd w on =
      let (removed, w2) = dcc_unlink name w in
      if removed
      then Option.bind (dcc_write os out_fd d w2) (λ (ok, w3).
        if ok
        then on (dcc_unmap os d w3)
        else some (false, give_up names out_fd (dcc_unmap os d w3)))
      else some (false, give_up names out_fd (dcc_unmap os d w2))

  unfoldable pub cat_unlink_close : List Bytes → os.Fd → os.World → Option (Bool × os.World)
  unfolding dcc_map copy_mapped give_up
  cat_unlink_close [] out_fd w = some (os.close out_fd w)
  cat_unlink_close (name ∷ names) out_fd w =
      let (mapped, w1) = dcc_map os name w in
      elim mapped [
        | none ↦ some (false, give_up (name ∷ names) out_fd w1)
        | some d ↦ copy_mapped name d names out_fd w1 (cat_unlink_close names out_fd)
      ]

  unfoldable pub move_from_tmp : Bytes → Bytes → os.World → Option (Bool × os.World)
  unfolding cat_unlink_close
  move_from_tmp src_name dest_name w =
      let (moved, w1) = os.renameat src_name dest_name w in
      let (opened, w2) = os.open_output dest_name w1 in
      if moved then some (true, w1) else elim opened [
        | none ↦ some (false, (dcc_unlink src_name w2).1)
        | some dest_fd ↦ cat_unlink_close (src_name ∷ []) dest_fd w2
      ]

-- The files one after another, if all are there.
abbrev pub joined : (Bytes → Option Bytes) → List Bytes → Option Bytes
joined files [] = some []
joined files (name ∷ names) =
    Option.bind (files name) (λ d. Option.map (λ rest. d ++ rest) (joined files names))

joined_mono :
    (f g : Bytes → Option Bytes) (names : List Bytes) (x : Bytes)
    → ((name d : Bytes) → f name ≡ some d → g name ≡ some d)
    → joined f names ≡ some x
    → joined g names ≡ some x
unfolding Option.bind
joined_mono f g [] x le h = h
joined_mono f g (name ∷ names) x le h = elim (Option-cases (f name)) [
  | inl e ↦ absurd (ground arith)
  | inr (d, e) ↦ elim (Option-cases (joined f names)) [
    | inl e2 ↦ absurd (ground arith)
    | inr (r, e2) ↦ ground (arith, joined_mono f g names r le e2, le name d e)
  ]
]

module _ (os : Os) (lawful : IsLawful os) where
  -- What a round has done from which the loop goes on.
  copy_mapped-eq_some :
      (name d : Bytes) (names : List Bytes) (fd : os.Fd) (w w' : os.World)
      (on : os.World → Option (Bool × os.World))
      → copy_mapped os name d names fd w on ≡ some (true, w')
      → (w4 : os.World) × (on w4 ≡ some (true, w'))
        × (os.output w4 fd ≡ os.output w fd ++ d)
        × Shrinks os w w4
  unfolding copy_mapped Option.bind
  copy_mapped-eq_some name d names fd w w' on h =
      let w2 : os.World = (os.unlinkat name w).1 in
      let (unlink_shrinks, unlink_keeps) = lawful.unlinkat-Quiet name w in
      let (ok, n, w3, e3, o3, s3, all3) = dcc_write-Writes os lawful fd d w2 in
      let (unmap_shrinks, unmap_keeps) = dcc_unmap-Quiet os lawful d w3 in
      elim (Bool-cases (os.unlinkat name w).0) [
        | inr u ↦ absurd (ground arith)
        | inl u ↦ elim (Bool-cases ok) [
          | inr k ↦ absurd (ground (arith, e3))
          | inl k ↦ (
            dcc_unmap os d w3,
            ground (arith, e3),
            unmap_keeps fd ∙ o3 ∙ rw (all3 k) (ap (λ o. o ++ d) (unlink_keeps fd)),
            λ m c f. unlink_shrinks m c (s3 m c (unmap_shrinks m c f)),
          )
        ]
      ]

  -- Where it reports success, what was written to the output is the files in the temporary directory
  -- one after another, in the order of their names, which were all there when it began.
  pub cat_unlink_close-joined :
      (names : List Bytes) (fd : os.Fd) (w w' : os.World)
      → cat_unlink_close os names fd w ≡ some (true, w')
      → (x : Bytes) × (joined (os.files w) names ≡ some x) × (os.output w' fd ≡ os.output w fd ++ x)
  unfolding cat_unlink_close Option.bind Option.map
  cat_unlink_close-joined [] fd w w' h =
      let closed : w' ≡ (os.close fd w).1 = ground arith in
      ([], refl, rw closed ((lawful.close-Quiet fd w).1 fd ∙ sym (append-nil _)))
  cat_unlink_close-joined (name ∷ names) fd w w' h =
      let (map_shrinks, map_keeps) = dcc_map-Quiet os lawful name w in
      elim (Option-cases (dcc_map os name w).0) [
        | inl e ↦ absurd (ground arith)
        | inr (d, e) ↦
            let (w4, on, o4, s4) =
              copy_mapped-eq_some name d names fd (dcc_map os name w).1 w'
                (cat_unlink_close os names fd) (ground arith) in
            let (x, j, o) = cat_unlink_close-joined names fd w4 w' on in
            let found = dcc_map-eq_some os lawful name w d e in
            let there =
              joined_mono (os.files w4) (os.files w) names x (λ m c f. map_shrinks m c (s4 m c f))
                j in
            (
              d ++ x,
              ground arith,
              o
                  ∙ ap (λ t. t ++ x) (o4 ∙ ap (λ t. t ++ d) (map_keeps fd))
                  ∙ append_assoc (os.output w fd) d x,
            )
      ]
