-- ===== src/Runtime/TmpPath/Init.antt =====
-- runtime/io.c: the names start behind the directory that `doarr_io_init` makes.
use doarr.Base.{
  ℕ, ◌^◌, true, Bytes, codes, some, [], ◌∷◌, ◌++◌, ◌≡◌, ◌≢◌, refl, arith, All, ap, append_assoc,
  length,
}
use doarr.Runtime.TmpPath.{doarr_io_init, put_at_end, but_last, InitResult.ready, ForkResult.parent}
use doarr.Runtime.TmpPath.Counter.{IsDigit, number, places, path_of}

put_at_end_lem :
    (c : ℕ) (path rest : Bytes)
    → All (λ d. d ≢ 0) path
    → put_at_end c (path ++ 0 ∷ rest) ≡ path ++ c ∷ rest
put_at_end_lem c [] rest h = refl
put_at_end_lem c (d ∷ path) rest (hd, h) = ground (arith, put_at_end_lem c path rest h)

but_last_lem : (s : Bytes) (c : ℕ) → but_last (s ++ c ∷ []) ≡ s
but_last_lem [] c = refl
but_last_lem (a ∷ []) c = refl
but_last_lem (a ∷ b ∷ s) c = ap (λ t. a ∷ t) (but_last_lem (b ∷ s) c)

-- When mkdtemp made the directory and pipe and fork succeed, the context holds the directory, a
-- slash and thirteen letters that spell the number 0 out of 26 ^ 13.
pub doarr_io_init-counts_from_0 :
    (path : Bytes)
    → All (λ d. d ≢ 0) path
    → (doarr_io_init (some path) true parent ≡ ready (path_of path (codes "aaaaaaaaaaaaa")))
      × (number (codes "aaaaaaaaaaaaa") ≡ 0)
      × (places (length (codes "aaaaaaaaaaaaa")) ≡ 26 ^ 13)
      × All IsDigit (codes "aaaaaaaaaaaaa")
unfolding doarr_io_init
doarr_io_init-counts_from_0 path h =
    let end = put_at_end_lem (b'/') path (codes "aaaaaaaaaaaaa" ++ 0 ∷ []) h in
    let cut = but_last_lem (path ++ b'/' ∷ codes "aaaaaaaaaaaaa") 0 in
    (
      cc (end, cut, append_assoc path (b'/' ∷ codes "aaaaaaaaaaaaa") (0 ∷ [])),
      refl,
      refl,
      omega arith,
    )
