-- ===== src/Files/Names/Objects.antt =====
-- dcc/dcc_gen.c: the object file of a source is called as the source, in the current directory.
use doarr.Base.{
  ℕ, ◌≡◌, ◌≢◌, Bytes, codes, none, some, [], ◌∷◌, ◌++◌, length, take, arith, refl, ap, ◌∙◌, All,
  All-append, take-length_self,
}
use doarr.Files.Names.{after_slash, my_basename, last_dot, with_o, object_name}

abbrev pub NoSlash : Bytes → Type 0
NoSlash s = All (λ c. c ≢ b'/') s

abbrev pub NoDot : Bytes → Type 0
NoDot s = All (λ c. c ≢ b'.') s

after_slash-plain : (s found : Bytes) → NoSlash s → after_slash s found ≡ found
unfolding after_slash
after_slash-plain [] found h = refl
after_slash-plain (c ∷ s) found h = ground (arith, after_slash-plain s found h.1)

after_slash-append : (dir s found : Bytes) → NoSlash s → after_slash (dir ++ b'/' ∷ s) found ≡ s
unfolding after_slash
after_slash-append [] s found h = after_slash-plain s s h
after_slash-append (c ∷ dir) s found h = after_slash-append dir s _ h

last_dot-none : (s : Bytes) → NoDot s → last_dot s ≡ none
unfolding last_dot
last_dot-none [] h = refl
last_dot-none (c ∷ s) h = ground (arith, last_dot-none s h.1)

last_dot-append : (s ext : Bytes) → NoDot ext → last_dot (s ++ b'.' ∷ ext) ≡ some (length s)
unfolding last_dot
last_dot-append [] ext h = ground (arith, last_dot-none ext h)
last_dot-append (c ∷ s) ext h = ground (arith, last_dot-append s ext h)

take-length_append : (xs ys : Bytes) → take (length xs) (xs ++ ys) ≡ xs
take-length_append [] ys = refl
take-length_append (x ∷ xs) ys = ap (λ t. x ∷ t) (take-length_append xs ys)

with_o-last_dot :
    (stem ext : Bytes) (c : ℕ)
    → NoDot ext
    → with_o (c ∷ (stem ++ b'.' ∷ ext)) ≡ some (c ∷ stem ++ codes ".o")
unfolding with_o
with_o-last_dot stem ext c d =
    ground (arith, last_dot-append stem ext d, take-length_append stem (b'.' ∷ ext))

with_o-plain :
    (stem : Bytes) (c : ℕ) → NoDot stem → with_o (c ∷ stem) ≡ some (c ∷ stem ++ codes ".o")
unfolding with_o
with_o-plain stem c d = ground (arith, last_dot-none stem d, take-length_self stem)

my_basename-append : (dir s : Bytes) → NoSlash s → my_basename (dir ++ b'/' ∷ s) ≡ s
unfolding my_basename
my_basename-append dir s h = after_slash-append dir s _ h

-- The object file that `-c` makes of a source in any directory is called as the source, with `.o`
-- in place of what stands from the last dot on, or behind the name if it has no dot. A dot at the
-- start of the name is part of it.
pub object_name-stem :
    (dir stem ext plain : Bytes) (c : ℕ)
    → NoSlash (c ∷ stem)
    → NoSlash ext
    → NoDot ext
    → NoSlash (c ∷ plain)
    → NoDot plain
    → (object_name (dir ++ b'/' ∷ c ∷ (stem ++ b'.' ∷ ext)) ≡ some (c ∷ stem ++ codes ".o"))
      × (object_name (dir ++ b'/' ∷ c ∷ plain) ≡ some (c ∷ plain ++ codes ".o"))
unfolding object_name
object_name-stem dir stem ext plain c h he d hp no_dot =
    let slashless : NoSlash (c ∷ (stem ++ b'.' ∷ ext)) =
      (h.0, All-append _ stem (b'.' ∷ ext) h.1 (omega arith, he)) in
    (
      ap with_o (my_basename-append dir _ slashless) ∙ with_o-last_dot stem ext c d,
      ap with_o (my_basename-append dir _ hp) ∙ with_o-plain plain c no_dot,
    )
