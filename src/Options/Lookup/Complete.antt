-- ===== src/Options/Lookup/Complete.antt =====
-- dcc/dcc_options.c: what `lookup_opt` finds, and that it never returns an uninitialised local.
use mathlib.Core.List.{reverse}
use mathlib.Core.Option.{or_else, some-ne-none}
use doarr.Base.{
  Bytes, true, false, Option, none, some, List, [], ◌∷◌, ◌≡◌, ◌≢◌, arith, refl, All, All-of_reverse,
}
use doarr.Options.Table.{OptAction, OptionKey, option_keys}
use doarr.Options.Lookup.{startswith, FoundKey, lookup_loop, lookup_opt}

-- The entry's string, if it has one, does not begin `arg`.
abbrev pub Misses : Bytes → OptionKey → Type 0
Misses arg e = (str : Bytes) → e.str ≡ some str → startswith arg str ≡ false

lookup_loop-Misses :
    (ks : List OptionKey) (desc : Option Bytes) (action : Option OptAction) (arg : Bytes)
    → lookup_loop ks desc action arg ≡ none
    → All (Misses arg) ks
unfolding lookup_loop
lookup_loop-Misses [] desc action arg h = tt
lookup_loop-Misses (e ∷ ks) desc action arg h = (
  λ str p. ground arith,
  ground (
    arith,
    lookup_loop-Misses ks desc action arg,
    lookup_loop-Misses ks (or_else e.desc desc) (or_else e.action action) arg,
  ),
)

-- The fields of a match: its string begins the argument, and both locals were set.
abbrev IsFilled : Bytes → FoundKey → Type 0
IsFilled arg k = (startswith arg k.str ≡ true) × (k.desc ≢ none) × (k.action ≢ none)

or_else-ne-none {ℓ} : {A : Type ℓ} (o p : Option A) → p ≢ none → or_else o p ≢ none
unfolding or_else
or_else-ne-none none p h = h
or_else-ne-none (some a) p h = λ e. cc

or_else-ne-none_left {ℓ} : {A : Type ℓ} (o p : Option A) → o ≢ none → or_else o p ≢ none
unfolding or_else
or_else-ne-none_left none p h = absurd (h refl)
or_else-ne-none_left (some a) p h = λ e. cc

lookup_loop-IsFilled :
    (ks : List OptionKey) (desc : Option Bytes) (action : Option OptAction) (arg : Bytes)
    (k : FoundKey)
    → desc ≢ none
    → action ≢ none
    → lookup_loop ks desc action arg ≡ some k
    → IsFilled arg k
unfolding lookup_loop
lookup_loop-IsFilled [] desc action arg k d a h = cc
lookup_loop-IsFilled (e ∷ ks) desc action arg k d a h = ground (
  arith,
  or_else-ne-none e.desc desc,
  or_else-ne-none e.action action,
  lookup_loop-IsFilled ks desc action arg k,
  lookup_loop-IsFilled ks (or_else e.desc desc) (or_else e.action action) arg k,
)

-- The first entry lacks nothing.
abbrev StartsFull : List OptionKey → Type 0
StartsFull [] = ⊥
StartsFull (e ∷ ks) = (e.str ≢ none) × (e.desc ≢ none) × (e.action ≢ none)

StartsFull-IsFilled :
    (ks : List OptionKey) (arg : Bytes) (k : FoundKey)
    → StartsFull ks
    → lookup_loop ks none none arg ≡ some k
    → IsFilled arg k
unfolding lookup_loop
StartsFull-IsFilled [] arg k s h = absurd s
StartsFull-IsFilled (e ∷ ks) arg k s h = ground (
  arith,
  or_else-ne-none_left e.desc none,
  or_else-ne-none_left e.action none,
  lookup_loop-IsFilled ks (or_else e.desc none) (or_else e.action none) arg k,
)

option_keys-StartsFull : StartsFull (reverse option_keys)
unfolding option_keys
option_keys-StartsFull = (some-ne-none _, some-ne-none _, some-ne-none _)

-- An entry that `lookup_opt` returns has a string that begins the argument, and its `desc` and
-- `action` have been assigned from the table: the locals of these names, which the code leaves
-- uninitialised at first, are never returned so.
pub lookup_opt-IsFilled :
    (arg : Bytes) (k : FoundKey)
    → lookup_opt arg ≡ some k
    → (startswith arg k.str ≡ true) × (k.desc ≢ none) × (k.action ≢ none)
lookup_opt-IsFilled arg k h =
    StartsFull-IsFilled (reverse option_keys) arg k option_keys-StartsFull (unfold lookup_opt in h)

-- Where `lookup_opt` finds nothing, no string of the table begins the argument.
pub lookup_opt-Misses : (arg : Bytes) → lookup_opt arg ≡ none → All (Misses arg) option_keys
lookup_opt-Misses arg h =
    All-of_reverse (Misses arg) option_keys
      (lookup_loop-Misses (reverse option_keys) none none arg (unfold lookup_opt in h))
