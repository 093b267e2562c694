-- ===== src/Options/Lookup/Longest.antt =====
-- dcc/dcc_options.c: the order of `option_keys` makes the first match of `lookup_opt` the longest.
use Prim.{⊥}
use mathlib.Core.List.{reverse, reverse_aux}
use mathlib.Core.Option.{or_else}
use doarr.Base.{
  ◌≤◌, Bytes, Bool, true, ◌&&◌, ◌||◌, not, Option, none, some, List, [], ◌∷◌, ◌≡◌, arith, length,
  leb, All, All-of_reverse, refl, ◌⊎◌, inl, inr, Option-cases, Bool-cases,
}
use doarr.Options.Lookup.Complete.{Misses, lookup_opt-IsFilled, lookup_opt-Misses}
use doarr.Options.Table.{OptionKey, option_keys}
use doarr.Options.Lookup.{startswith, FoundKey, lookup_loop, lookup_opt}

-- Two prefixes of one text: the longer one starts with the shorter.
startswith_both :
    (s p q : Bytes)
    → startswith s p ≡ true
    → startswith s q ≡ true
    → length p ≤ length q
    → startswith q p ≡ true
unfolding startswith
startswith_both s [] q hp hq h = refl
startswith_both s (a ∷ p) [] hp hq h = absurd (omega arith)
startswith_both [] (a ∷ p) (b ∷ q) hp hq h = cc
startswith_both (c ∷ s) (a ∷ p) (b ∷ q) hp hq h = ground (arith, startswith_both s p q)

-- No later entry has a longer string that starts with this one.
hides_none : Bytes → List OptionKey → Bool
hides_none str [] = true
hides_none str (k ∷ ks) = elim k.str [
  | none ↦ hides_none str ks
  | some other ↦
      (leb (length other) (length str) || not (startswith other str)) && hides_none str ks
]

-- No string is tried before a longer one that it begins.
is_ordered : List OptionKey → Bool
unfolding hides_none
is_ordered [] = true
is_ordered (k ∷ ks) = elim k.str [
  | none ↦ is_ordered ks
  | some str ↦ hides_none str ks && is_ordered ks
]

-- If the entry has a string that begins `arg`, that string is at most as long as `str`.
abbrev pub NotLonger : Bytes → Bytes → OptionKey → Type 0
NotLonger arg str e =
    (other : Bytes) → e.str ≡ some other → startswith arg other ≡ true → length other ≤ length str

hides_none-NotLonger :
    (arg str : Bytes) (ks : List OptionKey)
    → startswith arg str ≡ true
    → hides_none str ks ≡ true
    → All (NotLonger arg str) ks
unfolding hides_none
hides_none-NotLonger arg str [] hs h = tt
hides_none-NotLonger arg str (k ∷ ks) hs h = (
  λ other e he. ground (arith, startswith_both arg str other),
  ground (arith, hides_none-NotLonger arg str ks),
)

lookup_loop-NotLonger :
    (ks : List OptionKey) (desc : Option Bytes) (action : Option _) (arg : Bytes) (k : FoundKey)
    → is_ordered ks ≡ true
    → lookup_loop ks desc action arg ≡ some k
    → All (NotLonger arg k.str) ks
unfolding lookup_loop is_ordered
lookup_loop-NotLonger [] desc action arg k o h = tt
lookup_loop-NotLonger (e ∷ ks) desc action arg k o h = (
  λ other p hp. ground arith,
  ground (
    arith,
    hides_none-NotLonger arg k.str ks,
    lookup_loop-NotLonger ks desc action arg k,
    lookup_loop-NotLonger ks (or_else e.desc desc) (or_else e.action action) arg k,
  ),
)

option_keys_ordered : is_ordered (reverse option_keys) ≡ true
unfolding is_ordered option_keys startswith
option_keys_ordered = refl

-- An entry has the string.
abbrev pub HasKey : Bytes → List OptionKey → Type 0
HasKey str [] = ⊥
HasKey str (e ∷ ks) = (e.str ≡ some str) ⊎ HasKey str ks

lookup_loop-HasKey :
    (ks : List OptionKey) (desc : Option Bytes) (action : Option _) (arg : Bytes) (k : FoundKey)
    → lookup_loop ks desc action arg ≡ some k
    → HasKey k.str ks
unfolding lookup_loop
lookup_loop-HasKey [] desc action arg k h = cc
lookup_loop-HasKey (e ∷ ks) desc action arg k h = elim (Option-cases e.str) [
  | inl q ↦ inr (lookup_loop-HasKey ks desc action arg k (ground arith))
  | inr (str, q) ↦ elim (Bool-cases (startswith arg str)) [
    | inl b ↦ inl (ground arith)
    | inr b ↦
        inr (
          lookup_loop-HasKey ks (or_else e.desc desc) (or_else e.action action) arg k
            (ground arith))
  ]
]

HasKey-reverse_aux :
    (str : Bytes) (ks acc : List OptionKey)
    → HasKey str (reverse_aux ks acc)
    → HasKey str ks ⊎ HasKey str acc
HasKey-reverse_aux str [] acc h = inr h
HasKey-reverse_aux str (e ∷ ks) acc h = elim (HasKey-reverse_aux str ks (e ∷ acc) h) [
  | inl m ↦ inl (inr m)
  | inr (inl p) ↦ inl (inl p)
  | inr (inr m) ↦ inr m
]

lookup_opt-HasKey :
    (arg : Bytes) (k : FoundKey) → lookup_opt arg ≡ some k → HasKey k.str option_keys
lookup_opt-HasKey arg k h =
    elim (HasKey-reverse_aux k.str option_keys []
      (lookup_loop-HasKey (reverse option_keys) none none arg k (unfold lookup_opt in h))) [
        | inl m ↦ m
        | inr m ↦ absurd m
      ]

lookup_opt-NotLonger :
    (arg : Bytes) (k : FoundKey) → lookup_opt arg ≡ some k → All (NotLonger arg k.str) option_keys
unfolding lookup_opt
lookup_opt-NotLonger arg k h =
    All-of_reverse (NotLonger arg k.str) option_keys
      (lookup_loop-NotLonger (reverse option_keys) none none arg k option_keys_ordered h)

-- Among the strings of the table that begin the argument the one found is the longest; and where
-- nothing is found there is none.
abbrev pub IsLongest : Bytes → Option FoundKey → Type 0
IsLongest arg none = All (Misses arg) option_keys
IsLongest arg (some k) =
    (startswith arg k.str ≡ true) × HasKey k.str option_keys × All (NotLonger arg k.str) option_keys

-- What `lookup_opt` returns is the longest string of the table that begins the argument: it is a string
-- of `option_keys`, it begins the argument, and no string of the table that begins the argument is
-- longer. Where it returns nothing, no string of the table begins the argument.
pub lookup_opt-IsLongest : (arg : Bytes) → IsLongest arg (lookup_opt arg)
lookup_opt-IsLongest arg = elim (Option-cases (lookup_opt arg)) [
  | inl e ↦ rw e (lookup_opt-Misses arg e)
  | inr (k, e) ↦
      rw e
        ((lookup_opt-IsFilled arg k e).0, lookup_opt-HasKey arg k e, lookup_opt-NotLonger arg k e)
]
