-- ===== src/Options/Lookup.antt =====
-- dcc/dcc_options.c: `startswith` and `lookup_opt`.
pub mod Longest
pub mod Complete
use mathlib.Core.List.{reverse}
use mathlib.Core.Option.{or_else}
use doarr.Base.{
  Bytes, bytes_eq, Bool, true, false, ◌&&◌, Option, none, some, List, [], ◌∷◌, ◌==◌, if◌then◌else◌,
}
use doarr.Options.Table.{OptionSyntax, OptAction, OptionKey, option_keys}

unfoldable pub startswith : Bytes → Bytes → Bool
startswith full [] = true
startswith [] (p ∷ prefix) = false
startswith (c ∷ full) (p ∷ prefix) = c == p && startswith full prefix

-- What `lookup_opt` returns for a match: the string and the syntax of the entry, and the values of
-- the locals `desc` and `action`, `none` while they are not initialised.
pub record FoundKey : Type 0 where
  pub str : Bytes
  pub syntax : OptionSyntax
  pub desc : Option Bytes
  pub action : Option OptAction

-- The loop, over the entries from the last to the first.
pub lookup_loop : List OptionKey → Option Bytes → Option OptAction → Bytes → Option FoundKey
unfolding startswith or_else
lookup_loop [] desc action arg = none
lookup_loop (curr ∷ rest) desc action arg = elim curr.str [
  | none ↦ lookup_loop rest desc action arg
  | some str ↦
      let desc' = or_else curr.desc desc in
      let action' = or_else curr.action action in
      let next = lookup_loop rest desc' action' arg in
      if startswith arg str
      then some (record { str = str; syntax = curr.syntax; desc = desc'; action = action' })
      else next
]

unfoldable pub lookup_opt : Bytes → Option FoundKey
unfolding lookup_loop option_keys
lookup_opt arg = lookup_loop (reverse option_keys) none none arg
