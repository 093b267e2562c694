-- ===== src/Options/Help/Listed.antt =====
-- dcc/dcc_options.c: the help lists the options that are not rejected.
use doarr.Base.{
  ◌≡◌, Bytes, codes, Bool, true, false, not, ◌&&◌, ◌||◌, Option, none, some, List, [], ◌∷◌, ◌++◌,
  refl, All, arith,
}
use doarr.Options.Table.{OptionKey, option_keys}
use doarr.Options.Lookup.{FoundKey, lookup_opt, startswith}
use doarr.Options.Help.{is_reject, key_lines}

-- An option that is given by itself is found in the table, and its action is not `reject`.
abbrev pub accepted : Option FoundKey → Bool
accepted none = false
accepted (some key) = not (is_reject key.action)

abbrev pub has_line : Bytes → List Bytes → Bool
has_line prefix [] = false
has_line prefix (line ∷ lines) = startswith line prefix || has_line prefix lines

abbrev AgreesOn : List Bytes → Option Bytes → Type 0
AgreesOn lines none = Unit
AgreesOn lines (some str) = accepted (lookup_opt str) ≡ has_line (codes "  " ++ str) lines

-- What the help says of an entry, and what the parser does with its string.
abbrev pub Agrees : OptionKey → Type 0
Agrees key = AgreesOn (key_lines key) key.str

abbrev same_bool : Bool → Bool → Bool
same_bool true b = b
same_bool false b = not b

abbrev agrees_on : List Bytes → Option Bytes → Bool
agrees_on lines none = true
agrees_on lines (some str) =
    same_bool (accepted (lookup_opt str)) (has_line (codes "  " ++ str) lines)

abbrev agrees : OptionKey → Bool
agrees key = agrees_on (key_lines key) key.str

abbrev all_agree : List OptionKey → Bool
all_agree [] = true
all_agree (key ∷ keys) = agrees key && all_agree keys

same_bool-eq : (a b : Bool) → same_bool a b ≡ true → a ≡ b
same_bool-eq true true h = refl
same_bool-eq true false h = cc
same_bool-eq false true h = cc
same_bool-eq false false h = refl

agrees_on-AgreesOn :
    (lines : List Bytes) (o : Option Bytes) → agrees_on lines o ≡ true → AgreesOn lines o
agrees_on-AgreesOn lines none h = tt
agrees_on-AgreesOn lines (some str) h = same_bool-eq _ _ h

all_agree-Agrees : (keys : List OptionKey) → all_agree keys ≡ true → All Agrees keys
all_agree-Agrees [] h = tt
all_agree-Agrees (key ∷ keys) h = (
  agrees_on-AgreesOn (key_lines key) key.str (ground arith),
  all_agree-Agrees keys (ground arith),
)

table_agrees : all_agree option_keys ≡ true
unfolding option_keys lookup_opt startswith key_lines
table_agrees = refl

-- The help has a line for an entry of the table exactly when the option, given by itself, is found
-- by the parser with an action that is not `reject`.
pub key_lines-Agrees : All Agrees option_keys
key_lines-Agrees = all_agree-Agrees option_keys table_agrees
