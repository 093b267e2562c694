-- ===== src/Gen/Literal.antt =====
-- What a C compiler reads from string literals, from behind the first quote: trigraphs, escapes, joined
-- lines and literals that stand side by side. This is the yardstick for the literals that dcc writes.
use doarr.Base.{
  ℕ, zero, suc, ◌+◌, ◌-◌, ◌*◌, Bytes, Bool, ◌&&◌, ◌||◌, Option, none, some, [], ◌∷◌, ◌++◌, ◌==◌,
  leb, ltb, if◌then◌else◌,
}

-- Inside a literal, behind its closing quote, behind a backslash, behind `\x`, inside a hexadecimal
-- escape with its value so far, and inside an octal one with the digits it can still take.
pub data Mode : Type 0 where
  inside closed escaped hex_start : Mode
  hex : ℕ → Mode
  octal : ℕ → ℕ → Mode

pub data Reading : Type 0 where
  reads : Bytes → Mode → Reading
  ends invalid : Reading

unfoldable pub is_hex_digit : ℕ → Bool
is_hex_digit c =
    (leb b'0' c && leb c b'9') || (leb b'a' c && leb c b'f') || (leb b'A' c && leb c b'F')

unfoldable pub hex_value : ℕ → ℕ
hex_value c = if leb c b'9' then c - b'0' else if leb c b'F' then c - b'A' + 10 else c - b'a' + 10

unfoldable pub is_octal_digit : ℕ → Bool
is_octal_digit c = leb b'0' c && leb c b'7'

-- An ordinary byte inside a literal, behind what an escape has given.
unfoldable pub read_plain : Bytes → ℕ → Reading
read_plain out c =
    if c == b'"'
    then reads out closed
    else if c == b'\\'
    then reads out escaped
    else reads (out ++ c ∷ []) inside

unfoldable pub read_escaped : ℕ → Reading
read_escaped c =
    if c == b'"' || c == b'\\' || c == b'?'
    then reads (c ∷ []) inside
    else if c == 10
    then reads [] inside
    else if c == b'x'
    then reads [] hex_start
    else if is_octal_digit c
    then reads [] (octal 2 (c - b'0'))
    else invalid

-- A hexadecimal escape takes all the digits that follow, an octal one at most three; the value has
-- to fit a byte.
unfoldable pub read : Mode → ℕ → Reading
read inside c = read_plain [] c
read closed c = if c == b'"' then reads [] inside else ends
read escaped c = read_escaped c
read hex_start c = if is_hex_digit c then reads [] (hex (hex_value c)) else invalid
read (hex v) c =
    if is_hex_digit c
    then reads [] (hex (v * 16 + hex_value c))
    else if ltb 255 v
    then invalid
    else read_plain (v ∷ []) c
read (octal left v) c =
    if ltb 0 left && is_octal_digit c
    then reads [] (octal (left - 1) (v * 8 + (c - b'0')))
    else if ltb 255 v
    then invalid
    else read_plain (v ∷ []) c

abbrev pub prepend : Bytes → Option (Bytes × Bytes) → Option (Bytes × Bytes)
prepend out none = none
prepend out (some (bytes, rest)) = some (out ++ bytes, rest)

-- The bytes of the literals, and what follows them.
unfoldable pub decode : Mode → Bytes → Option (Bytes × Bytes)
decode mode [] = none
decode mode (c ∷ s) = elim (read mode c) [
  | reads out mode' ↦ prepend out (decode mode' s)
  | ends ↦ some ([], c ∷ s)
  | invalid ↦ none
]

-- The bytes of the literals whose text stands behind the first quote, in a text without trigraphs.
unfoldable pub decode_literal : Bytes → Option (Bytes × Bytes)
unfolding decode read read_plain read_escaped is_hex_digit hex_value is_octal_digit
decode_literal = decode inside

-- The character that two question marks with this one behind them stand for.
unfoldable pub trigraph_char : ℕ → Option ℕ
trigraph_char c =
    if c == b'='
    then some b'#'
    else if c == b'/'
    then some b'\\'
    else if c == b'\''
    then some b'^'
    else if c == b'('
    then some b'['
    else if c == b')'
    then some b']'
    else if c == b'!'
    then some b'|'
    else if c == b'<'
    then some b'{'
    else if c == b'>'
    then some b'}'
    else if c == b'-'
    then some b'~'
    else none

-- The trigraph in front of a text.
unfoldable pub trigraph : Bytes → Option ℕ
unfolding trigraph_char
trigraph (c ∷ d ∷ e ∷ s) = if c == b'?' && d == b'?' then trigraph_char e else none
trigraph _ = none

-- The first phase of a C compiler; the number counts the bytes of a trigraph that are left.
unfoldable pub replace_from : ℕ → Bytes → Bytes
unfolding trigraph
replace_from left [] = []
replace_from (suc left) (c ∷ s) = replace_from left s
replace_from zero (c ∷ s) = elim (trigraph (c ∷ s)) [
  | none ↦ c ∷ replace_from zero s
  | some d ↦ d ∷ replace_from 2 s
]

unfoldable pub replace_trigraphs : Bytes → Bytes
unfolding replace_from
replace_trigraphs = replace_from 0

-- The same in any text: trigraphs are replaced first.
unfoldable pub read_literal : Bytes → Option (Bytes × Bytes)
unfolding decode_literal replace_trigraphs
read_literal s = decode_literal (replace_trigraphs s)
