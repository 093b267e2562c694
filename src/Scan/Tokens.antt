-- ===== src/Scan/Tokens.antt =====
-- dcc/dcc_scan.c: the text between the declarations, and the list of all exported functions.
use doarr.Base.{
  ℕ, ◌≤◌, ◌<◌, ◌==◌, Bytes, codes, Bool, true, false, not, ◌&&◌, some, List, [], ◌∷◌, ◌++◌, ◌≡◌,
  ◌≢◌, arith, refl, ◌∙◌, length, drop, All, length-append,
}
use mathlib.Core.List.{cons-ne-nil}
use doarr.Options.Lookup.{startswith}
use doarr.Scan.Chars.{char_is_ident, scan_exactly, scan_string, scan_string_rest}
use doarr.Scan.RawStrings.{after_first, IsDelim, scan_raw_string-after_first}
use doarr.Scan.Search.{search, search-again, search-done, dcc_scan-search}
use doarr.Scan.Declarations.{
  IsBlank, Declaration, IsGood, declared, search-declared, scan_first_printable-append,
  printable_is-append, scan_exactly-append,
}
use doarr.Scan.{
  clean_eof, export, step, after_d, after_r, scan_marker, printable_is, dcc_scan_up_to_next_export,
}

-- A part of a string literal: a character, or a backslash and what it escapes.
pub data StringItem : Type 0 where
  character escape : ℕ → StringItem

-- The source between declarations, cut as the scanner reads it: `inner_d` is a `d` behind a
-- character of an identifier, `r_then` an `R` and the next byte. The others are a `d` that begins a word
-- with what is read of `doarr::exported` and the byte that ends the match: inside `doarr`, in place of the
-- first colon, of the second, or of the first letter of `exported`, each behind blanks, or further inside
-- `exported`. So `double` is a `d`, the `o` that is read, and the `u`.
pub data Token : Type 0 where
  other r_then : ℕ → Token
  inner_d : Token
  text : List StringItem → Token
  raw : Bytes → Bytes → Token
  d_then : Bytes → ℕ → Token
  doarr_then : Bytes → ℕ → Token
  colon_then : Bytes → Bytes → ℕ → Token
  colons_then : Bytes → Bytes → Bytes → ℕ → Token
  e_then : Bytes → Bytes → Bytes → Bytes → ℕ → Token

abbrev pub spell_item : StringItem → Bytes
spell_item (character c) = c ∷ []
spell_item (escape c) = b'\\' ∷ c ∷ []

abbrev pub spell_items : List StringItem → Bytes → Bytes
spell_items [] s = b'"' ∷ s
spell_items (character c ∷ items) s = c ∷ spell_items items s
spell_items (escape c ∷ items) s = b'\\' ∷ c ∷ spell_items items s

-- The spelling of a token, in front of what follows.
abbrev pub spell : Token → Bytes → Bytes
spell (other c) s = c ∷ s
spell (d_then part c) s = b'd' ∷ (part ++ c ∷ s)
spell (doarr_then ws1 c) s = codes "doarr" ++ (ws1 ++ c ∷ s)
spell (colon_then ws1 ws2 c) s = codes "doarr" ++ (ws1 ++ b':' ∷ (ws2 ++ c ∷ s))
spell (colons_then ws1 ws2 ws3 c) s =
    codes "doarr" ++ (ws1 ++ b':' ∷ (ws2 ++ b':' ∷ (ws3 ++ c ∷ s)))
spell (e_then ws1 ws2 ws3 part c) s =
    codes "doarr" ++ (ws1 ++ b':' ∷ (ws2 ++ b':' ∷ (ws3 ++ b'e' ∷ (part ++ c ∷ s))))
spell (r_then c) s = b'R' ∷ c ∷ s
spell inner_d s = b'd' ∷ s
spell (text items) s = b'"' ∷ spell_items items s
spell (raw delim body) s =
    b'R' ∷ b'"' ∷ (delim ++ b'(' ∷ (body ++ (b')' ∷ delim ++ b'"' ∷ []) ++ s))

-- `prev` behind a token. The byte that ends a match inside `doarr` or `exported` is read again, and one in
-- place of a colon or of the `e` is not.
abbrev pub prev_after : ℕ → Token → ℕ
prev_after prev (other c) = c
prev_after prev (d_then part c) = c
prev_after prev (doarr_then ws1 c) = prev
prev_after prev (colon_then ws1 ws2 c) = prev
prev_after prev (colons_then ws1 ws2 ws3 c) = prev
prev_after prev (e_then ws1 ws2 ws3 part c) = c
prev_after prev (r_then c) = b'R'
prev_after prev inner_d = prev
prev_after prev (text items) = b'"'
prev_after prev (raw delim body) = b'"'

-- None of the bytes with a case of its own.
abbrev IsOther : ℕ → Type 0
IsOther c = (c ≢ b'"') × (c ≢ b'R') × (c ≢ b'd')

abbrev IsItem : StringItem → Type 0
IsItem (character c) = (c ≢ b'"') × (c ≢ b'\\')
IsItem (escape c) = Unit

-- The pattern does not begin inside the text, with the pattern behind it.
unfoldable pub is_absent : Bytes → Bytes → Bool
is_absent pattern [] = true
is_absent pattern (c ∷ body) =
    not (startswith (c ∷ body ++ pattern) pattern) && is_absent pattern body

-- The part of a word has been read, and the byte is not the next of the word.
unfoldable pub stops : Bytes → ℕ → Bytes → Bool
stops [] c (e ∷ expected) = not (c == e)
stops (b ∷ part) c (e ∷ expected) = b == e && stops part c expected
stops part c [] = false

-- Where a token can stand behind `prev`.
abbrev pub CanFollow : ℕ → Token → Type 0
CanFollow prev (other c) = IsOther c
CanFollow prev (d_then part c) =
    (char_is_ident prev ≡ false) × IsOther c × (stops part c (codes "oarr") ≡ true)
CanFollow prev (doarr_then ws1 c) =
    (char_is_ident prev ≡ false) × All IsBlank ws1 × (b' ' < c) × (c ≢ b':')
CanFollow prev (colon_then ws1 ws2 c) =
    (char_is_ident prev ≡ false) × All IsBlank ws1 × All IsBlank ws2 × (b' ' < c) × (c ≢ b':')
CanFollow prev (colons_then ws1 ws2 ws3 c) =
    (char_is_ident prev ≡ false)
    × All IsBlank ws1
    × All IsBlank ws2
    × All IsBlank ws3
    × (b' ' < c)
    × (c ≢ b'e')
CanFollow prev (e_then ws1 ws2 ws3 part c) =
    (char_is_ident prev ≡ false)
    × All IsBlank ws1
    × All IsBlank ws2
    × All IsBlank ws3
    × IsOther c
    × (stops part c (codes "xported") ≡ true)
CanFollow prev (r_then c) = c ≢ b'"'
CanFollow prev inner_d = char_is_ident prev ≡ true
CanFollow prev (text items) = All IsItem items
CanFollow prev (raw delim body) =
    All IsDelim delim × (length delim ≤ 16) × (is_absent (b')' ∷ delim ++ b'"' ∷ []) body ≡ true)

scan_string-spell_items :
    (items : List StringItem) (s : Bytes)
    → All IsItem items
    → scan_string_rest false (spell_items items s) ≡ s
unfolding scan_string_rest
scan_string-spell_items [] s h = refl
scan_string-spell_items (character c ∷ items) s (hc, h) =
    ground (arith, scan_string-spell_items items s h)
scan_string-spell_items (escape c ∷ items) s (hc, h) = scan_string-spell_items items s h

startswith-append :
    (pattern s : Bytes)
    → (startswith (pattern ++ s) pattern ≡ true) × (drop (length pattern) (pattern ++ s) ≡ s)
unfolding startswith
startswith-append [] s = (refl, refl)
startswith-append (p ∷ pattern) s = ground (arith, startswith-append pattern s)

-- Whether a text begins with a pattern is decided by its first bytes.
startswith-longer :
    (x y pattern : Bytes)
    → length pattern ≤ length x
    → startswith (x ++ y) pattern ≡ startswith x pattern
unfolding startswith
startswith-longer x y [] h = refl
startswith-longer [] y (p ∷ pattern) h = absurd (omega arith)
startswith-longer (c ∷ x) y (p ∷ pattern) h = ground (arith, startswith-longer x y pattern)

after_first-absent :
    (pattern body s : Bytes)
    → pattern ≢ []
    → is_absent pattern body ≡ true
    → after_first pattern (body ++ pattern ++ s) ≡ s
unfolding after_first is_absent
after_first-absent [] [] s h e = absurd (h refl)
after_first-absent (p ∷ pattern) [] s h e = ground (arith, startswith-append (p ∷ pattern) s)
after_first-absent pattern (c ∷ body) s h e = ground (
  arith,
  startswith-longer (c ∷ (body ++ pattern)) s pattern,
  length-append body pattern,
  after_first-absent pattern body s h,
)

scan_exactly-stops :
    (part : Bytes) (c : ℕ) (expected s : Bytes)
    → stops part c expected ≡ true
    → scan_exactly (part ++ c ∷ s) expected ≡ (false, c ∷ s)
unfolding stops scan_exactly
scan_exactly-stops [] c [] s h = cc
scan_exactly-stops [] c (e ∷ expected) s h = ground arith
scan_exactly-stops (b ∷ part) c [] s h = cc
scan_exactly-stops (b ∷ part) c (e ∷ expected) s h =
    ground (arith, scan_exactly-stops part c expected s)

printable_is-false :
    (blanks s : Bytes) (c d : ℕ)
    → All IsBlank blanks
    → b' ' < d
    → d ≢ c
    → printable_is c (blanks ++ d ∷ s) ≡ (false, s)
unfolding printable_is
printable_is-false blanks s c d h lt n = ground (arith, scan_first_printable-append blanks s d h lt)

marker-d_then :
    (part : Bytes) (c : ℕ) (s : Bytes)
    → stops part c (codes "oarr") ≡ true
    → scan_marker (part ++ c ∷ s) ≡ (false, c ∷ s)
unfolding scan_marker
marker-d_then part c s h = rw (scan_exactly-stops part c (codes "oarr") s h) refl

marker-doarr_then :
    (ws1 : Bytes) (c : ℕ) (s : Bytes)
    → All IsBlank ws1
    → b' ' < c
    → c ≢ b':'
    → scan_marker (codes "oarr" ++ (ws1 ++ c ∷ s)) ≡ (false, s)
unfolding scan_marker
marker-doarr_then ws1 c s h lt n =
    rw (scan_exactly-append (codes "oarr"), printable_is-false ws1 s b':' c h lt n) refl

marker-colon_then :
    (ws1 ws2 : Bytes) (c : ℕ) (s : Bytes)
    → All IsBlank ws1
    → All IsBlank ws2
    → b' ' < c
    → c ≢ b':'
    → scan_marker (codes "oarr" ++ (ws1 ++ b':' ∷ (ws2 ++ c ∷ s))) ≡ (false, s)
unfolding scan_marker
marker-colon_then ws1 ws2 c s h1 h2 lt n =
    rw
      (
        scan_exactly-append (codes "oarr"),
        printable_is-append ws1 _ b':' h1 (omega arith),
        printable_is-false ws2 s b':' c h2 lt n,
      )
      refl

marker-colons_then :
    (ws1 ws2 ws3 : Bytes) (c : ℕ) (s : Bytes)
    → All IsBlank ws1
    → All IsBlank ws2
    → All IsBlank ws3
    → b' ' < c
    → c ≢ b'e'
    → scan_marker (codes "oarr" ++ (ws1 ++ b':' ∷ (ws2 ++ b':' ∷ (ws3 ++ c ∷ s)))) ≡ (false, s)
unfolding scan_marker
marker-colons_then ws1 ws2 ws3 c s h1 h2 h3 lt n =
    rw
      (
        scan_exactly-append (codes "oarr"),
        printable_is-append ws1 _ b':' h1 (omega arith),
        printable_is-append ws2 _ b':' h2 (omega arith),
        printable_is-false ws3 s b'e' c h3 lt n,
      )
      refl

marker-e_then :
    (ws1 ws2 ws3 part : Bytes) (c : ℕ) (s : Bytes)
    → All IsBlank ws1
    → All IsBlank ws2
    → All IsBlank ws3
    → stops part c (codes "xported") ≡ true
    → scan_marker (codes "oarr" ++ (ws1 ++ b':' ∷ (ws2 ++ b':' ∷ (ws3 ++ b'e' ∷ (part ++ c ∷ s)))))
      ≡ (false, c ∷ s)
unfolding scan_marker
marker-e_then ws1 ws2 ws3 part c s h1 h2 h3 h =
    rw
      (
        scan_exactly-append (codes "oarr"),
        printable_is-append ws1 _ b':' h1 (omega arith),
        printable_is-append ws2 _ b':' h2 (omega arith),
        printable_is-append ws3 _ b'e' h3 (omega arith),
        scan_exactly-stops part c (codes "xported") s h,
      )
      refl

module _ (fails : Bool) (alloc : ℕ → Bool) where
  -- The search goes on behind a `d` that begins no marker.
  search-missed :
      (prev : ℕ) (s rest : Bytes)
      → char_is_ident prev ≡ false
      → scan_marker s ≡ (false, rest)
      → search fails alloc prev (b'd' ∷ s) ≡ search fails alloc prev rest
  search-missed prev s rest p m =
      search-again fails alloc prev prev (b'd' ∷ s) rest (unfold step after_d in rw (p, m) refl)

  -- The scanner goes over a token and remembers what it ends in.
  search-spell :
      (prev : ℕ) (t : Token) (s : Bytes)
      → CanFollow prev t
      → search fails alloc prev (spell t s) ≡ search fails alloc (prev_after prev t) s
  search-spell prev (other c) s h =
      search-again fails alloc prev c (c ∷ s) s (unfold step in ground arith)
  search-spell prev (d_then part c) s (p, o, n) =
      search-missed prev (part ++ c ∷ s) (c ∷ s) p (marker-d_then part c s n)
      ∙ search-again fails alloc prev c (c ∷ s) s (unfold step in ground arith)
  search-spell prev (doarr_then ws1 c) s (p, h, lt, n) =
      search-missed prev _ s p (marker-doarr_then ws1 c s h lt n)
  search-spell prev (colon_then ws1 ws2 c) s (p, h1, h2, lt, n) =
      search-missed prev _ s p (marker-colon_then ws1 ws2 c s h1 h2 lt n)
  search-spell prev (colons_then ws1 ws2 ws3 c) s (p, h1, h2, h3, lt, n) =
      search-missed prev _ s p (marker-colons_then ws1 ws2 ws3 c s h1 h2 h3 lt n)
  search-spell prev (e_then ws1 ws2 ws3 part c) s (p, h1, h2, h3, o, n) =
      search-missed prev _ (c ∷ s) p (marker-e_then ws1 ws2 ws3 part c s h1 h2 h3 n)
      ∙ search-again fails alloc prev c (c ∷ s) s (unfold step in ground arith)
  search-spell prev (r_then c) s h =
      search-again fails alloc prev b'R' (b'R' ∷ c ∷ s) s (unfold step after_r in ground arith)
  search-spell prev inner_d s h =
      search-again fails alloc prev prev (b'd' ∷ s) s (unfold step after_d in ground arith)
  search-spell prev (text items) s h =
      search-again fails alloc prev b'"' (b'"' ∷ spell_items items s) s
        (unfold step scan_string in ground (arith, scan_string-spell_items items s h))
  search-spell prev (raw delim body) s (d, l, a) = search-again fails alloc prev b'"' _ s (
      unfold step after_r in
      rw (
        scan_raw_string-after_first delim _ d l,
        after_first-absent (b')' ∷ delim ++ b'"' ∷ []) body s (cons-ne-nil _ _) a,
      ))

abbrev pub spell_all : List Token → Bytes → Bytes
spell_all [] s = s
spell_all (t ∷ ts) s = spell t (spell_all ts s)

abbrev pub prev_after_all : ℕ → List Token → ℕ
prev_after_all prev [] = prev
prev_after_all prev (t ∷ ts) = prev_after_all (prev_after prev t) ts

abbrev pub CanFollowAll : ℕ → List Token → Type 0
CanFollowAll prev [] = Unit
CanFollowAll prev (t ∷ ts) = CanFollow prev t × CanFollowAll (prev_after prev t) ts

module _ (fails : Bool) (alloc : ℕ → Bool) where
  search-spell_all :
      (prev : ℕ) (ts : List Token) (s : Bytes)
      → CanFollowAll prev ts
      → search fails alloc prev (spell_all ts s) ≡ search fails alloc (prev_after_all prev ts) s
  search-spell_all prev [] s h = refl
  search-spell_all prev (t ∷ ts) s (h, hs) =
      search-spell fails alloc prev t (spell_all ts s) h
      ∙ search-spell_all (prev_after prev t) ts s hs

-- Behind any tokens that do not end in a character of an identifier, the declaration
-- `doarr::exported name(`, with any blanks in it, is found: the search returns its name and leaves what
-- follows the parenthesis, if the memory suffices. Tokens are plain bytes, string literals, raw strings,
-- an `R` without a quote behind it, a `d` inside a word, and a word that begins like `doarr::exported`
-- (as `do`, `double` or `doarr::fn`) up to the byte that differs; where that byte ends the match inside
-- `doarr` or `exported`, it is no quote, `R` or `d`. A quote in a character literal is no token.
pub dcc_scan-finds :
    (fails : Bool) (alloc : ℕ → Bool) (ts : List Token) (d : Declaration) (s : Bytes)
    → ((n : ℕ) → alloc n ≡ true)
    → CanFollowAll b' ' ts
    → char_is_ident (prev_after_all b' ' ts) ≡ false
    → IsGood d
    → dcc_scan_up_to_next_export fails alloc (spell_all ts (declared d s)) ≡ some (export d.name, s)
dcc_scan-finds fails alloc ts d s enough h p g =
    dcc_scan-search fails alloc _
    ∙ search-spell_all fails alloc b' ' ts (declared d s) h
    ∙ search-declared fails alloc enough (prev_after_all b' ' ts) d s g p

-- In a text of tokens alone no exported function is found: the search ends cleanly, with nothing
-- left, if the stream has no error.
pub dcc_scan-finds_none :
    (alloc : ℕ → Bool) (ts : List Token)
    → CanFollowAll b' ' ts
    → dcc_scan_up_to_next_export false alloc (spell_all ts []) ≡ some (clean_eof, [])
dcc_scan-finds_none alloc ts h =
    dcc_scan-search false alloc _
    ∙ search-spell_all false alloc b' ' ts [] h
    ∙ search-done false alloc _ [] clean_eof [] (unfold step in refl)
