-- ===== src/Scan/Declarations.antt =====
-- dcc/dcc_scan.c: a declaration `doarr::exported name(` is read as it is written.
use doarr.Base.{
  ℕ, ◌+◌, ◌≤◌, ◌<◌, ◌/◌, ◌*◌, Bytes, codes, Option-cases, Bool, true, false, none, some, [], ◌∷◌,
  ◌++◌, ◌≡◌, ◌≢◌, arith, refl, length, inl, inr, All, append_assoc, append-nil, length-append,
}
use doarr.Scan.Chars.{char_is_ident_start, char_is_ident, scan_exactly, scan_first_printable}
use doarr.Scan.Names.{IsIdent, IsName, grown-lt}
use doarr.Scan.Search.{search, search-done}
use doarr.Scan.{
  export, ident, has_double_underscore, printable_is, scan_marker, scan_ident_rest, scan_ident,
  scan_function, after_d, step, grown,
}

-- White space, as the scanner skips it: control characters and blanks.
abbrev pub IsBlank : ℕ → Type 0
IsBlank c = c ≤ b' '

pub scan_first_printable-append :
    (blanks s : Bytes) (c : ℕ)
    → All IsBlank blanks
    → b' ' < c
    → scan_first_printable (blanks ++ c ∷ s) ≡ (some c, s)
unfolding scan_first_printable
scan_first_printable-append [] s c h lt = ground arith
scan_first_printable-append (b ∷ blanks) s c h lt =
    ground (arith, scan_first_printable-append blanks s c h.1 lt)

pub printable_is-append :
    (blanks s : Bytes) (c : ℕ)
    → All IsBlank blanks
    → b' ' < c
    → printable_is c (blanks ++ c ∷ s) ≡ (true, s)
unfolding printable_is
printable_is-append blanks s c h lt = ground (arith, scan_first_printable-append blanks s c h lt)

pub scan_exactly-append : (xs s : Bytes) → scan_exactly (xs ++ s) xs ≡ (true, s)
unfolding scan_exactly
scan_exactly-append [] s = refl
scan_exactly-append (x ∷ xs) s = ground (arith, scan_exactly-append xs s)

-- `oarr`, two colons and `exported`, with blanks between them.
abbrev pub marker : Bytes → Bytes → Bytes → Bytes → Bytes
marker ws1 ws2 ws3 s =
    codes "oarr" ++ (ws1 ++ b':' ∷ (ws2 ++ b':' ∷ (ws3 ++ b'e' ∷ (codes "xported" ++ s))))

scan_marker-append :
    (ws1 ws2 ws3 s : Bytes)
    → All IsBlank ws1
    → All IsBlank ws2
    → All IsBlank ws3
    → scan_marker (marker ws1 ws2 ws3 s) ≡ (true, s)
unfolding scan_marker
scan_marker-append ws1 ws2 ws3 s h1 h2 h3 =
    rw
      (
        scan_exactly-append (codes "oarr"),
        printable_is-append ws1 _ b':' h1 (omega arith),
        printable_is-append ws2 _ b':' h2 (omega arith),
        printable_is-append ws3 _ b'e' h3 (omega arith),
      )
      (scan_exactly-append (codes "xported") s)

module _ (fails : Bool) (alloc : ℕ → Bool) (enough : (n : ℕ) → alloc n ≡ true) where
  grown-ne-none : (size capacity : ℕ) → grown fails alloc size capacity ≢ none
  unfolding grown
  grown-ne-none size capacity e = ground (arith, enough (capacity / 2 * 3))

  -- An identifier is read up to the first byte that belongs to none, which stays in the stream.
  scan_ident_rest-append :
      (name s ptr : Bytes) (c capacity : ℕ)
      → All IsIdent name
      → char_is_ident c ≡ false
      → 4 ≤ capacity
      → length ptr < capacity
      → scan_ident_rest fails alloc (name ++ c ∷ s) ptr capacity ≡ (ident (ptr ++ name), c ∷ s)
  unfolding scan_ident_rest
  scan_ident_rest-append [] s ptr c capacity h n le lt = ground (arith, append-nil ptr)
  scan_ident_rest-append (d ∷ name) s ptr c capacity (hd, h) n le lt =
      elim (Option-cases (grown fails alloc (length ptr + 1) capacity)) [
        | inl e ↦ absurd (grown-ne-none (length ptr + 1) capacity e)
        | inr (m, e) ↦ ground (
          arith,
          grown-lt fails alloc (length ptr + 1) capacity m le (omega arith) e,
          length-append ptr (d ∷ []),
          append_assoc ptr (d ∷ []) name,
          scan_ident_rest-append name s (ptr ++ d ∷ []) c m h n,
        )
      ]

  char_is_ident_start-lt : (c : ℕ) → char_is_ident_start c ≡ true → b' ' < c
  unfolding char_is_ident_start
  char_is_ident_start-lt c h = ground arith

  blank-not-ident : (c : ℕ) → c ≤ b' ' → char_is_ident c ≡ false
  unfolding char_is_ident
  blank-not-ident c h = ground arith

  scan_ident-append :
      (ws4 name s : Bytes) (c : ℕ)
      → All IsBlank ws4
      → IsName name
      → char_is_ident c ≡ false
      → scan_ident fails alloc (ws4 ++ (name ++ c ∷ s)) ≡ (ident name, c ∷ s)
  unfolding scan_ident
  scan_ident-append ws4 [] s c h n stop = absurd n
  scan_ident-append ws4 (a ∷ name) s c h (na, n) stop =
      let first =
        scan_first_printable-append ws4 (name ++ c ∷ s) a h (char_is_ident_start-lt a na) in
      ground (
        arith,
        first,
        enough 32,
        scan_ident_rest-append name s (a ∷ []) c 32 n stop (omega arith) (omega arith),
      )

  scan_ident_before :
      (ws4 name ws5 s : Bytes)
      → All IsBlank ws4
      → IsName name
      → All IsBlank ws5
      → scan_ident fails alloc (ws4 ++ (name ++ (ws5 ++ b'(' ∷ s))) ≡ (ident name, ws5 ++ b'(' ∷ s)
  scan_ident_before ws4 name [] s h4 n h5 =
      scan_ident-append ws4 name s b'(' h4 n (unfold char_is_ident in refl)
  scan_ident_before ws4 name (b ∷ ws5) s h4 n h5 =
      scan_ident-append ws4 name (ws5 ++ b'(' ∷ s) b h4 n (blank-not-ident b h5.0)

  scan_function-append :
      (ws4 name ws5 s : Bytes)
      → All IsBlank ws4
      → IsName name
      → has_double_underscore name ≡ false
      → All IsBlank ws5
      → scan_function fails alloc (ws4 ++ (name ++ (ws5 ++ b'(' ∷ s))) ≡ (export name, s)
  unfolding scan_function
  scan_function-append ws4 name ws5 s h4 n u h5 = ground (
    arith,
    scan_ident_before ws4 name ws5 s h4 n h5,
    printable_is-append ws5 s b'(' h5 (omega arith),
  )

-- How a declaration is written: the blanks in it, and the name.
pub record Declaration : Type 0 where
  pub ws1 : Bytes
  pub ws2 : Bytes
  pub ws3 : Bytes
  pub ws4 : Bytes
  pub name : Bytes
  pub ws5 : Bytes

pub record IsGood (d : Declaration) : Type 0 where
  pub blank1 : All IsBlank d.ws1
  pub blank2 : All IsBlank d.ws2
  pub blank3 : All IsBlank d.ws3
  pub blank4 : All IsBlank d.ws4
  pub blank5 : All IsBlank d.ws5
  pub is_name : IsName d.name
  pub no_double : has_double_underscore d.name ≡ false

-- `doarr::exported name(`, and what follows.
abbrev pub declared : Declaration → Bytes → Bytes
declared d s = b'd' ∷ marker d.ws1 d.ws2 d.ws3 (d.ws4 ++ (d.name ++ (d.ws5 ++ b'(' ∷ s)))

module _ (fails : Bool) (alloc : ℕ → Bool) (enough : (n : ℕ) → alloc n ≡ true) where
  pub search-declared :
      (prev : ℕ) (d : Declaration) (s : Bytes)
      → IsGood d
      → char_is_ident prev ≡ false
      → search fails alloc prev (declared d s) ≡ some (export d.name, s)
  search-declared prev d s g p = search-done fails alloc prev (declared d s) (export d.name) s (
      unfold step after_d in
      rw (
        p,
        scan_marker-append d.ws1 d.ws2 d.ws3 _ g.blank1 g.blank2 g.blank3,
        scan_function-append fails alloc enough d.ws4 d.name d.ws5 s g.blank4 g.is_name g.no_double
            g.blank5,
      ))
