-- ===== src/Tests/ScanTests.antt =====
-- dcc/dcc_scan.c and the first part of the generated source at concrete sources.
use doarr.Base.{◌≢◌, Bytes, codes, true, false, some, List, [], ◌∷◌, ◌++◌, ◌≡◌, refl, arith}
use doarr.Options.Lookup.{startswith}
use doarr.Scan.Chars.{char_is_ident, char_is_ident_start, scan_raw_string}
use doarr.Scan.RawStrings.{after_first, scan_raw_string-after_first}
use doarr.Scan.Declarations.{Declaration, IsGood, declared}
use doarr.Scan.Names.{IsIdentifier, dcc_scan-IsName, dcc_scan-ne-overrun}
use doarr.Scan.Total.{dcc_scan_total}
use doarr.Scan.Tokens.{
  Token, other, d_then, doarr_then, colons_then, e_then, stops, r_then, inner_d, text, raw,
  character, StringItem, spell_all, CanFollowAll, is_absent, prev_after_all, dcc_scan-finds,
}
use doarr.Gen.Source.Total.{generate_c_part1_total}
use doarr.Gen.Source.{Part1, generated, generate_c_part1, generated_file_prolog, compiler_args_text}
use doarr.Gen.Source.Entries.{Part, IsPart, source_of, entries_of, generate_c_part1-entries_of}
use doarr.Scan.{
  ScanResult, export, clean_eof, failed, non_function, overrun, has_double_underscore,
  dcc_scan_up_to_next_export,
}

finds :
    dcc_scan_up_to_next_export false
      (λ _. true)
      (codes "void g(\"doarr::exported x(\"); R\"d(doarr)\")d\" ; doarr :: exported f (int);")
    ≡ some (export (codes "f"), codes "int);")
unfolding dcc_scan_up_to_next_export
finds = refl

-- The `d` in front is taken for the end of the token before it.
finds_in_longer_name :
    dcc_scan_up_to_next_export false (λ _. true) (codes "ddoarr::exported f()")
    ≡ some (export (codes "f"), codes ")")
unfolding dcc_scan_up_to_next_export
finds_in_longer_name = refl

misses_behind_r :
    dcc_scan_up_to_next_export false (λ _. true) (codes "template<class R>doarr::exported f()")
    ≡ some (clean_eof, codes "")
unfolding dcc_scan_up_to_next_export
misses_behind_r = refl

longer_marker :
    dcc_scan_up_to_next_export false (λ _. true) (codes "doarr::exported_t f()")
    ≡ some (failed (non_function (codes "_t")), codes "()")
unfolding dcc_scan_up_to_next_export
longer_marker = refl

abbrev tokens : List Token
tokens =
    other (b'i')
    ∷ inner_d
    ∷ other (b' ')
    ∷ d_then (codes "o") (b'u')
    ∷ other (b'b')
    ∷ other (b' ')
    ∷ e_then [] [] [] (codes "xp") (b'l')
    ∷ other (b' ')
    ∷ doarr_then (codes " ") (b';')
    ∷ colons_then [] [] [] (b'f')
    ∷ r_then (b';')
    ∷ text (character (b'd') ∷ StringItem.escape (b'"') ∷ [])
    ∷ raw (codes "d") (codes ")d doarr::exported")
    ∷ other (b';')
    ∷ []

abbrev declaration : Declaration
declaration = record {
  ws1 = [];
  ws2 = codes " ";
  ws3 = 9 ∷ [];
  ws4 = codes " ";
  name = codes "f_1";
  ws5 = codes " ";
}

declaration-IsGood : IsGood declaration
unfolding has_double_underscore char_is_ident char_is_ident_start
declaration-IsGood = ground arith

tokens-CanFollowAll : CanFollowAll b' ' tokens
unfolding is_absent char_is_ident startswith stops
tokens-CanFollowAll = ground arith

ends_outside : char_is_ident (prev_after_all b' ' tokens) ≡ false
unfolding char_is_ident
ends_outside = refl

dcc_scan-finds_example :
    dcc_scan_up_to_next_export false
      (λ _. true)
      (spell_all tokens (declared declaration (codes "int);")))
    ≡ some (export (codes "f_1"), codes "int);")
dcc_scan-finds_example =
    dcc_scan-finds false (λ _. true) tokens declaration (codes "int);") (λ _. refl)
      tokens-CanFollowAll ends_outside declaration-IsGood

scan_raw_string-after_first_example :
    scan_raw_string (codes "ab" ++ b'(' ∷ codes "x)ab)a)ab\";")
    ≡ some (after_first (b')' ∷ codes "ab" ++ b'"' ∷ []) (codes "x)ab)a)ab\";"))
scan_raw_string-after_first_example =
    scan_raw_string-after_first (codes "ab") (codes "x)ab)a)ab\";") (omega arith) (omega arith)

dcc_scan_total_example :
    (x : ScanResult) × (rest : Bytes) × (dcc_scan_up_to_next_export true
        (λ _. false)
        (codes "R\"(x doarr::exported")
      ≡ some (x, rest))
dcc_scan_total_example = dcc_scan_total true (λ _. false) (codes "R\"(x doarr::exported")

abbrev source : Bytes
source = codes "void g(); doarr::exported f (int);"

source-finds :
    dcc_scan_up_to_next_export false (λ _. true) source ≡ some (export (codes "f"), codes "int);")
unfolding dcc_scan_up_to_next_export
source-finds = refl

dcc_scan-IsName_example :
    IsIdentifier (codes "f") × ((xs ys : Bytes) → codes "f" ≢ xs ++ b'_' ∷ b'_' ∷ ys)
dcc_scan-IsName_example =
    dcc_scan-IsName false (λ _. true) source (codes "f") (codes "int);") source-finds

dcc_scan-ne-overrun_example :
    dcc_scan_up_to_next_export false
      (λ _. true)
      (codes "doarr::exported abcdefghijklmnopqrstuvwxyz0123456789(")
    ≢ some (failed overrun, [])
dcc_scan-ne-overrun_example =
    dcc_scan-ne-overrun false (λ _. true)
      (codes "doarr::exported abcdefghijklmnopqrstuvwxyz0123456789(") []

abbrev part : Part
part = record { before = tokens; exported = declaration }

generate_c_part1-entries_of_example :
    generate_c_part1 false
      (λ _. true)
      (codes "struct guest_file;\n")
      3
      (source_of (part ∷ part ∷ []) tokens)
      (codes "g++" ∷ [])
    ≡ some (
        generated (
          generated_file_prolog (codes "struct guest_file;\n") 3
          ++ entries_of 3 (part ∷ part ∷ [])
          ++ compiler_args_text (codes "g++" ∷ [])))
generate_c_part1-entries_of_example =
    generate_c_part1-entries_of (λ _. true) (codes "struct guest_file;\n") 3 (codes "g++" ∷ []) part
      (part ∷ []) tokens (λ _. refl) (part-IsPart, (part-IsPart, tt)) tokens-CanFollowAll
  where
    part-IsPart : IsPart part
    part-IsPart = (tokens-CanFollowAll, ends_outside, declaration-IsGood)

generate_c_part1_total_example :
    (written : Part1) × (generate_c_part1 true
        (λ _. false)
        (codes "struct guest_file;\n")
        3
        (codes "R\"(x doarr::exported")
        []
      ≡ some written)
generate_c_part1_total_example =
    generate_c_part1_total true (λ _. false) (codes "struct guest_file;\n") 3
      (codes "R\"(x doarr::exported") []
