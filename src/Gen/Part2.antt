-- ===== src/Gen/Part2.antt =====
-- dcc/dcc_gen.c: the second part of the generated source, `generate_c_part2_bin` and
-- `generate_c_part2_txt`.
pub mod Reader
pub mod RoundTrip
use doarr.Base.{ℕ, suc, Bytes, codes, length, [], ◌∷◌, ◌++◌}
use doarr.Base.Decimal.{decimal}
use doarr.Base.Int.{ℤ, pos, negsuc}
use doarr.Gen.Dump.{dump}

-- %i
abbrev pub int_decimal : ℤ → Bytes
int_decimal (pos n) = decimal n
int_decimal (negsuc n) = b'-' ∷ decimal (suc n)

unfoldable pub generated_file_epilog : ℕ → Bytes → ℕ → ℤ → Bytes
generated_file_epilog file_index data_symbol data_size pos_between_args =
    codes "\n"
    ++ codes "static struct guest_file doarr__file_"
    ++ decimal file_index
    ++ codes " = {\n"
    ++ codes " .gch_data = "
    ++ data_symbol
    ++ codes ",\n"
    ++ codes " .gch_data_end = "
    ++ data_symbol
    ++ codes " + "
    ++ decimal data_size
    ++ codes ",\n"
    ++ codes " .compiler_args = doarr__compiler_args,\n"
    ++ codes " .num_compiler_args = sizeof doarr__compiler_args / sizeof *doarr__compiler_args,\n"
    ++ codes " .pos_between_args = "
    ++ int_decimal pos_between_args
    ++ codes ",\n"
    ++ codes "};\n"

-- The symbol that ld defines for the file DOARR_PRECOMPILED.
abbrev pub binary_symbol : Bytes
binary_symbol = codes "_binary_doarr__precompiled_start"

unfoldable pub generate_c_part2_bin : ℕ → ℕ → ℤ → Bytes
generate_c_part2_bin file_index data_size pos_between_args =
    codes "\nextern const unsigned char "
    ++ binary_symbol
    ++ codes "[];\n"
    ++ generated_file_epilog file_index binary_symbol data_size pos_between_args

unfoldable pub text_symbol : ℕ → Bytes
text_symbol file_index = codes "doarr__precompiled_" ++ decimal file_index

unfoldable pub generate_c_part2_txt : ℕ → Bytes → ℤ → Bytes
generate_c_part2_txt file_index data_bytes pos_between_args =
    let data_size = length data_bytes in
    let data_symbol = text_symbol file_index in
    codes "\nstatic const unsigned char "
    ++ data_symbol
    ++ codes "["
    ++ decimal data_size
    ++ codes "];\n"
    ++ generated_file_epilog file_index data_symbol data_size pos_between_args
    ++ codes "\nstatic const unsigned char "
    ++ data_symbol
    ++ codes "["
    ++ decimal data_size
    ++ codes "] = \"\\\n"
    ++ dump data_bytes
    ++ codes "\";\n"
