-- ===== src/Tests/GenTests.antt =====
-- dcc/dcc_gen.c at concrete inputs.
use doarr.Base.{
  ◌+◌, ◌≤◌, ◌↔◌, length, take, drop, Bytes, codes, true, false, some, List, [], ◌∷◌, ◌++◌, ◌≡◌,
  arith,
}
use doarr.Base.Int.{pos, negsuc}
use doarr.Options.Parse.{CompilerArg, Config, InputFile}
use doarr.Gen.Args.{
  build_runtime_args, common_opts, dcc_gen_required_arg_buff_size, start_precompiler,
  start_preprocessor,
}
use doarr.Gen.Args.Bounds.{FitsIn, cxx_args_fit}
use doarr.Gen.Args.Position.{runtime_words, count_left_out, position_iff}
use doarr.Gen.Dump.{dump}
use doarr.Gen.Dump.RoundTrip.{decode-dump}
use doarr.Gen.Escape.{escape}
use doarr.Gen.Escape.RoundTrip.{IsEscapable, decode-escape}
use doarr.Gen.Part2.{binary_symbol, text_symbol, generate_c_part2_bin, generate_c_part2_txt}
use doarr.Gen.Part2.Reader.{read_bin, read_txt}
use doarr.Gen.Part2.RoundTrip.{read-generate_c_part2}
use doarr.Gen.Literal.{decode_literal, is_hex_digit, read_literal, replace_trigraphs}

abbrev header : Bytes
header = codes "gpch" ++ 0 ∷ 7 ∷ 255 ∷ codes "9\n\"\\"

decode-dump_example :
    decode_literal (codes "\\\n" ++ (dump header ++ codes "\";\n")) ≡ some (header, codes ";\n")
decode-dump_example = decode-dump header (omega arith)

abbrev argument : Bytes
argument = codes "-DNAME=\"a b\\" ++ 10 ∷ codes "x??/"

argument-IsEscapable : IsEscapable argument
unfolding is_hex_digit
argument-IsEscapable = ground arith

decode-escape_example :
    read_literal (escape argument ++ b'"' ∷ b',' ∷ codes "0};")
    ≡ some (argument, b',' ∷ replace_trigraphs (codes "0};"))
decode-escape_example = decode-escape argument (codes "0};") argument-IsEscapable

abbrev kept : Bytes → CompilerArg
kept w = record { arg = w; also_runtime = true }

abbrev left_out : Bytes → CompilerArg
left_out w = record { arg = w; also_runtime = false }

abbrev config_of : List CompilerArg → Config
config_of args = record {
  compiler_args = args;
  output = some (codes "o");
  compile = true;
  preproc = false;
  nowarn = false;
  verbose = false;
  invalid = false;
}

abbrev config : Config
config = config_of (kept (codes "-g") ∷ left_out (codes "-includea.h") ∷ kept (codes "-O2") ∷ [])

abbrev file : InputFile
file = record { name = codes "a.cpp"; pos_between_opts = 2 }

cxx_args_fit_example :
    FitsIn
      (dcc_gen_required_arg_buff_size config 1)
      (start_precompiler config (codes "g++") file (codes "o.gch"))
    × FitsIn
        (dcc_gen_required_arg_buff_size config 1)
        (start_preprocessor config (codes "g++") file)
    × (length (build_runtime_args config (codes "g++") 2).0 + 1
        ≤ dcc_gen_required_arg_buff_size config 1)
cxx_args_fit_example = cxx_args_fit config 1 (codes "g++") (codes "o.gch") file (omega arith)

position_iff_example :
    ((build_runtime_args config (codes "g++") 2).1
      ≡ pos (1 + length common_opts + length (runtime_words (take 2 config.compiler_args))))
    ↔ (count_left_out (drop 2 config.compiler_args) ≡ 0)
position_iff_example = position_iff config (codes "g++") 2 (omega arith)

abbrev many : Config
many = let a = left_out (codes "-includea.h") in config_of (a ∷ a ∷ a ∷ a ∷ a ∷ a ∷ a ∷ [])

read-generate_c_part2_example :
    (read_bin binary_symbol (generate_c_part2_bin 3 70000 (negsuc 1))
      ≡ some (record { file_index = 3; data_size = 70000; pos_between_args = negsuc 1 }))
    × (read_txt (text_symbol 3) (generate_c_part2_txt 3 header (negsuc 1))
        ≡ some (
          record { file_index = 3; data_size = 11; pos_between_args = negsuc 1 },
          11,
          11,
          header,
        ))
read-generate_c_part2_example = read-generate_c_part2 3 70000 (negsuc 1) header (omega arith)
