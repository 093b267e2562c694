-- ===== src/Tests/RuntimeTests.antt =====
-- runtime/io.c at concrete inputs.
use doarr.Base.{
  ◌≢◌, take, drop, map, true, false, Bytes, codes, some, none, List, [], ◌∷◌, ◌++◌, ◌≡◌, refl,
  arith,
}
use doarr.Options.Parse.{CompilerArg, Config}
use doarr.Gen.Args.{common_opts}
use doarr.Gen.Args.Position.{runtime_words}
use doarr.Base.Int.{ℤ, negsuc}
use doarr.Base.{All}
use doarr.Gen.Args.{build_runtime_args}
use doarr.Gen.Escape.{escape}
use doarr.Gen.Escape.RoundTrip.{IsEscapable}
use doarr.Gen.Literal.{is_hex_digit, read_literal}
use doarr.Runtime.{GuestFile}
use doarr.Runtime.Execute.{execute_compiler}
use doarr.Runtime.Execute.Command.{guest_file, runtime_command, runtime_command_overrun}
use doarr.Runtime.Remover.{Processes, write_end_closed, at_fork}
use doarr.Runtime.TmpPath.Counter.{path_of, name_after, tmp_path-differs}

abbrev kept : Bytes → CompilerArg
kept w = record { arg = w; also_runtime = true }

abbrev left_out : Bytes → CompilerArg
left_out w = record { arg = w; also_runtime = false }

abbrev config_of : List CompilerArg → Config
config_of args = record {
  compiler_args = args;
  output = none;
  compile = true;
  preproc = false;
  nowarn = false;
  verbose = false;
  invalid = false;
}

abbrev config : Config
config = config_of (left_out (codes "-includea.h") ∷ kept (codes "-g") ∷ kept (codes "-O2") ∷ [])

abbrev guest : List Bytes → ℤ → GuestFile
guest args position = record {
  gch_data = [];
  compiler_args = args;
  pos_between_args = position;
  gch_tmp_path = [];
}

program-IsEscapable : IsEscapable (codes "g++")
unfolding is_hex_digit
program-IsEscapable = ground arith

words-IsEscapable : All IsEscapable (runtime_words config.compiler_args)
unfolding is_hex_digit
words-IsEscapable = ground arith

runtime_command_example :
    (file : GuestFile) × (guest_file config (codes "g++") 2 [] ≡ some file)
    × (execute_compiler (codes "x.cpp") (codes "x.so") file
        ≡ some (
            map some (
              codes "g++" ∷ common_opts
              ++ runtime_words (take 2 config.compiler_args)
              ++ codes "x.cpp" ∷ runtime_words (drop 2 config.compiler_args)
              ++ codes "-o" ∷ codes "x.so" ∷ [])
            ++ none ∷ []))
runtime_command_example =
    runtime_command config (codes "g++") (codes "x.cpp") (codes "x.so") [] 2 (omega arith) refl
      program-IsEscapable words-IsEscapable

abbrev many : Config
many = let a = left_out (codes "-includea.h") in config_of (a ∷ a ∷ a ∷ a ∷ a ∷ a ∷ [])

abbrev guest_of_many : GuestFile
guest_of_many = guest (codes "g++" ∷ common_opts) (negsuc 0)

many-compiled : guest_file many (codes "g++") 0 [] ≡ some guest_of_many
unfolding build_runtime_args read_literal escape
many-compiled = refl

runtime_command_overrun_example :
    execute_compiler (codes "x.cpp") (codes "x.so") guest_of_many ≡ none
runtime_command_overrun_example =
    runtime_command_overrun many (codes "g++") (codes "x.cpp") (codes "x.so") [] 0 guest_of_many
      many-compiled (omega arith) (omega arith)

tmp_path-differs_example :
    (first later : Bytes) × (name_after 0 (codes ".cpp") (path_of (codes "/tmp/d") (codes "az"))
      ≡ some first)
    × (name_after 3 (codes ".so") (path_of (codes "/tmp/d") (codes "az")) ≡ some later)
    × (first ≢ later)
tmp_path-differs_example =
    tmp_path-differs (codes "/tmp/d") (codes "az") (codes ".cpp") (codes ".so") 3 (omega arith)
      (omega arith) (omega arith)

-- The process has started a compiler, which outlives it.
abbrev outlived : Processes
outlived = record at_fork {
  is_running = false;
  holds_write = false;
  holds_read = false;
  others = 1;
  stage = write_end_closed;
  child_holds_write = false;
}
