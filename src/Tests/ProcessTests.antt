-- ===== src/Tests/ProcessTests.antt =====
-- dcc/dcc_gen.c on small environments.
use doarr.Base.{◌≡◌, codes, true, false, none, some, [], ◌∷◌, refl}
use doarr.Options.Parse.{InputFile, Config}
use doarr.Files.Names.{object_name}
use doarr.Process.Events.{wait, Child.tool, tool_cc, Env, preprocessor_output, held, tell, try}
use doarr.Process.File.{
  Tools, Result, with_pipe, write_source, after_part1, write_part2, end_source, make_object,
  run_tool, process_single_file, give_up_file, tell_if,
}
use doarr.Process.Main.{dcc_gen_main, checked_outputs, write_outputs, move_objects, process_files}

abbrev tools : Tools
tools = record {
  name = λ t. codes "tool";
  program = codes "/usr/bin/c++";
  tmp_pch_abs = codes "/tmp/dcc.1/doarr__precompiled";
}

abbrev to_object : Config
to_object = record {
  compiler_args = [];
  output = none;
  compile = true;
  preproc = false;
  nowarn = false;
  verbose = false;
  invalid = false;
}

abbrev input : InputFile
input = record { name = codes "a.cpp"; pos_between_opts = 0 }

-- All goes well.
abbrev well : Env
well h e = true

-- cc fails.
abbrev no_cc : Env
no_cc h (wait (tool tool_cc)) = false
no_cc h _ = true

unfoldable run : Env → Result
unfolding process_single_file with_pipe write_source after_part1 write_part2 end_source make_object
    run_tool give_up_file tell_if try tell
run env = process_single_file tools env to_object 0 input []

succeeds : (run well).0 ≡ some true
unfolding run
succeeds = refl

fails : (run no_cc).0 ≡ some false
unfolding run
fails = refl

-- The stream of the preprocessor is not closed.
stays_open : held (run well).1 ≡ preprocessor_output ∷ []
unfolding run
stays_open = refl

both : (dcc_gen_main tools well to_object (input ∷ input ∷ []) []).0 ≡ some true
unfolding dcc_gen_main checked_outputs write_outputs move_objects process_files object_name
    process_single_file with_pipe write_source after_part1 write_part2 end_source make_object
    run_tool give_up_file tell_if try tell
both = refl
