-- ===== src/Tests/ProgramTests.antt =====
-- dcc/dcc.c on a host where every tool is found.
use doarr.Base.{
  ◌≡◌, Bytes, codes, Bool, true, false, not, ◌&&◌, none, some, List, [], ◌∷◌, take, refl,
}
use doarr.Options.Parse.{dcc_parse_args}
use doarr.Files.Names.{object_name}
use doarr.Find.{
  find_all_tools, find_tools_slash, find_tools_path, find_in_dir, has_slash, split_path,
  search_path, fd_to_abs_path, path_loop,
}
use doarr.Process.Events.{
  TmpFile, tmp_pch, tmp_c, tmp_o, tmp_output_file, History, present, RemovalsWork, try, tell,
}
use doarr.Process.File.{
  process_single_file, with_pipe, write_source, after_part1, write_part2, end_source, make_object,
  run_tool, give_up_file, tell_if,
}
use doarr.Process.Main.{dcc_gen_main, checked_outputs, write_outputs, move_objects, process_files}
use doarr.Program.Variables.{env_value, concat}
use doarr.Program.Prepare.{
  Host, Prepared, prepare, read_arguments, find_compiler, require, required, copy_values, ◌>>=◌,
  ◌>>◌,
}
use doarr.Program.Run.{Run, exited, main, make_tmp, in_tmp, rm_tmp}
use doarr.Program.Ready.{IsReady, Finds}
use doarr.Program.Removed.{LeavesNothing, main-LeavesNothing}
use doarr.Program.Checked.{main-IsReady}

-- The directory that rmdir is called on is empty.
abbrev is_bare : History → Bool
is_bare h =
    not (present h tmp_pch)
    && not (present h tmp_c)
    && not (present h tmp_o)
    && not (present h (tmp_output_file 0))

abbrev host : Host
host = record {
  allocates = λ _. true;
  dev_null = some 3;
  dev_fd = some 4;
  getenv = λ _. none;
  open_tool = λ _. none;
  open_dir = λ _. some 5;
  openat = λ _ _. some 6;
  is_executable = λ _. true;
  readlinkat = λ fd capacity. some (take capacity (codes "/usr/bin/c++"));
  path_alloc = λ _. true;
  mkdtemp = λ template. some template;
  open_tmp = λ _. true;
  work = λ h e. true;
  rmdir = λ dir h. is_bare h;
}

abbrev argv : List Bytes
argv = codes "-c" ∷ codes "a.cpp" ∷ []

bare : (h : History) → ((f : TmpFile) → present h f ≡ false) → is_bare h ≡ true
bare h gone = rw (gone tmp_pch, gone tmp_c, gone tmp_o, gone (tmp_output_file 0)) refl

unfoldable run : Run
unfolding main prepare read_arguments find_compiler require required copy_values ◌>>=◌ ◌>>◌
    env_value concat find_all_tools find_tools_slash find_tools_path find_in_dir has_slash
    split_path search_path fd_to_abs_path path_loop make_tmp in_tmp rm_tmp dcc_gen_main
    checked_outputs write_outputs move_objects process_files object_name process_single_file
    with_pipe write_source after_part1 write_part2 end_source make_object run_tool give_up_file
    tell_if try tell dcc_parse_args
run = main host 20 argv

makes : run.made ≡ some (codes "/tmp/dcc.XXXXXX")
unfolding run
makes = refl

succeeds : run.status ≡ exited 0
unfolding run
succeeds = refl

removes : run.removed ≡ some true
unfolding run
removes = refl

main-IsReady_example : (p : Prepared) × IsReady host argv (Finds host 20) p
main-IsReady_example = main-IsReady host 20 argv (codes "/tmp/dcc.XXXXXX") (unfold run in makes)

run-RemovalsWork : RemovalsWork run.history
unfolding run
run-RemovalsWork = tt

main-LeavesNothing_example : LeavesNothing (main host 20 argv)
main-LeavesNothing_example =
    main-LeavesNothing host (λ dir h gone. bare h gone) 20 argv (unfold run in run-RemovalsWork)
