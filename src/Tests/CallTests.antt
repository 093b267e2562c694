-- ===== src/Tests/CallTests.antt =====
-- runtime/call.cpp on a small machine, where a compiled library is a copy of the source, and a
-- function is the text of the library that it was found in.
use mathlib.Core.Option
use doarr.Base.{
  ℕ, ◌≡◌, ◌⊎◌, Bytes, codes, bytes_eq, bytes_eq_refl, true, false, Option, none, some, List, [],
  ◌∷◌, ◌++◌, if◌then◌else◌, refl, arith,
}
use doarr.Base.Decimal.{digits}
use doarr.Base.Int.{pos}
use doarr.Expr.{AnyValue, i, raw, dyn, nil, cons, num_params_all, extract_params_all, write_all}
use doarr.Expr.Equal.{skeleton_all}
use doarr.Runtime.{GuestFile}
use doarr.Runtime.System.{System, exited}
use doarr.Runtime.TmpPath.{IoCtx, ForkResult.parent}
use doarr.Runtime.Extract.{Extracted, doarr_extract_precompiled_or_null}
use doarr.Runtime.Extract.Written.{extract-once}
use doarr.Runtime.Load.{LoadResult, loaded, not_compiled, compile, doarr_compile_and_load}
use doarr.Runtime.Load.Removed.{KeepsFiles, compile_and_load-gone}
use doarr.Call.{GuestFn, CacheKey, Runtime, Outcome, ran, call}
use doarr.Call.Keys.{key_skeleton}
use doarr.Call.Again.{call-Again}
use doarr.Call.Ran.{started, IsServedBy, call-IsServedBy}
use doarr.Tests.ExprTests.{op_text, classes, same, same_sound}
use doarr.Tests.FilesTests.{Disk, disk, remove, remove-Shrinks, disk-IsLawful}

abbrev read_file : Bytes → Disk → Bytes
read_file name w = elim (w.dir name) [ none ↦ [] | some d ↦ d ]

abbrev put : Bytes → Bytes → Disk → Disk
put name d w = record w { dir = λ other. if bytes_eq other name then some d else w.dir other }

-- The compiler of this machine copies its input.
abbrev run_compiler : List (Option Bytes) → Disk → Disk
run_compiler (some cxx ∷ some input ∷ o ∷ some output ∷ rest) w = put output (read_file input w) w
run_compiler _ w = w

abbrev pub machine : System
machine = record {
  os = disk;
  Pid = Unit;
  Handle = Bytes;
  Function = Bytes;
  File = Bytes;
  mkdtemp = λ template w. (some (codes "/tmp/doarr.123456"), w);
  rmdir = λ path w. w;
  pipe = λ w. (true, w);
  fork_remover = λ w. (parent, w);
  open_new = λ path w. (some path, put path [] w);
  unlink = λ path w. (true, remove path w);
  fork_exec = λ argv w. (some tt, elim argv [ none ↦ w | some args ↦ run_compiler args w ]);
  waitid = λ pid w. (some (exited 0), w);
  dlopen = λ path w. (some (read_file path w), w);
  dlsym = λ handle name w. (some handle, w);
  dlclose = λ handle w. w;
  fopen = λ path w. (some path, put path [] w);
  fputs = λ text file w. put file (read_file file w ++ text) w;
  fclose = λ file w. w;
}

machine-KeepsFiles : KeepsFiles machine
machine-KeepsFiles = record {
  unlink_clears = λ path w. ground (arith, bytes_eq_refl path);
  unlink-Shrinks = λ path w. remove-Shrinks path w;
  dlopen-Shrinks = λ path w n d e. e;
  dlsym-Shrinks = λ handle name w n d e. e;
  dlclose-Shrinks = λ handle w n d e. e;
}

abbrev guest : GuestFile
guest = record {
  gch_data = codes "abc";
  compiler_args = codes "g++" ∷ [];
  pos_between_args = pos 1;
  gch_tmp_path = [];
}

abbrev pub functions : ℕ → GuestFn
functions fn = record { file = 0; name = codes "f" }

abbrev empty : Disk
empty = record { dir = λ name. none; out = [] }

abbrev pub at_start : Runtime machine
at_start = record { cache = []; io_ctx = none; guest_files = λ a. guest; world = empty }

abbrev key : ℕ → CacheKey
key n = record {
  fn = 64;
  have_tmpl_args = true;
  tmpl_args = cons (raw (codes "3")) nil;
  call_args = cons (dyn b'i' (i n)) nil;
}

abbrev run_call : CacheKey → Runtime machine → Outcome machine × Runtime machine
unfolding call
run_call k r =
    call machine classes same op_text functions k.fn k.have_tmpl_args k.tmpl_args k.call_args r

abbrev source_text : Bytes
source_text =
    codes "#include \"/tmp/doarr.123456/aaaaaaaaaaaaa\"\n#undef DOARR_EXPORT\n"
    ++ codes
        "extern \"C\" __attribute__ ((visibility (\"default\"))) void DOARR_EXPORT(const doarr::internal::any *DOARR_EXPORT) {\n"
    ++ codes "(void)DOARR_EXPORT;\nf<3>(DOARR_EXPORT[0].i);\n}\n"

first_call : run_call (key 7) at_start ≡ (ran source_text (i 7 ∷ []), (run_call (key 7) at_start).1)
unfolding run_call call Option.bind bytes_eq write_all digits
first_call = refl

-- The second call compiles nothing.
call-Again_example :
    run_call (key 9) (run_call (key 7) at_start).1
    ≡ (ran source_text (i 9 ∷ []), (run_call (key 7) at_start).1)
unfolding key_skeleton skeleton_all run_call extract_params_all
call-Again_example =
    call-Again machine classes same same_sound op_text functions (key 7) (key 9) source_text
      (i 7 ∷ []) at_start (run_call (key 7) at_start).1 first_call refl

call-IsServedBy_example :
    (num_params_all (cons (raw (codes "3")) nil) ≡ 0)
    × (◌≡◌ {A = List AnyValue} (i 7 ∷ []) (extract_params_all (cons (dyn b'i' (i 7)) nil)))
    × IsServedBy machine classes same op_text functions (key 7) source_text
unfolding run_call
call-IsServedBy_example =
    call-IsServedBy machine classes same same_sound op_text functions (key 7) at_start
      (run_call (key 7) at_start).1 source_text (i 7 ∷ []) (started at_start refl) first_call

abbrev context : IoCtx
context = record { tmp_path = codes "/tmp/doarr.123456/aaaaaaaaaaaaz" }

-- What the header's extraction gives.
abbrev extracted : Extracted machine
extracted = record {
  header = some (context.tmp_path);
  ctx = record { tmp_path = codes "/tmp/doarr.123456/aaaaaaaaaaaba" };
  file = record guest { gch_tmp_path = context.tmp_path };
  world = record (put (context.tmp_path ++ codes ".gch") [] empty) { out = codes "abc" };
}

extracts : doarr_extract_precompiled_or_null machine context guest empty ≡ some extracted
unfolding doarr_extract_precompiled_or_null Option.bind
extracts = refl

extract-once_example :
    (fd : Bytes) × (some (context.tmp_path ++ codes ".gch") ≡ some fd)
    × (codes "abc" ≡ [] ++ codes "abc")
    × (doarr_extract_precompiled_or_null machine context extracted.file empty
        ≡ some (record {
          header = some context.tmp_path;
          ctx = context;
          file = extracted.file;
          world = empty;
        }))
extract-once_example =
    extract-once machine disk-IsLawful context context guest empty empty extracted context.tmp_path
      (codes "tmp/doarr.123456/aaaaaaaaaaaaz") b'/' refl refl extracts refl

abbrev with_source : Disk
with_source = put (codes "a.cxx") (codes "f();") empty

loads :
    doarr_compile_and_load machine context (codes "a.cxx") guest with_source
    ≡ some (
      loaded (codes "f();") (codes "f();"),
      extracted.ctx,
      remove context.tmp_path
          (remove (codes "a.cxx") (put context.tmp_path (codes "f();") with_source)),
    )
unfolding doarr_compile_and_load bytes_eq
loads = refl

abbrev behind_load : Disk
behind_load =
    remove context.tmp_path
      (remove (codes "a.cxx") (put context.tmp_path (codes "f();") with_source))

compile_and_load-gone_example :
    (behind_load.dir (codes "a.cxx") ≡ none)
    × (((compile machine (codes "a.cxx") context.tmp_path guest with_source).0 ≡ false)
          × (◌≡◌ {A = LoadResult machine} (loaded (codes "f();") (codes "f();")) not_compiled)
        ⊎ ((compile machine (codes "a.cxx") context.tmp_path guest with_source).0 ≡ true)
          × (behind_load.dir context.tmp_path ≡ none))
compile_and_load-gone_example =
    compile_and_load-gone machine machine-KeepsFiles context extracted.ctx (codes "a.cxx") guest
      with_source behind_load (loaded (codes "f();") (codes "f();")) loads
