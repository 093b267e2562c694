-- ===== src/Call.antt =====
-- runtime/call.cpp: calls of functions that are compiled at run time, with the cache of those that
-- have been compiled.
-- `S` is the system, `cls`, `same` and `op_text` are what only addresses give (Expr), and `fns` are the functions at
-- their addresses.
pub mod Keys
pub mod Served
pub mod Again
pub mod Ran
use mathlib.Core.Option
use doarr.Base.{
  ℕ, ◌+◌, Bytes, codes, Bool, true, false, ◌&&◌, not, Option, none, some, List, [], ◌∷◌, ◌++◌, ◌==◌,
  if◌then◌else◌,
}
use doarr.Expr.{
  AnyValue, Expr, Exprs, Classes, mix, hash_all, num_params_all, extract_params_all, write_all,
}
use doarr.Expr.Equal.{all_equal}
use doarr.Runtime.{GuestFile}
use doarr.Runtime.System.{System}
use doarr.Runtime.TmpPath.{
  IoCtx, InitResult, no_directory, removed, removes_later, ready, doarr_io_init, ForkResult.parent,
  doarr_tmp_path, tmp_path_template,
}
use doarr.Runtime.Extract.{Extracted, doarr_extract_precompiled_or_null}
use doarr.Runtime.Load.{LoadResult, loaded, not_compiled, not_loaded, doarr_compile_and_load}

-- struct guest_fn, which is constant, with the address of its guest_file.
pub record GuestFn : Type 0 where
  pub file : ℕ
  pub name : Bytes

-- struct cache_key, with the address of the function; `hash` is a function of the rest.
pub record CacheKey : Type 0 where
  pub fn : ℕ
  pub have_tmpl_args : Bool
  pub tmpl_args : Exprs
  pub call_args : Exprs

abbrev pub same_flag : Bool → Bool → Bool
same_flag true b = b
same_flag false b = not b

module _ (cls : Classes) where
  unfoldable pub key_hash : CacheKey → ℕ
  unfolding mix hash_all
  key_hash k =
      mix (mix (mix (mix 1 k.fn) (if k.have_tmpl_args then 1 else 0)) (hash_all cls 1 k.tmpl_args))
        (hash_all cls 1 k.call_args)

  module _ (same : Expr → Expr → Bool) where
    unfoldable pub key_eq : CacheKey → CacheKey → Bool
    unfolding key_hash
    key_eq a b =
        key_hash a == key_hash b
        && (a.fn == b.fn
            && (same_flag a.have_tmpl_args b.have_tmpl_args
                && (all_equal cls same a.tmpl_args b.tmpl_args
                    && all_equal cls same a.call_args b.call_args)))

abbrev pub args_text : (ℕ → Bytes) → Exprs → Bytes
args_text op_text es = (write_all op_text false es 0).0

module _ (op_text : ℕ → Bytes) (fns : ℕ → GuestFn) where
  -- The body of the generated function: the call itself.
  unfoldable pub call_text : CacheKey → Bytes
  call_text k =
      (fns k.fn).name
      ++ (if k.have_tmpl_args then codes "<" ++ args_text op_text k.tmpl_args ++ codes ">" else [])
      ++ codes "("
      ++ args_text op_text k.call_args
      ++ codes ");\n"

  unfoldable pub cxx_source : Bytes → CacheKey → Bytes
  unfolding call_text
  cxx_source hdr k =
      codes "#include \""
      ++ hdr
      ++ codes "\"\n"
      ++ codes "#undef DOARR_EXPORT\n"
      ++ codes
          "extern \"C\" __attribute__ ((visibility (\"default\"))) void DOARR_EXPORT(const doarr::internal::any *DOARR_EXPORT) {\n"
      ++ codes "(void)DOARR_EXPORT;\n"
      ++ call_text k
      ++ codes "}\n"

-- struct cache_value.
abbrev pub CacheValue : System → Type 0
CacheValue S = S.Handle × S.Function

-- GLOBAL_cache; the context, when it has been initialised; the guest files, by address; the rest.
pub record Runtime (S : System) : Type 0 where
  pub cache : List (CacheKey × CacheValue S)
  pub io_ctx : Option IoCtx
  pub guest_files : ℕ → GuestFile
  pub world : S.os.World

pub data Exception : Type 0 where
  initialization_failed no_header no_compilation no_loading dynamic_template : Exception

-- How `compile` ends. `crashed` is abort(), a stream that could not be opened, or the child that
-- waits for the end of the process.
pub data Compiled (S : System) : Type 0 where
  compiled : CacheValue S → Compiled S
  thrown : Exception → Compiled S
  crashed : Compiled S

module _ (S : System) (op_text : ℕ → Bytes) (fns : ℕ → GuestFn) where
  -- `doarr_io_init` removes the directory on an error.
  unfoldable pub settle : InitResult → S.os.World → InitResult × S.os.World
  settle (removed path) w = (removed path, S.rmdir path w)
  settle result w = (result, w)

  unfoldable pub init_in : Bytes → S.os.World → InitResult × S.os.World
  unfolding settle doarr_io_init
  init_in path w =
      let (pipe_ok, w1) = S.pipe w in
      let (fork, w2) = S.fork_remover w1 in
      settle (doarr_io_init (some path) pipe_ok fork) (if pipe_ok then w2 else w1)

  -- GLOBAL_io_ctx: the context, or another value of InitResult, and the world.
  unfoldable pub global_io_ctx : Runtime S → InitResult × S.os.World
  unfolding init_in
  global_io_ctx r = elim r.io_ctx [
    | some ctx ↦ (ready ctx, r.world)
    | none ↦
        let (made, w1) = S.mkdtemp tmp_path_template r.world in
        elim made [ none ↦ (doarr_io_init none false parent, w1) | some path ↦ init_in path w1 ]
  ]

  -- From doarr_compile_and_load on.
  abbrev pub load_result : LoadResult S → Compiled S
  load_result (loaded handle fn) = compiled (handle, fn)
  load_result not_compiled = thrown no_compilation
  load_result not_loaded = thrown no_loading

  unfoldable pub write_and_load : IoCtx → Bytes → CacheKey → Runtime S → Compiled S × Runtime S
  unfolding cxx_source doarr_tmp_path doarr_compile_and_load
  write_and_load ctx hdr k r = elim (doarr_tmp_path ctx (codes ".cxx")) [
    | none ↦ (crashed, r)
    | some (cxx_file_name, ctx1) ↦
        let (opened, w1) = S.fopen cxx_file_name r.world in
        elim opened [
          | none ↦ (crashed, r)
          | some out ↦
              let w2 = S.fclose out (S.fputs (cxx_source op_text fns hdr k) out w1) in
              elim (doarr_compile_and_load S ctx1 cxx_file_name (r.guest_files (fns k.fn).file)
                w2) [
                  | none ↦ (crashed, r)
                  | some (result, ctx2, w3) ↦
                      (load_result result, record r { io_ctx = some ctx2; world = w3 })
                ]
        ]
  ]

  abbrev pub put_file : ℕ → GuestFile → (ℕ → GuestFile) → ℕ → GuestFile
  put_file a file files b = if b == a then file else files b

  unfoldable pub extract_and_compile : IoCtx → CacheKey → Runtime S → Compiled S × Runtime S
  unfolding doarr_extract_precompiled_or_null write_and_load
  extract_and_compile ctx k r =
      elim (doarr_extract_precompiled_or_null S ctx (r.guest_files (fns k.fn).file) r.world) [
        | none ↦ (crashed, r)
        | some x ↦
            let r' = record r {
              io_ctx = some (x.ctx);
              guest_files = put_file (fns k.fn).file x.file r.guest_files;
              world = x.world;
            } in
            elim x.header [
              | none ↦ (thrown no_header, r')
              | some hdr ↦ write_and_load x.ctx hdr k r'
            ]
      ]

  unfoldable pub compile : CacheKey → Runtime S → Compiled S × Runtime S
  unfolding global_io_ctx extract_and_compile
  compile k r =
      let (init, w) = global_io_ctx r in
      elim init [
        | ready ctx ↦ extract_and_compile ctx k (record r { io_ctx = some ctx; world = w })
        | removes_later _ ↦ (crashed, record r { world = w })
        | removed _ ↦ (thrown initialization_failed, record r { world = w })
        | no_directory ↦ (thrown initialization_failed, record r { world = w })
      ]

-- How `call` ends: it throws, it crashes, or it runs a function with the parameters.
pub data Outcome (S : System) : Type 0 where
  threw : Exception → Outcome S
  crash : Outcome S
  ran : S.Function → List AnyValue → Outcome S

module _ (S : System) (cls : Classes) (same : Expr → Expr → Bool) (op_text : ℕ → Bytes)
    (fns : ℕ → GuestFn) where
  -- The entry whose key is equal.
  unfoldable pub find : CacheKey → List (CacheKey × CacheValue S) → Option (CacheValue S)
  find k [] = none
  find k ((k', v) ∷ cache) = if key_eq cls same k' k then some v else find k cache

  -- On a miss the entry is filled in by `compile`, or erased again.
  abbrev pub fill_entry : CacheKey → List AnyValue → Compiled S → Runtime S → Outcome S × Runtime S
  fill_entry k params (compiled v) r = (ran v.1 params, record r { cache = (k, v) ∷ r.cache })
  fill_entry k params (thrown e) r = (threw e, r)
  fill_entry k params crashed r = (crash, r)

  unfoldable pub call_missed : CacheKey → List AnyValue → Runtime S → Outcome S × Runtime S
  unfolding compile
  call_missed k params r =
      let (result, r') = compile S op_text fns k r in fill_entry k params result r'

  unfoldable pub call_key : CacheKey → Runtime S → Outcome S × Runtime S
  unfolding find key_eq extract_params_all call_missed
  call_key k r =
      let params = extract_params_all k.call_args in
      elim (find k r.cache) [ some v ↦ (ran v.1 params, r) | none ↦ call_missed k params r ]

  unfoldable pub call : ℕ → Bool → Exprs → Exprs → Runtime S → Outcome S × Runtime S
  unfolding num_params_all call_key
  call fn have_tmpl_args tmpl_args call_args r =
      if num_params_all tmpl_args == 0
      then call_key
          (record {
            fn = fn;
            have_tmpl_args = have_tmpl_args;
            tmpl_args = tmpl_args;
            call_args = call_args;
          })
          r
      else (threw dynamic_template, r)
