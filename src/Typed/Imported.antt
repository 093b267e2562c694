-- ===== src/Typed/Imported.antt =====
-- include/doarr/import.hpp: calls of an imported function. Its arguments are expressions of any
-- wrappers, which the packs of C++ make an `exprs`.
use doarr.Base.{ℕ, ◌≡◌, ◌==◌, Bool, true, false, some, Bytes, if◌then◌else◌, refl}
use doarr.Expr.{Expr, Exprs, Classes}
use doarr.Runtime.System.{System}
use doarr.Call.{GuestFn, Runtime, Outcome, threw, dynamic_template, call_key, call}
use doarr.Typed.Types.{expr}
use doarr.Typed.Terms.{VarArgs, build_var_args}
use doarr.Typed.Params.{var_args_params, build_var_args-params}

-- imported::instance, with the address of the function.
pub record Instance : Type 0 where
  pub fn : ℕ
  pub tmpl_args : Exprs

-- operator[]
abbrev pub instantiate : ℕ → Exprs → Instance
instantiate fn args = record { fn = fn; tmpl_args = args }

module _ (S : System) (cls : Classes) (same : Expr → Expr → Bool) (op_text : ℕ → Bytes)
    (fns : ℕ → GuestFn) where
  -- The two operators ().
  unfoldable pub call_imported : ℕ → Exprs → Runtime S → Outcome S × Runtime S
  call_imported fn args r = call S cls same op_text fns fn false Exprs.nil args r

  unfoldable pub call_instance : Instance → Exprs → Runtime S → Outcome S × Runtime S
  call_instance inst args r = call S cls same op_text fns inst.fn true inst.tmpl_args args r

  -- A function that is imported and instantiated with arguments made by the wrappers is called
  -- without a refusal exactly when these have no dynamic value: no `dyn`, and no pointer. Else the
  -- call throws, and nothing has changed.
  pub call_instance-static :
      (op fn : ℕ) (tmpl_args : VarArgs expr) (made args : Exprs) (r : Runtime S)
      → build_var_args op tmpl_args ≡ some made
      → call_instance (instantiate fn made) args r ≡ (
          if var_args_params tmpl_args == 0
          then call_key S cls same op_text fns
              (record { fn = fn; have_tmpl_args = true; tmpl_args = made; call_args = args })
              r
          else (threw dynamic_template, r))
  unfolding call_instance call
  call_instance-static op fn tmpl_args made args r built =
      rw (build_var_args-params op tmpl_args made built) refl
