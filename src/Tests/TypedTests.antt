-- ===== src/Tests/TypedTests.antt =====
-- include/doarr/expr.hpp and include/doarr/import.hpp on the programs of test/host.cpp.
use doarr.Base.{◌≡◌, Bytes, codes, false, Option, none, some, [], refl}
use doarr.Base.Int.{pos}
use doarr.Base.Decimal.{digits}
use doarr.Expr.{Expr, Exprs, raw, write_to, write_all, extract_params}
use doarr.Expr.Text.{spell_all, read_all, pieces, inlined}
use doarr.Expr.Ctors.{
  valid_qname, qname_expr, char_expr, call_expr, inst_expr, infix_expr, dyn_expr,
}
use doarr.Call.{threw, dynamic_template}
use doarr.Typed.Types.{expr, proto_struct, noarr_struct, scalar, vector, sized_vector}
use doarr.Typed.Wrappers.{Wrapped}
use doarr.Typed.Terms.{
  Term, noarr, dyn, call_fn, inst_tmpl, xor_noarr, name, character, same, base, Args, VarArgs,
  no_more, more, build, build_var_args,
}
use doarr.Typed.Check.{check, table}
use doarr.Typed.Params.{var_args_params}
use doarr.Typed.Reads.{build-inlined}
use doarr.Typed.Imported.{instantiate, call_instance, call_instance-static}
use doarr.Tests.ExprTests.{op_text, classes}
use doarr.Tests.ExprTests
use doarr.Tests.CallTests.{machine, functions, at_start}

-- noarr.scalar[name]()
abbrev scalar_of : Bytes → Term noarr_struct
scalar_of t = call_fn (inst_tmpl (noarr scalar) (Args.cons (name t) Args.nil)) Args.nil

-- noarr.scalar["float"]() ^ noarr.vector['x']()
abbrev vector_of : Bytes → Term proto_struct
vector_of t =
    xor_noarr (scalar_of t)
      (call_fn (inst_tmpl (noarr vector) (Args.cons (character (pos b'x')) Args.nil)) Args.nil)

-- noarr.sized_vector['x'](dyn(42))
abbrev sized : Term proto_struct
sized =
    call_fn (inst_tmpl (noarr sized_vector) (Args.cons (character (pos b'x')) Args.nil))
      (Args.cons (same (dyn 42)) Args.nil)

abbrev text_of : Option (Wrapped proto_struct) → Bytes
text_of none = []
text_of (some w) = (write_to (λ op. codes "^") w.wrapped 0).0

vector_text :
    text_of (build 0 (vector_of (codes "float")))
    ≡ codes "(noarr::scalar<float>()^noarr::vector<'x'>())"
unfolding build write_to char_expr qname_expr infix_expr call_expr inst_expr
vector_text = refl

sized_text : text_of (build 0 sized) ≡ codes "noarr::sized_vector<'x'>(DOARR_EXPORT[0].i)"
unfolding build write_to char_expr qname_expr digits call_expr inst_expr dyn_expr
sized_text = refl

-- A name that is no qualified name is abort().
aborts : build 0 (vector_of (codes "float*")) ≡ none
unfolding build qname_expr
aborts = refl

-- A vector is no argument of scalar.
refuses :
    check 0 table
      (Expr.call (raw (codes "noarr::scalar")) (Exprs.cons (raw (codes "3")) Exprs.nil) b'<' b'>')
      expr
    ≡ false
unfolding check valid_qname table
refuses = refl

abbrev one_vector : VarArgs expr
one_vector = more (base sized) no_more

abbrev made_sized : Expr
made_sized =
    Expr.call
      (Expr.call (raw (codes "noarr::sized_vector")) (Exprs.cons (raw (codes "'x'")) Exprs.nil) b'<'
        b'>')
      (Exprs.cons (Expr.dyn b'i' (doarr.Expr.i 42)) Exprs.nil) b'(' b')'

makes_sized : build 0 sized ≡ some (record { wrapped = made_sized })
unfolding build qname_expr char_expr call_expr inst_expr dyn_expr
makes_sized = refl

build-inlined_example :
    ((write_to op_text made_sized 0).0 ≡ spell_all (pieces op_text made_sized 0))
    × (read_all (extract_params made_sized) (pieces op_text made_sized 0)
        ≡ some (inlined op_text made_sized))
build-inlined_example = build-inlined 0 op_text sized (record { wrapped = made_sized }) makes_sized

abbrev made : Exprs
made = Exprs.cons made_sized Exprs.nil

makes : build_var_args 0 one_vector ≡ some made
unfolding build_var_args qname_expr char_expr call_expr inst_expr dyn_expr
makes = refl

call_instance-static_example :
    call_instance machine classes ExprTests.same op_text functions
      (instantiate 64 made)
      Exprs.nil
      at_start
    ≡ (threw dynamic_template, at_start)
unfolding var_args_params
call_instance-static_example =
    call_instance-static machine classes ExprTests.same op_text functions 0 64 one_vector made
      Exprs.nil at_start makes
