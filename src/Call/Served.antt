-- ===== src/Call/Served.antt =====
-- runtime/call.cpp: what is in the cache, and what a call runs.
use doarr.Base.{
  ℕ, ◌≡◌, ◌==◌, Bytes, Bool, true, none, some, List, [], ◌∷◌, arith, refl, ap, sym, ◌∙◌, subst, All,
  Bool-cases, Option-cases, inl, inr,
}
use doarr.Expr.{AnyValue, Expr, Exprs, Classes, num_params_all, extract_params_all}
use doarr.Runtime.System.{System}
use doarr.Runtime.TmpPath.{IoCtx}
use doarr.Call.{
  GuestFn, CacheKey, CacheValue, Runtime, Exception, Compiled, compiled, thrown, crashed, Outcome,
  threw, ran, key_eq, write_and_load, extract_and_compile, compile, find, fill_entry, call_missed,
  call_key, call,
}

module _ (S : System) (op_text : ℕ → Bytes) (fns : ℕ → GuestFn) where
  write_and_load_cache :
      (ctx : IoCtx) (hdr : Bytes) (k : CacheKey) (r : Runtime S)
      → (write_and_load S op_text fns ctx hdr k r).1.cache ≡ r.cache
  unfolding write_and_load
  write_and_load_cache ctx hdr k r = ground arith

  extract_and_compile_cache :
      (ctx : IoCtx) (k : CacheKey) (r : Runtime S)
      → (extract_and_compile S op_text fns ctx k r).1.cache ≡ r.cache
  unfolding extract_and_compile
  extract_and_compile_cache ctx k r = grind (arith, write_and_load_cache)

  compile_cache : (k : CacheKey) (r : Runtime S) → (compile S op_text fns k r).1.cache ≡ r.cache
  unfolding compile
  compile_cache k r = grind (arith, extract_and_compile_cache)

  -- The value is what `compile` made for this key, at some time.
  abbrev pub IsCompiled : CacheKey → CacheValue S → Type 0
  IsCompiled k v =
      (before after : Runtime S) × (compile S op_text fns k before ≡ (compiled v, after))

pub ran_parts :
    (S : System) (g g' : S.Function) (ps ps' : List AnyValue) (r r' : Runtime S)
    → ◌≡◌ {A = Outcome S × Runtime S} (ran g ps, r) (ran g' ps', r')
    → (g ≡ g') × (ps ≡ ps') × (r ≡ r')
ran_parts S g g' ps ps' r r' h =
    let outcome : ◌≡◌ {A = Outcome S} (ran g ps) (ran g' ps') = ap (λ p. p.0) h in
    (cc, cc, ap (λ p. p.1) h)

pub ran_threw :
    {A : Type 0} (S : System) (g : S.Function) (ps : List AnyValue) (e : Exception)
    (r r' : Runtime S)
    → ◌≡◌ {A = Outcome S × Runtime S} (threw e, r) (ran g ps, r')
    → A
ran_threw S g ps e r r' h =
    let outcome : ◌≡◌ {A = Outcome S} (threw e) (ran g ps) = ap (λ p. p.0) h in absurd (cc)

module _ (S : System) (cls : Classes) (same : Expr → Expr → Bool) (op_text : ℕ → Bytes)
    (fns : ℕ → GuestFn) where
  -- No two entries have equal keys.
  abbrev pub IsUnique : List (CacheKey × CacheValue S) → Type 0
  IsUnique [] = Unit
  IsUnique ((k, v) ∷ cache) = (find S cls same op_text fns k cache ≡ none) × IsUnique cache

  pub record IsServed (r : Runtime S) : Type 0 where
    pub filled : All (λ (k, v). IsCompiled S op_text fns k v) r.cache
    pub unique : IsUnique r.cache

module _ (S : System) (cls : Classes) (same : Expr → Expr → Bool) (op_text : ℕ → Bytes)
    (fns : ℕ → GuestFn) where
  pub find-filled :
      (k : CacheKey) (v : CacheValue S) (cache : List (CacheKey × CacheValue S))
      → find S cls same op_text fns k cache ≡ some v
      → All (λ (k, v). IsCompiled S op_text fns k v) cache
      → (k' : CacheKey) × (key_eq cls same k' k ≡ true) × IsCompiled S op_text fns k' v
  unfolding find
  find-filled k v [] h a = absurd (cc)
  find-filled k v ((k', v') ∷ cache) h (c, a) = elim (Bool-cases (key_eq cls same k' k)) [
    | inl e ↦
        let same_v : v' ≡ v = ground arith in (k', e, subst (IsCompiled S op_text fns k') same_v c)
    | inr e ↦ find-filled k v cache (rw e at h) a
  ]

  pub same_cache-IsServed :
      (r r' : Runtime S)
      → r'.cache ≡ r.cache
      → IsServed S cls same op_text fns r
      → IsServed S cls same op_text fns r'
  same_cache-IsServed r r' e s = record {
    filled = subst (All (λ (k, v). IsCompiled S op_text fns k v)) (sym e) s.filled;
    unique = subst (IsUnique S cls same op_text fns) (sym e) s.unique;
  }

  compiled_cache :
      (k : CacheKey) (result : Compiled S) (r r' : Runtime S)
      → compile S op_text fns k r ≡ (result, r')
      → r'.cache ≡ r.cache
  compiled_cache k result r r' made =
      sym (ap (λ p. p.1.cache) made) ∙ compile_cache S op_text fns k r

  -- Filling the entry of a key that is not there.
  fill_entry-IsServed :
      (k : CacheKey) (params : List AnyValue) (result : Compiled S) (r r' : Runtime S)
      → compile S op_text fns k r ≡ (result, r')
      → find S cls same op_text fns k r.cache ≡ none
      → IsServed S cls same op_text fns r
      → IsServed S cls same op_text fns (fill_entry S cls same op_text fns k params result r').1
  fill_entry-IsServed k params (compiled v) r r' made missing s =
      let e = compiled_cache k (compiled v) r r' made in
      let s' = same_cache-IsServed r r' e s in
      record {
        filled = ((r, r', made), s'.filled);
        unique = (subst (λ c. find S cls same op_text fns k c ≡ none) (sym e) missing, s'.unique);
      }
  fill_entry-IsServed k params (thrown e) r r' made missing s =
      same_cache-IsServed r r' (compiled_cache k (thrown e) r r' made) s
  fill_entry-IsServed k params crashed r r' made missing s =
      same_cache-IsServed r r' (compiled_cache k crashed r r' made) s

  call_missed-IsServed :
      (k : CacheKey) (params : List AnyValue) (r : Runtime S)
      → find S cls same op_text fns k r.cache ≡ none
      → IsServed S cls same op_text fns r
      → IsServed S cls same op_text fns (call_missed S cls same op_text fns k params r).1
  unfolding call_missed
  call_missed-IsServed k params r h s = fill_entry-IsServed k params _ r _ refl h s

  call_key-IsServed :
      (k : CacheKey) (r : Runtime S)
      → IsServed S cls same op_text fns r
      → IsServed S cls same op_text fns (call_key S cls same op_text fns k r).1
  unfolding call_key
  call_key-IsServed k r s = elim (Option-cases (find S cls same op_text fns k r.cache)) [
    | inl e ↦ rw (call_key, e) (call_missed-IsServed k (extract_params_all k.call_args) r e s)
    | inr (v, e) ↦ rw (call_key, e) s
  ]

  pub call-IsServed :
      (fn : ℕ) (have : Bool) (tmpl_args call_args : Exprs) (r : Runtime S)
      → IsServed S cls same op_text fns r
      → IsServed S cls same op_text fns
          (call S cls same op_text fns fn have tmpl_args call_args r).1
  unfolding call
  call-IsServed fn have tmpl_args call_args r s =
      elim (Bool-cases (num_params_all tmpl_args == 0)) [
        | inl e ↦
            let k : CacheKey = record {
              fn = fn;
              have_tmpl_args = have;
              tmpl_args = tmpl_args;
              call_args = call_args;
            } in
            rw (call, e) (call_key-IsServed k r s)
        | inr e ↦ rw (call, e) s
      ]
