-- ===== src/Call/Ran.antt =====
-- runtime/call.cpp: what a call runs, from the start of the process on.
use doarr.Base.{
  ℕ, ◌≡◌, ◌==◌, Bytes, Bool, true, List, [], All, refl, sym, subst, ==_iff, Bool-cases,
  Option-cases, inl, inr,
}
use doarr.Expr.{AnyValue, Expr, Classes, num_params_all, extract_params_all}
use doarr.Runtime.System.{System}
use doarr.Call.Keys.{key_eq-skeleton, call_text-skeleton}
use doarr.Call.Served.{
  same_cache-IsServed, ran_parts, ran_threw, IsCompiled, IsUnique, IsServed, find-filled,
  call-IsServed,
}
use doarr.Call.{
  GuestFn, CacheKey, CacheValue, Runtime, Compiled, compiled, thrown, crashed, Outcome, threw, ran,
  dynamic_template, call_text, compile, find, fill_entry, call_missed, call_key, call,
}

module _ (S : System) (cls : Classes) (same : Expr → Expr → Bool) (op_text : ℕ → Bytes)
    (fns : ℕ → GuestFn) where
  -- The states that the process gets to: it starts with an empty cache, and makes calls. Another
  -- part of the process may change all but the cache.
  pub data IsReached : Runtime S → Type 0 where
    started : (r : Runtime S) → r.cache ≡ [] → IsReached r
    called :
        (k : CacheKey) (r : Runtime S)
        → IsReached r
        → IsReached (call S cls same op_text fns k.fn k.have_tmpl_args k.tmpl_args k.call_args r).1
    meanwhile : (r r' : Runtime S) → IsReached r → r'.cache ≡ r.cache → IsReached r'

  IsReached-IsServed : {r : Runtime S} → IsReached r → IsServed S cls same op_text fns r
  IsReached-IsServed (started r e) = record {
    filled = subst (All (λ (k, v). IsCompiled S op_text fns k v)) (sym e) tt;
    unique = subst (IsUnique S cls same op_text fns) (sym e) tt;
  }
  IsReached-IsServed (called k r reached) =
      call-IsServed S cls same op_text fns k.fn k.have_tmpl_args k.tmpl_args k.call_args r
        (IsReached-IsServed reached)
  IsReached-IsServed (meanwhile r r' reached e) =
      same_cache-IsServed S cls same op_text fns r r' e (IsReached-IsServed reached)

  -- The function was compiled and loaded at some time, from a source that makes the same call.
  pub IsServedBy : CacheKey → S.Function → Type 0
  IsServedBy k g =
      (k' : CacheKey) × (v : CacheValue S) × (v.1 ≡ g)
      × IsCompiled S op_text fns k' v
      × (call_text op_text fns k' ≡ call_text op_text fns k)

module _ (S : System) (cls : Classes) (same : Expr → Expr → Bool)
    (sound : (a b : Expr) → same a b ≡ true → a ≡ b) (op_text : ℕ → Bytes) (fns : ℕ → GuestFn) where
  fill_entry-IsServedBy :
      (k : CacheKey) (params ps : List AnyValue) (g : S.Function) (result : Compiled S)
      (r r1 r' : Runtime S)
      → compile S op_text fns k r ≡ (result, r1)
      → fill_entry S cls same op_text fns k params result r1 ≡ (ran g ps, r')
      → (ps ≡ params) × IsServedBy S cls same op_text fns k g
  unfolding IsServedBy
  fill_entry-IsServedBy k params ps g (compiled v) r r1 r' made h =
      let (same_fn, same_params, _) = ran_parts S _ _ _ _ _ _ h in
      (sym same_params, (k, v, same_fn, (r, r1, made), refl))
  fill_entry-IsServedBy k params ps g (thrown e) r r1 r' made h = ran_threw S _ _ _ _ _ h
  fill_entry-IsServedBy k params ps g crashed r r1 r' made h = absurd (cc)

  call_key-IsServedBy :
      (k : CacheKey) (r r' : Runtime S) (g : S.Function) (ps : List AnyValue)
      → IsReached S cls same op_text fns r
      → call_key S cls same op_text fns k r ≡ (ran g ps, r')
      → (ps ≡ extract_params_all k.call_args) × IsServedBy S cls same op_text fns k g
  unfolding call_key call_missed IsServedBy
  call_key-IsServedBy k r r' g ps reached h =
      elim (Option-cases (find S cls same op_text fns k r.cache)) [
        | inl e ↦
            fill_entry-IsServedBy k (extract_params_all k.call_args) ps g
              (compile S op_text fns k r).0 r (compile S op_text fns k r).1 r' refl
              (rw (call_key, e, call_missed) at h)
        | inr (v, e) ↦
            let h' : ◌≡◌ {A = Outcome S × Runtime S} (ran v.1 (extract_params_all k.call_args), r)
                (ran g ps, r') =
              rw (call_key, e) at h in
            let (same_fn, same_params, _) = ran_parts S _ _ _ _ _ _ h' in
            let (k', same_key, made) =
              find-filled S cls same op_text fns k v r.cache e
                (IsReached-IsServed S cls same op_text fns reached).filled in
            (
              sym same_params,
              (
                k',
                v,
                same_fn,
                made,
                call_text-skeleton op_text fns k' k
                    ((key_eq-skeleton cls same sound k' k).0 same_key),
              ),
            )
      ]

  -- In a state that the process gets to, a call that runs a function has template arguments
  -- without dynamic values, gives the function the dynamic values of its own arguments in their
  -- order, and the function is one that was compiled and loaded from a source that makes this call.
  pub call-IsServedBy :
      (k : CacheKey) (r r' : Runtime S) (g : S.Function) (ps : List AnyValue)
      → IsReached S cls same op_text fns r
      → call S cls same op_text fns k.fn k.have_tmpl_args k.tmpl_args k.call_args r ≡ (ran g ps, r')
      → (num_params_all k.tmpl_args ≡ 0)
        × (ps ≡ extract_params_all k.call_args)
        × IsServedBy S cls same op_text fns k g
  unfolding call
  call-IsServedBy k r r' g ps reached h = elim (Bool-cases (num_params_all k.tmpl_args == 0)) [
    | inl e ↦
        let (same_params, served) = call_key-IsServedBy k r r' g ps reached (rw (call, e) at h) in
        ((==_iff _ _).0 e, same_params, served)
    | inr e ↦
        let h' : ◌≡◌ {A = Outcome S × Runtime S} (threw dynamic_template, r) (ran g ps, r') =
          rw (call, e) at h in
        ran_threw S _ _ _ _ _ h'
  ]
