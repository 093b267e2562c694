-- ===== src/Call/Again.antt =====
-- runtime/call.cpp: a call that has been compiled is not compiled again.
use doarr.Base.{
  ℕ, ◌≡◌, ◌==◌, Bytes, Bool, true, some, List, [], ◌∷◌, if◌then◌else◌, refl, ap, sym, ◌∙◌,
  Bool-cases, Option-cases, inl, inr, subst,
}
use doarr.Expr.{AnyValue, Expr, Classes, num_params_all, extract_params_all}
use doarr.Expr.SameText.{num_params_all-skeleton_all}
use doarr.Runtime.System.{System}
use doarr.Call.Keys.{key_skeleton, key_eq-skeleton, tmpl_args-skeleton}
use doarr.Call.Served.{ran_parts, ran_threw}
use doarr.Call.{
  GuestFn, CacheKey, CacheValue, Runtime, Compiled, compiled, thrown, crashed, Outcome, threw, ran,
  dynamic_template, key_eq, compile, find, fill_entry, call_missed, call_key, call,
}

module _ (S : System) (cls : Classes) (same : Expr → Expr → Bool)
    (sound : (a b : Expr) → same a b ≡ true → a ≡ b) (op_text : ℕ → Bytes) (fns : ℕ → GuestFn) where
  -- Keys of one skeleton are equal to the same keys.
  key_eq-same :
      (k a b : CacheKey)
      → key_skeleton a ≡ key_skeleton b
      → key_eq cls same k a ≡ key_eq cls same k b
  key_eq-same k a b h = elim (Bool-cases (key_eq cls same k a)) [
    | inl e ↦
        e
        ∙ sym
            ((key_eq-skeleton cls same sound k b).1 ((key_eq-skeleton cls same sound k a).0 e ∙ h))
    | inr e ↦ elim (Bool-cases (key_eq cls same k b)) [
      | inl e' ↦
          let e'' : key_eq cls same k a ≡ true =
            (key_eq-skeleton cls same sound k a).1
              ((key_eq-skeleton cls same sound k b).0 e' ∙ sym h) in
          e'' ∙ sym e'
      | inr e' ↦ e ∙ sym e'
    ]
  ]

  find-same :
      (a b : CacheKey) (cache : List (CacheKey × CacheValue S))
      → key_skeleton a ≡ key_skeleton b
      → find S cls same op_text fns a cache ≡ find S cls same op_text fns b cache
  unfolding find
  find-same a b [] h = refl
  find-same a b ((k, v) ∷ cache) h =
      rw (key_eq-same k a b h)
        (ap (λ rest. if key_eq cls same k b then some v else rest) (find-same a b cache h))

  -- What a call that ran leaves in the cache for the key.
  Stored : CacheKey → S.Function → Runtime S → Type 0
  Stored k g r = (v : CacheValue S) × (v.1 ≡ g) × (find S cls same op_text fns k r.cache ≡ some v)

  fill_entry-Stored :
      (k : CacheKey) (params ps : List AnyValue) (g : S.Function) (result : Compiled S)
      (r r' : Runtime S)
      → fill_entry S cls same op_text fns k params result r ≡ (ran g ps, r')
      → Stored k g r'
  unfolding find Stored
  fill_entry-Stored k params ps g (compiled v) r r' h =
      let c : r'.cache ≡ (k, v) ∷ r.cache = sym (ap (λ p. p.1.cache) h) in
      (v, (ran_parts S _ _ _ _ _ _ h).0, rw (c, (key_eq-skeleton cls same sound k k).1 refl) refl)
  fill_entry-Stored k params ps g (thrown e) r r' h = absurd (cc)
  fill_entry-Stored k params ps g crashed r r' h = absurd (cc)

  call_key-Stored :
      (k : CacheKey) (r r' : Runtime S) (g : S.Function) (ps : List AnyValue)
      → call_key S cls same op_text fns k r ≡ (ran g ps, r')
      → Stored k g r'
  unfolding call_key call_missed Stored
  call_key-Stored k r r' g ps h = elim (Option-cases (find S cls same op_text fns k r.cache)) [
    | inl e ↦
        fill_entry-Stored k (extract_params_all k.call_args) ps g (compile S op_text fns k r).0
          (compile S op_text fns k r).1 r' (rw (call_key, e, call_missed) at h)
    | inr (v, e) ↦
        let h' : ◌≡◌ {A = Outcome S × Runtime S} (ran v.1 (extract_params_all k.call_args), r)
            (ran g ps, r') =
          rw (call_key, e) at h in
        (
          v,
          (ran_parts S _ _ _ _ _ _ h').0,
          subst (λ q. find S cls same op_text fns k q.cache ≡ some v) (ap (λ p. p.1) h') e,
        )
  ]

  call_key-Again :
      (a b : CacheKey) (g : S.Function) (r : Runtime S)
      → key_skeleton a ≡ key_skeleton b
      → Stored a g r
      → call_key S cls same op_text fns b r ≡ (ran g (extract_params_all b.call_args), r)
  unfolding call_key Stored
  call_key-Again a b g r h (v, same_fn, found) =
      rw (call_key, sym (find-same a b r.cache h) ∙ found, same_fn) refl

  -- When a call has run a function, a call with the same arguments but for the dynamic values runs
  -- the same function with its own dynamic values, and changes nothing: nothing is compiled, loaded
  -- or written.
  pub call-Again :
      (a b : CacheKey) (g : S.Function) (ps : List AnyValue) (r r' : Runtime S)
      → call S cls same op_text fns a.fn a.have_tmpl_args a.tmpl_args a.call_args r ≡ (ran g ps, r')
      → key_skeleton a ≡ key_skeleton b
      → call S cls same op_text fns b.fn b.have_tmpl_args b.tmpl_args b.call_args r'
        ≡ (ran g (extract_params_all b.call_args), r')
  unfolding call
  call-Again a b g ps r r' h same_key = elim (Bool-cases (num_params_all a.tmpl_args == 0)) [
    | inl e ↦
        let e' : (num_params_all b.tmpl_args == 0) ≡ true =
          rw (sym (num_params_all-skeleton_all _ _ (tmpl_args-skeleton a b same_key))) e in
        rw (call, e')
          (call_key-Again a b g r' same_key (call_key-Stored a r r' g ps (rw (call, e) at h)))
    | inr e ↦
        let h' : ◌≡◌ {A = Outcome S × Runtime S} (threw dynamic_template, r) (ran g ps, r') =
          rw (call, e) at h in
        ran_threw S _ _ _ _ _ h'
  ]
