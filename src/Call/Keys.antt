-- ===== src/Call/Keys.antt =====
-- runtime/call.cpp: which calls share an entry of the cache.
use doarr.Base.{ℕ, ◌≡◌, ◌==◌, ◌↔◌, Bytes, Bool, true, false, ◌&&◌, refl, ap, ==_iff}
use doarr.Expr.{Expr, Classes}
use doarr.Expr.Equal.{all_equal, skeleton_all, all_equal-skeleton_all, hash_all-skeleton_all}
use doarr.Expr.SameText.{write_all-skeleton_all}
use doarr.Call.{GuestFn, CacheKey, key_hash, key_eq, same_flag, call_text, args_text}

-- The key with the dynamic values left out.
unfoldable pub key_skeleton : CacheKey → CacheKey
unfolding skeleton_all
key_skeleton k = record k {
  tmpl_args = skeleton_all k.tmpl_args;
  call_args = skeleton_all k.call_args;
}

key_skeleton-eq :
    (a b : CacheKey)
    → a.fn ≡ b.fn
    → a.have_tmpl_args ≡ b.have_tmpl_args
    → skeleton_all a.tmpl_args ≡ skeleton_all b.tmpl_args
    → skeleton_all a.call_args ≡ skeleton_all b.call_args
    → key_skeleton a ≡ key_skeleton b
unfolding key_skeleton
key_skeleton-eq a b f h t c =
    λ i. record { fn = f i; have_tmpl_args = h i; tmpl_args = t i; call_args = c i }

same_flag_iff : (a b : Bool) → (same_flag a b ≡ true) ↔ (a ≡ b)
same_flag_iff true true = (λ h. refl, λ h. refl)
same_flag_iff true false = (λ h. cc, λ h. cc)
same_flag_iff false true = (λ h. cc, λ h. cc)
same_flag_iff false false = (λ h. refl, λ h. refl)

-- What equal skeletons have in common.
abbrev Agree : CacheKey → CacheKey → Type 0
Agree a b =
    (a.fn ≡ b.fn)
    × (a.have_tmpl_args ≡ b.have_tmpl_args)
    × (skeleton_all a.tmpl_args ≡ skeleton_all b.tmpl_args)
    × (skeleton_all a.call_args ≡ skeleton_all b.call_args)

pub tmpl_args-skeleton :
    (a b : CacheKey)
    → key_skeleton a ≡ key_skeleton b
    → skeleton_all a.tmpl_args ≡ skeleton_all b.tmpl_args
unfolding key_skeleton
tmpl_args-skeleton a b h = ap (λ k. k.tmpl_args) h

agree : (a b : CacheKey) → key_skeleton a ≡ key_skeleton b → Agree a b
unfolding key_skeleton
agree a b h = (
  ap (λ k. k.fn) h,
  ap (λ k. k.have_tmpl_args) h,
  ap (λ k. k.tmpl_args) h,
  ap (λ k. k.call_args) h,
)

pub call_text-skeleton :
    (op_text : ℕ → Bytes) (fns : ℕ → GuestFn) (a b : CacheKey)
    → key_skeleton a ≡ key_skeleton b
    → call_text op_text fns a ≡ call_text op_text fns b
unfolding call_text
call_text-skeleton op_text fns a b h =
    let (f, t, ts, cs) = agree a b h in
    let ts' : args_text op_text a.tmpl_args ≡ args_text op_text b.tmpl_args =
      ap (λ p. p.0) (write_all-skeleton_all op_text _ _ 0 ts) in
    let cs' : args_text op_text a.call_args ≡ args_text op_text b.call_args =
      ap (λ p. p.0) (write_all-skeleton_all op_text _ _ 0 cs) in
    cc

and_true : (a b : Bool) → (a && b) ≡ true → (a ≡ true) × (b ≡ true)
and_true true b h = (refl, h)
and_true false b h = absurd (cc)

module _ (cls : Classes) (same : Expr → Expr → Bool)
    (sound : (a b : Expr) → same a b ≡ true → a ≡ b) where
  key_hash-skeleton :
      (a b : CacheKey) → key_skeleton a ≡ key_skeleton b → key_hash cls a ≡ key_hash cls b
  unfolding key_hash
  key_hash-skeleton a b h =
      let (f, t, ts, cs) = agree a b h in
      rw (f, t, hash_all-skeleton_all cls _ _ ts, hash_all-skeleton_all cls _ _ cs) refl

  -- Two calls share an entry exactly when they call the same function with the same arguments but
  -- for the dynamic values.
  pub key_eq-skeleton :
      (a b : CacheKey) → (key_eq cls same a b ≡ true) ↔ (key_skeleton a ≡ key_skeleton b)
  unfolding key_eq
  key_eq-skeleton a b = (
    λ h.
        let (hashes, h1) = and_true (key_hash cls a == key_hash cls b) _ h in
        let (f, h2) = and_true (a.fn == b.fn) _ h1 in
        let (t, h3) = and_true (same_flag a.have_tmpl_args b.have_tmpl_args) _ h2 in
        let (ts, cs) =
          and_true (all_equal cls same a.tmpl_args b.tmpl_args)
            (all_equal cls same a.call_args b.call_args) h3 in
        key_skeleton-eq a b ((==_iff _ _).0 f) ((same_flag_iff _ _).0 t)
          ((all_equal-skeleton_all cls same sound _ _).0 ts)
          ((all_equal-skeleton_all cls same sound _ _).0 cs),
    λ h.
        let (f, t, ts, cs) = agree a b h in
        rw
          (
            (==_iff _ _).1 (key_hash-skeleton a b h),
            (==_iff _ _).1 f,
            (same_flag_iff _ _).1 t,
            (all_equal-skeleton_all cls same sound _ _).1 ts,
            (all_equal-skeleton_all cls same sound _ _).1 cs,
          )
          refl,
  )
