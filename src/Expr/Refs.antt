-- ===== src/Expr/Refs.antt =====
-- include/doarr/expr_base.hpp: the reference counts behind class expr.
-- An object is its address. It is immutable, so the handles inside it are a function of its address:
-- `members`, in the order in which its destructor destroys them.
pub mod Counted
pub mod Assign
use mathlib.Core.Option
use doarr.Base.{
  ℕ, zero, suc, ◌+◌, ◌-◌, Bool, true, false, Option, none, some, List, [], ◌∷◌, ◌++◌, ◌==◌,
  if◌then◌else◌,
}

-- The fields `refcount`, and the objects that have been made and not deleted.
pub record Heap : Type 0 where
  pub refcount : ℕ → ℕ
  pub live : List ℕ

abbrev pub put_count : ℕ → ℕ → (ℕ → ℕ) → ℕ → ℕ
put_count o n counts x = if x == o then n else counts x

abbrev pub remove : ℕ → List ℕ → List ℕ
remove o [] = []
remove o (p ∷ live) = let rest = remove o live in if o == p then live else p ∷ rest

unfoldable pub incref : Option ℕ → Heap → Heap
incref none h = h
incref (some o) h = record h { refcount = put_count o (h.refcount o + 1) h.refcount }

module _ (members : ℕ → List ℕ) where
  -- decref of each handle, with that of the members of an object that is deleted; on fuel.
  unfoldable pub decref_all : ℕ → List ℕ → Heap → Option Heap
  decref_all fuel [] h = some h
  decref_all zero (o ∷ os) h = none
  decref_all (suc fuel) (o ∷ os) h =
      let deleted =
        decref_all fuel (members o ++ os)
          (record { refcount = put_count o 0 h.refcount; live = remove o h.live }) in
      let kept =
        decref_all fuel os (record h { refcount = put_count o (h.refcount o - 1) h.refcount }) in
      if h.refcount o == 1 then deleted else kept

  -- The handle of a variable, none for nullptr.
  abbrev pub handle : Option ℕ → List ℕ
  handle none = []
  handle (some o) = o ∷ []

  unfoldable pub decref : ℕ → Option ℕ → Heap → Option Heap
  unfolding decref_all
  decref fuel impl h = decref_all fuel (handle impl) h

  -- operator = (const expr &): what the variable holds afterwards, and the heap.
  unfoldable pub copy_assign : ℕ → Option ℕ → Option ℕ → Heap → Option (Option ℕ × Heap)
  unfolding incref decref
  copy_assign fuel impl src h = Option.map (λ h'. (src, h')) (decref fuel impl (incref src h))

  -- operator = (expr &&), with what both variables hold afterwards.
  unfoldable pub move_assign : ℕ → Option ℕ → Option ℕ → Heap → Option (Option ℕ × Option ℕ × Heap)
  unfolding decref
  move_assign fuel impl src h = Option.map (λ h'. (src, none, h')) (decref fuel impl h)

-- expr(const expr &): what the new variable holds.
unfoldable pub copy_construct : Option ℕ → Heap → Option ℕ × Heap
unfolding incref
copy_construct src h = (src, incref src h)

-- expr(expr &&): what the new variable and the old one hold.
abbrev pub move_construct : Option ℕ → Option ℕ × Option ℕ
move_construct src = (src, none)

-- swap
abbrev pub swap : Option ℕ → Option ℕ → Option ℕ × Option ℕ
swap a b = (b, a)

-- The constructor of expr_impl_base, at an address that no object has.
unfoldable pub allocate : ℕ → Heap → Heap
allocate o h = record { refcount = put_count o 1 h.refcount; live = o ∷ h.live }
