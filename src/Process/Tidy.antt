-- ===== src/Process/Tidy.antt =====
-- dcc/dcc_gen.c: what process_single_file gives back and leaves behind, and how one call is followed.
pub mod Errors
pub mod Files
pub mod RunTool
pub mod Stages
use doarr.Base.{
  ℕ, ◌≡◌, ◌==◌, Bool, true, false, Option, none, some, List, [], ◌∷◌, ◌++◌, if◌then◌else◌, ==_iff,
  sym, refl, Bool-cases, inl, inr,
}
use doarr.Process.Events.{
  TmpFile, tmp_pch, tmp_c, tmp_o, tmp_output_combined, tmp_output_file, Event, History, Env, try,
  Held, child, c_file, preprocessor_output, precompiler, preprocessor, held, left_over,
}
use doarr.Process.File.{Locals, Result}

-- The files behind the work on the file of an index: its output, if it went well, and the others
-- that were there before.
abbrev pub after_file : ℕ → Bool → (TmpFile → Bool) → TmpFile → Bool
after_file i ok before tmp_pch = false
after_file i ok before tmp_c = false
after_file i ok before tmp_o = false
after_file i ok before tmp_output_combined = before tmp_output_combined
after_file i ok before (tmp_output_file j) = if i == j then ok else before (tmp_output_file j)

pub after_file_rule :
    (i : ℕ) (ok : Bool) (before now : TmpFile → Bool)
    → now tmp_pch ≡ false
    → now tmp_c ≡ false
    → now tmp_o ≡ false
    → now tmp_output_combined ≡ before tmp_output_combined
    → now (tmp_output_file i) ≡ ok
    → ((j : ℕ) → (i == j) ≡ false → now (tmp_output_file j) ≡ before (tmp_output_file j))
    → (f : TmpFile) → now f ≡ after_file i ok before f
after_file_rule i ok before now p c o m own others tmp_pch = p
after_file_rule i ok before now p c o m own others tmp_c = c
after_file_rule i ok before now p c o m own others tmp_o = o
after_file_rule i ok before now p c o m own others tmp_output_combined = m
after_file_rule i ok before now p c o m own others (tmp_output_file j) =
    elim (Bool-cases (i == j)) [
      | inl e ↦ let same : i ≡ j = (==_iff i j).0 e in rw (e, sym same) own
      | inr e ↦ rw e (others j e)
    ]

-- dcc_wait is called for every child, and every stream is closed but the preprocessor's output behind a
-- success; and the files are those of `after_file`.
unfoldable pub IsTidy : ℕ → History → Result → Type 0
IsTidy i h0 (none, h) = Unit
IsTidy i h0 (some ok, h) =
    (held h ≡ (if ok then preprocessor_output ∷ held h0 else held h0))
    × ((f : TmpFile) → left_over h f ≡ after_file i ok (left_over h0) f)

abbrev pub when : Bool → Held → List Held
when b x = if b then x ∷ [] else []

abbrev pub held_by : Locals → List Held
held_by st =
    when st.c_file c_file
    ++ when st.preprocessor_output preprocessor_output
    ++ when st.preprocessor_pid (child preprocessor)
    ++ when st.precompiler_pid (child precompiler)

-- No file changes but the four of this work.
abbrev pub Keeps : ℕ → History → History → Type 0
Keeps i h0 h =
    (left_over h tmp_output_combined ≡ left_over h0 tmp_output_combined)
    × ((j : ℕ)
        → (i == j) ≡ false
        → left_over h (tmp_output_file j) ≡ left_over h0 (tmp_output_file j))

-- What is held is what the local variables say.
abbrev pub IsGood : ℕ → Locals → History → History → Type 0
IsGood i st h0 h = (held h ≡ held_by st ++ held h0) × Keeps i h0 h

-- How a call is followed: the work is tidy behind its success, and behind its failure.
pub try_rule :
    (i : ℕ) (h0 : History) (env : Env) (e : Event) (h : History) (ok err : History → Result)
    → IsTidy i h0 (ok ((e, true) ∷ h))
    → IsTidy i h0 (err ((e, false) ∷ h))
    → IsTidy i h0 (try env e h ok err)
unfolding try
try_rule i h0 env e h ok err p q = elim (Bool-cases (env h e)) [ inl b ↦ rw b p | inr b ↦ rw b q ]

pub processed-IsTidy :
    (i : ℕ) (h0 h : History)
    → held h ≡ preprocessor_output ∷ held h0
    → ((f : TmpFile) → left_over h f ≡ after_file i true (left_over h0) f)
    → IsTidy i h0 (some true, h)
unfolding IsTidy
processed-IsTidy i h0 h k files = (k, files)

pub if-IsTidy :
    (i : ℕ) (h0 : History) (b : Bool) (x y : Result)
    → (b ≡ true → IsTidy i h0 x)
    → (b ≡ false → IsTidy i h0 y)
    → IsTidy i h0 (if b then x else y)
if-IsTidy i h0 true x y p q = p refl
if-IsTidy i h0 false x y p q = q refl
