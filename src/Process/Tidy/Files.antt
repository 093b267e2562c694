-- ===== src/Process/Tidy/Files.antt =====
-- dcc/dcc_gen.c: the files of the temporary directory, where the calls that remove them work.
use doarr.Base.{
  ℕ, ◌≡◌, true, false, not, ◌&&◌, ◌||◌, none, some, [], ◌∷◌, map, if◌then◌else◌, refl, ap,
}
use doarr.Process.Events.{
  TmpFile, file, make_pipe, close_write_end, open_output, close_pipe, start, wait, open_c,
  write_part1, have_any_functions, close_c, close_output, check_close_c, unlink, unlink_if_ex,
  map_file, stat_file, unmap, write_part2_txt, write_part2_bin, open_final, cat_unlink_close,
  move_from_tmp, write_null, History, preprocessor_output, held, left_over, present, RemovalsWork,
  same_file, names, writes,
}
use doarr.Process.File.{Result}
use doarr.Process.Tidy.{after_file}

-- What no call was to remove is what there may be.
pub present_eq : (h : History) (f : TmpFile) → RemovalsWork h → present h f ≡ left_over h f
present_eq [] f w = refl
present_eq ((make_pipe, b) ∷ h) f w = present_eq h f w
present_eq ((close_write_end, b) ∷ h) f w = present_eq h f w
present_eq ((open_output, b) ∷ h) f w = present_eq h f w
present_eq ((close_pipe, b) ∷ h) f w = present_eq h f w
present_eq ((start c args, true) ∷ h) f w = ap (λ x. writes c args f || x) (present_eq h f w)
present_eq ((start c args, false) ∷ h) f w = present_eq h f w
present_eq ((wait c, b) ∷ h) f w = present_eq h f w
present_eq ((open_c g, true) ∷ h) f w = ap (λ x. same_file g f || x) (present_eq h f w)
present_eq ((open_c g, false) ∷ h) f w = present_eq h f w
present_eq ((write_part1, b) ∷ h) f w = present_eq h f w
present_eq ((have_any_functions, b) ∷ h) f w = present_eq h f w
present_eq ((close_c, b) ∷ h) f w = present_eq h f w
present_eq ((close_output, b) ∷ h) f w = present_eq h f w
present_eq ((check_close_c, b) ∷ h) f w = present_eq h f w
present_eq ((unlink g, true) ∷ h) f w = ap (λ x. not (same_file g f) && x) (present_eq h f w)
present_eq ((unlink g, false) ∷ h) f w = absurd w
present_eq ((unlink_if_ex g, true) ∷ h) f w = ap (λ x. not (same_file g f) && x) (present_eq h f w)
present_eq ((unlink_if_ex g, false) ∷ h) f w = absurd w
present_eq ((map_file g, b) ∷ h) f w = present_eq h f w
present_eq ((stat_file g, b) ∷ h) f w = present_eq h f w
present_eq ((unmap, b) ∷ h) f w = present_eq h f w
present_eq ((write_part2_txt, b) ∷ h) f w = present_eq h f w
present_eq ((write_part2_bin, b) ∷ h) f w = present_eq h f w
present_eq ((open_final, b) ∷ h) f w = present_eq h f w
present_eq ((cat_unlink_close fs, b) ∷ h) f w =
    ap (λ x. not (names (map file fs) f) && x) (present_eq h f w)
present_eq ((move_from_tmp g dest, b) ∷ h) f w =
    ap (λ x. not (same_file g f) && x) (present_eq h f w)
present_eq ((write_null, b) ∷ h) f w = present_eq h f w

-- dcc_wait has been called for every child that was started, every stream is closed but the
-- preprocessor's output behind a success, and the files are those of `after_file`; or the function has
-- crashed at a null stream.
unfoldable pub LeavesTidy : ℕ → History → Result → Type 0
LeavesTidy i h0 (none, h) = Unit
LeavesTidy i h0 (some ok, h) =
    (held h ≡ (if ok then preprocessor_output ∷ held h0 else held h0))
    × ((f : TmpFile) → present h f ≡ after_file i ok (present h0) f)
