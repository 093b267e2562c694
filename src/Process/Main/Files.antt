-- ===== src/Process/Main/Files.antt =====
-- dcc/dcc_gen.c: behind dcc_gen_main the temporary directory is empty, where the calls that remove
-- files work.
use doarr.Base.{◌≡◌, false, none, some, List, [], ◌∙◌}
use doarr.Options.Parse.{InputFile, Config}
use doarr.Process.Events.{TmpFile, Env, present, RemovalsWork}
use doarr.Process.File.{Tools, Result}
use doarr.Process.Main.{dcc_gen_main}
use doarr.Process.Main.Clean.{OnlyOutputs, IsClean}
use doarr.Process.Main.Empty.{dcc_gen_main-IsClean}
use doarr.Process.Tidy.Files.{present_eq}

-- The function has given up at an assertion or at a null stream; or the directory is empty, dcc_wait has
-- been called for every child, and no stream is open but outputs of preprocessors.
unfoldable pub LeavesClean : Result → Type 0
LeavesClean (none, h) = Unit
LeavesClean (some ok, h) = OnlyOutputs h × ((f : TmpFile) → present h f ≡ false)

pub IsClean-LeavesClean : (r : Result) → RemovalsWork r.1 → IsClean r → LeavesClean r
unfolding IsClean LeavesClean
IsClean-LeavesClean (none, h) w c = tt
IsClean-LeavesClean (some ok, h) w (only, gone) = (only, λ f. present_eq h f w ∙ gone f)

pub dcc_gen_main-LeavesClean :
    (tools : Tools) (env : Env) (config : Config) (inputs : List InputFile)
    → RemovalsWork (dcc_gen_main tools env config inputs []).1
    → LeavesClean (dcc_gen_main tools env config inputs [])
dcc_gen_main-LeavesClean tools env config inputs w =
    IsClean-LeavesClean (dcc_gen_main tools env config inputs []) w
      (dcc_gen_main-IsClean tools env config inputs)
