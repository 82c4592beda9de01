-- ===== src/Tests/Watches.antt =====
-- Runs of the importer's supervisor at concrete inputs.
use hubabox.Base.{false, true, [], ◌≡◌, ◌≤◌, ◌⊎◌, refl, none, some}
use hubabox.Text.{Text, codes, text_eq}
use hubabox.Importer.{validate_paths}
use hubabox.Importer.Supervisor.{
  State, idle, watching, stopped, closing, start, look, ◌⟶◌, read, watching_done, watching_restart,
  closed_stop, closed_again, loop_returns, Run, here, next,
}
use hubabox.Importer.Supervisor.Runs.{IsSound, Run-IsSound, Run-ends}
use hubabox.Tests.Paths.{cwd, paths}

watches : Unit {0}
unfolding paths validate_paths hubabox.Text.has_prefix text_eq look
watches = tt

abbrev folder : Text
folder = codes "/m"

abbrev files : Text
files = codes "/f"

abbrev live : State
live = record { phase = watching; loop = some (folder, false); done = false }

abbrev ended : State
ended = record { phase = watching; loop = some (folder, false); done = true }

abbrev last : State
last = record { phase = stopped; loop = none; done = true }

looks :
    (look cwd files (codes " /m ") ≡ live)
    × (look cwd files [] ≡ record { phase = idle; loop = none; done = false })
    × (look cwd files (codes "/f/x") ≡ record { phase = idle; loop = none; done = false })
unfolding watches
looks = (refl, refl, refl)

-- The folder is read, the form restarts the watch, and the folder is read again.
restarted : Run cwd files 5 start live
unfolding watches
restarted = next (read folder) (
    next (watching_restart (some (folder, false)) false) (
      next (loop_returns (closing false) folder true false)
        (next (closed_again false) (next (read folder) (here live)))))

-- The context has ended: the loop is cancelled and waited for.
leaving : Run cwd files 3 ended last
leaving =
    next (watching_done (some (folder, false)))
      (next (loop_returns (closing true) folder true true) (next (closed_stop true) (here last)))

Run-IsSound_example : IsSound cwd files live
Run-IsSound_example = Run-IsSound cwd files restarted tt

Run-ends_example : (3 ≤ 4) × ((last.phase ≡ stopped) ⊎ ((v : State) × ◌⟶◌ cwd files last v))
Run-ends_example = Run-ends cwd files leaving refl
