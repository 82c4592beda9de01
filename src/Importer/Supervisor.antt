-- ===== src/Importer/Supervisor.antt =====
-- The goroutine that keeps at most one watch loop running: `Supervisor` of
-- hubabox-proj/internal/importer/importer.go, with the loop's goroutine beside it.
pub mod Runs
use hubabox.Base.{
  ℕ, suc, Bool, true, false, if◌then◌else◌, Result, ok, err, is_ok, Option, none, some, [], ◌≡◌,
}
use hubabox.Text.{Text, text_eq, trim_space}
use hubabox.Importer.{validate_paths}

-- Where the supervisor stands: at the head of its `for`, waiting for a restart without a folder,
-- beside a watch loop, waiting for a loop that it has cancelled, waiting for five seconds, or
-- returned. When it waits for a cancelled loop, it returns afterwards or goes on.
pub data Phase : Type 0 where
  looking idle watching cooling stopped : Phase
  closing : Bool → Phase

-- The live watch loop, if there is one, with its folder and whether its context is cancelled.
pub record State : Type 0 where
  pub phase : Phase
  pub loop : Option (Text × Bool)
  -- whether `runCtx` is done
  pub done : Bool

abbrev pub start : State
start = record { phase = looking; loop = none; done = false }

abbrev cancel : Option (Text × Bool) → Option (Text × Bool)
cancel none = none
cancel (some (path, cancelled)) = some (path, true)

-- What is done with the path that `pathFunc` returns.
module _ (cwd : Result Text) (files_dir : Text) where
  abbrev launch : Text → State
  launch p =
      if is_ok (validate_paths cwd p files_dir)
      then record { phase = watching; loop = some (p, false); done = false }
      else record { phase = idle; loop = none; done = false }

  unfoldable pub look : Text → State
  look path =
      if text_eq (trim_space path) []
      then record { phase = idle; loop = none; done = false }
      else launch (trim_space path)

  -- One step of the supervisor, of the loop's goroutine, or of the context; a `select` may take any
  -- case that is ready.
  infix 40 ◌⟶◌
  pub data ◌⟶◌ : State → State → Type 0 where
    -- `runCtx` ends
    finish :
        (p : Phase) (l : Option (Text × Bool))
        → record { phase = p; loop = l; done = false } ⟶ record { phase = p; loop = l; done = true }
    -- `if runCtx.Err() != nil { return }`
    leave :
        (l : Option (Text × Bool))
        → record { phase = looking; loop = l; done = true }
          ⟶ record { phase = stopped; loop = l; done = true }
    -- the path is looked at
    read : (path : Text) → record { phase = looking; loop = none; done = false } ⟶ look path
    -- `case <-runCtx.Done(): return`
    idle_done :
        (l : Option (Text × Bool))
        → record { phase = idle; loop = l; done = true }
          ⟶ record { phase = stopped; loop = l; done = true }
    -- `case <-restart: continue`
    idle_restart :
        (l : Option (Text × Bool)) (d : Bool)
        → record { phase = idle; loop = l; done = d }
          ⟶ record { phase = looking; loop = l; done = d }
    -- `cancel()` in the case of `runCtx.Done()`
    watching_done :
        (l : Option (Text × Bool))
        → record { phase = watching; loop = l; done = true }
          ⟶ record { phase = closing true; loop = cancel l; done = true }
    -- `cancel()` in the case of `restart`
    watching_restart :
        (l : Option (Text × Bool)) (d : Bool)
        → record { phase = watching; loop = l; done = d }
          ⟶ record { phase = closing false; loop = cancel l; done = d }
    -- `case <-done`: the loop has returned
    watching_ended :
        (d : Bool)
        → record { phase = watching; loop = none; done = d }
          ⟶ record { phase = cooling; loop = none; done = d }
    -- `<-done; return`
    closed_stop :
        (d : Bool)
        → record { phase = closing true; loop = none; done = d }
          ⟶ record { phase = stopped; loop = none; done = d }
    -- `<-done`, and the next iteration
    closed_again :
        (d : Bool)
        → record { phase = closing false; loop = none; done = d }
          ⟶ record { phase = looking; loop = none; done = d }
    -- `case <-runCtx.Done(): return` in the five seconds
    cooling_done :
        (l : Option (Text × Bool))
        → record { phase = cooling; loop = l; done = true }
          ⟶ record { phase = stopped; loop = l; done = true }
    -- `case <-time.After(5 * time.Second)`
    cooling_over :
        (l : Option (Text × Bool)) (d : Bool)
        → record { phase = cooling; loop = l; done = d }
          ⟶ record { phase = looking; loop = l; done = d }
    -- `runWatchLoop` returns, cancelled or not, and closes `done`
    loop_returns :
        (p : Phase) (path : Text) (cancelled d : Bool)
        → record { phase = p; loop = some (path, cancelled); done = d }
          ⟶ record { phase = p; loop = none; done = d }

  -- A run of so many steps.
  pub data Run : ℕ → State → State → Type 0 where
    here : (s : State) → Run 0 s s
    next : {n : ℕ} {s t v : State} → s ⟶ t → Run n t v → Run (suc n) s v
