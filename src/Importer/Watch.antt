-- ===== src/Importer/Watch.antt =====
-- The watch loop on the import folder: `runWatchLoop` of
-- hubabox-proj/internal/importer/importer.go, over the events of the watcher and of its timer.
pub mod Kept
use hubabox.Base.{
  ℕ, ◌+◌, ◌*◌, Bool, true, false, List, [], ◌∷◌, ltb, if◌then◌else◌, Result, Option, none, some,
}
use hubabox.Text.{Text, Unicode, codes}
use hubabox.World.{World, second}
use hubabox.Importer.{read_import_auto_copy}
use hubabox.Importer.Eligible.{Media}
use hubabox.Importer.Scan.{Wording, scan_with_mode}

-- What a scan sees: the folder, and when its context is done.
pub record View : Type 0 where
  pub media : Media
  pub ctx : ℕ → Bool

-- A file event that counts, at a time in nanoseconds; another file event, or an error of the
-- watcher; the timer's goroutine, at a time, with whether the context is done; a closed channel of
-- the watcher; the end of the context.
pub data WatchEvent : Type 0 where
  changed : ℕ → WatchEvent
  ignored : WatchEvent
  timer : ℕ → Bool → View → WatchEvent
  channel_closed : WatchEvent
  context_done : WatchEvent

-- `debounce`, as the time at which the timer fires, and whether the loop has returned.
pub record Watch : Type 0 where
  pub debounce : Option ℕ
  pub returned : Bool

abbrev pub mode_auto : Text
mode_auto = codes "auto"

module _ (u : Unicode) (cwd : Result Text) (words : Wording) (import_dir files_dir : Text) where
  abbrev pub scan_if : Bool → View → World → World
  scan_if on v w =
      if on
      then (scan_with_mode u cwd v.media words v.ctx import_dir files_dir mode_auto w).1
      else w

  -- A scan with auto-copy on: at the start, and when the timer fires.
  unfoldable pub auto_scan : View → World → World
  auto_scan v w = let (on, w') = read_import_auto_copy w in scan_if on v w'

  abbrev pub fired : Option ℕ → ℕ → Bool → View → World → Option ℕ × World
  fired none now ended v w = (none, w)
  fired (some at) now ended v w =
      if ltb now at then (some at, w) else if ended then (none, w) else (none, auto_scan v w)

  abbrev schedule : ℕ → Watch → Watch
  schedule now s = if s.returned then s else record s { debounce = some (now + 2 * second) }

  -- One case of the `select`, or the function of the timer.
  unfoldable pub watch_step : WatchEvent → Watch → World → Watch × World
  watch_step (changed now) s w = (schedule now s, w)
  watch_step ignored s w = (s, w)
  watch_step (timer now ended v) s w =
      let (at, w') = fired s.debounce now ended v w in (record s { debounce = at }, w')
  watch_step channel_closed s w = (record s { returned = true }, w)
  watch_step context_done s w =
      (if s.returned then s else record { debounce = none; returned = true }, w)

  unfoldable pub watch_from : List WatchEvent → Watch → World → Watch × World
  watch_from [] s w = (s, w)
  watch_from (e ∷ es) s w = let (s', w') = watch_step e s w in watch_from es s' w'

  -- `runWatchLoop`; the Boolean tells whether the watcher could be made and the folder added.
  unfoldable pub run_watch_loop : Bool → View → List WatchEvent → World → World
  run_watch_loop added v es w =
      let looped = watch_from es (record { debounce = none; returned = false }) (auto_scan v w) in
      if added then looped.1 else w
