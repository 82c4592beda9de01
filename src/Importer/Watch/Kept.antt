-- ===== src/Importer/Watch/Kept.antt =====
-- What the watch loop leaves alone.
use hubabox.Base.{
  ℕ, Bool, true, false, List, [], ◌∷◌, ◌≡◌, refl, ◌∙◌, ltb, Result, Option, none, some, Bool-cases,
  inl, inr,
}
use hubabox.Text.{Text, Unicode, text_eq}
use hubabox.Text.Assoc.{find}
use hubabox.World.{World, Node, fails}
use hubabox.Import.Keeps.{IsLasting}
use hubabox.Importer.{read_import_auto_copy, kv_import_auto_copy}
use hubabox.Importer.Scan.{Wording}
use hubabox.Importer.Scan.Kept.{scan_with_mode-keeps}
use hubabox.Importer.Watch.{
  View, WatchEvent, changed, ignored, timer, channel_closed, context_done, Watch, auto_scan, fired,
  watch_step, watch_from, run_watch_loop, mode_auto,
}

-- A property of states that the automatic scan keeps holds of whatever the loop leaves.
module _ (u : Unicode) (cwd : Result Text) (words : Wording) (import_dir files_dir : Text)
    (P : World → Type 0)
    (kept : (v : View) (w : World) → P w → P (auto_scan u cwd words import_dir files_dir v w)) where
  fired-kept :
      (o : Option ℕ) (now : ℕ) (ended : Bool) (v : View) (w : World)
      → P w
      → P (fired u cwd words import_dir files_dir o now ended v w).1
  fired-kept none now ended v w h = h
  fired-kept (some at) now ended v w h = elim (Bool-cases (ltb now at)) [
    | inl early ↦ rw early h
    | inr due ↦ elim (Bool-cases ended) [ inl e ↦ rw (due, e) h | inr e ↦ rw (due, e) (kept v w h) ]
  ]

  watch_step-kept :
      (e : WatchEvent) (s : Watch) (w : World)
      → P w
      → P (watch_step u cwd words import_dir files_dir e s w).1
  unfolding watch_step
  watch_step-kept (changed now) s w h = h
  watch_step-kept ignored s w h = h
  watch_step-kept (timer now ended v) s w h = fired-kept s.debounce now ended v w h
  watch_step-kept channel_closed s w h = h
  watch_step-kept context_done s w h = h

  watch_from-kept :
      (es : List WatchEvent) (s : Watch) (w : World)
      → P w
      → P (watch_from u cwd words import_dir files_dir es s w).1
  unfolding watch_from
  watch_from-kept [] s w h = h
  watch_from-kept (e ∷ es) s w h =
      let (s', w') = watch_step u cwd words import_dir files_dir e s w in
      watch_from-kept es s' w' (watch_step-kept e s w h)

  run_watch_loop-kept :
      (added : Bool) (v : View) (es : List WatchEvent) (w : World)
      → P w
      → P (run_watch_loop u cwd words import_dir files_dir added v es w)
  unfolding run_watch_loop
  run_watch_loop-kept true v es w h = watch_from-kept es _ _ (kept v w h)
  run_watch_loop-kept false v es w h = h

read_import_auto_copy_world :
    (w : World)
    → ((read_import_auto_copy w).1.kv ≡ w.kv) × ((read_import_auto_copy w).1.disk ≡ w.disk)
unfolding read_import_auto_copy
read_import_auto_copy_world w = elim (Bool-cases (fails w.faults)) [
  | inl f ↦ rw f (refl, refl)
  | inr f ↦ rw f (refl, refl)
]

-- Auto-copy is off: its setting is missing.
abbrev pub IsOff : World → Type 0
IsOff w = find kv_import_auto_copy w.kv ≡ none

read_import_auto_copy_off : (w : World) → IsOff w → (read_import_auto_copy w).0 ≡ false
unfolding read_import_auto_copy text_eq
read_import_auto_copy_off w off = elim (Bool-cases (fails w.faults)) [
  | inl f ↦ rw f refl
  | inr f ↦ rw (f, off) refl
]

module _ (u : Unicode) (cwd : Result Text) (words : Wording) (import_dir : Text) where
  -- While auto-copy is off, the watch loop changes no file and no setting, whatever the watcher and
  -- the timer report and whatever fails.
  pub run_watch_loop-off :
      (files_dir : Text) (added : Bool) (v : View) (es : List WatchEvent) (w : World)
      → IsOff w
      → let w' = run_watch_loop u cwd words import_dir files_dir added v es w in
        (w'.disk ≡ w.disk) × (w'.kv ≡ w.kv)
  run_watch_loop-off files_dir added v es w off =
      run_watch_loop-kept u cwd words import_dir files_dir
        (λ w'. (w'.disk ≡ w.disk) × (w'.kv ≡ w.kv)) kept added v es w (refl, refl)
    where
      kept :
          (x : View) (y : World)
          → (y.disk ≡ w.disk) × (y.kv ≡ w.kv)
          → ((auto_scan u cwd words import_dir files_dir x y).disk ≡ w.disk)
            × ((auto_scan u cwd words import_dir files_dir x y).kv ≡ w.kv)
      kept x y (d, k) =
          let (same_kv, same_disk) = read_import_auto_copy_world y in
          let still : IsOff y = rw k off in
          unfold auto_scan in rw (read_import_auto_copy_off y still) (same_disk ∙ d, same_kv ∙ k)

  -- Whatever the watcher and the timer report and whatever fails, the watch loop leaves each
  -- file of the hub as it was, the temporary files of uploads excepted.
  pub run_watch_loop-keeps :
      (files_dir q : Text) (node : Node) (added : Bool) (v : View) (es : List WatchEvent)
      (w : World)
      → IsLasting q
      → find q w.disk ≡ some node
      → find q (run_watch_loop u cwd words import_dir files_dir added v es w).disk ≡ some node
  run_watch_loop-keeps files_dir q node added v es w lasting h =
      run_watch_loop-kept u cwd words import_dir files_dir (λ w'. find q w'.disk ≡ some node) kept
        added v es w h
    where
      kept :
          (x : View) (y : World)
          → find q y.disk ≡ some node
          → find q (auto_scan u cwd words import_dir files_dir x y).disk ≡ some node
      kept x y there =
          let (same_kv, same_disk) = read_import_auto_copy_world y in
          let there' : find q (read_import_auto_copy y).1.disk ≡ some node = rw same_disk there in
          unfold auto_scan in
          elim (Bool-cases (read_import_auto_copy y).0) [
            | inl on ↦ rw on (
                (scan_with_mode-keeps u cwd x.media words x.ctx import_dir files_dir mode_auto q
                  node lasting [] (read_import_auto_copy y).1 there').0)
            | inr off ↦ rw off there'
          ]
