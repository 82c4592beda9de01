-- ===== src/Server/ImportForms/Saved.antt =====
-- What the form of the import folder saves.
use hubabox.Base.{
  ℕ, Bool, true, false, List, [], ◌∷◌, ◌≡◌, refl, ap, ◌∙◌, if◌then◌else◌, Result, ok, err, none,
  some, ◌⊎◌, Bool-cases, Result-cases, inl, inr, err-ne-ok, ok-injective, system,
}
use hubabox.Text.{Text, Unicode, codes, text_eq, trim_space}
use hubabox.Text.Assoc.{find, find-put, find-del}
use hubabox.Text.Trim.{trim_space_idem}
use hubabox.FilePath.{abs}
use hubabox.World.{World, fails}
use hubabox.Importer.{
  validate_paths, set_import_watch_dir, store_watch_dir, kv_import_watch_dir, read_import_watch_dir,
  resolve_import_dir, resolved,
}
use hubabox.Importer.Scan.{Wording}
use hubabox.Server.{form_value}
use hubabox.Server.ImportForms.{
  validate_import_dir_accessible, checked_dir, config_path, config_saved, save_checked,
  files_import_config_post,
}

-- The setting after a write that has succeeded: a path of white space removes it.
abbrev pub IsStoredDir : Text → World → Type 0
IsStoredDir path w =
    find kv_import_watch_dir w.kv
    ≡ (if text_eq (trim_space path) [] then none else some (trim_space path))

store_watch_dir-IsStored :
    (t : Text) (w : World)
    → (store_watch_dir t w).0 ≡ ok tt
    → find kv_import_watch_dir (store_watch_dir t w).1.kv ≡ (if text_eq t [] then none else some t)
unfolding text_eq
store_watch_dir-IsStored [] w h = elim (Bool-cases (fails w.faults)) [
  | inl f ↦ absurd (err-ne-ok system tt (rw f at h))
  | inr f ↦ rw (f, find-del kv_import_watch_dir kv_import_watch_dir w.kv) refl
]
store_watch_dir-IsStored (c ∷ t) w h = elim (Bool-cases (fails w.faults)) [
  | inl f ↦ absurd (err-ne-ok system tt (rw f at h))
  | inr f ↦ rw (f, find-put kv_import_watch_dir kv_import_watch_dir (c ∷ t) w.kv) refl
]

set_import_watch_dir-IsStoredDir :
    (path : Text) (w : World)
    → (set_import_watch_dir path w).0 ≡ ok tt
    → IsStoredDir path (set_import_watch_dir path w).1
unfolding set_import_watch_dir
set_import_watch_dir-IsStoredDir path w h = store_watch_dir-IsStored (trim_space path) w h

module _ (u : Unicode) (cwd : Result Text) (words : Wording) (import_dir files_dir : Text)
    (stat : Text → Result Bool) where
  saved-ok :
      (answer : Text) (r : Result (Unit {0}))
      → (config_saved u cwd words import_dir files_dir answer r).1 ≡ true
      → r ≡ ok tt
  saved-ok answer (err e) h = cc
  saved-ok answer (ok unit) h = refl

  -- What was saved: nothing, or the absolute path of the form, without white space around it, after
  -- `ValidatePaths` and `ValidateImportDirAccessible` have accepted it.
  abbrev IsSaved : Text → World → Type 0
  IsSaved raw w =
      ((raw ≡ []) × (find kv_import_watch_dir w.kv ≡ none))
      ⊎ ((path : Text) × (abs cwd raw ≡ ok path)
          × (validate_paths cwd path files_dir ≡ ok tt)
          × (validate_import_dir_accessible stat path ≡ ok tt)
          × IsStoredDir path w)

  checked_dir-eq-ok :
      (raw path : Text)
      → checked_dir u cwd words import_dir files_dir stat raw ≡ ok path
      → (abs cwd raw ≡ ok path)
        × (validate_paths cwd path files_dir ≡ ok tt)
        × (validate_import_dir_accessible stat path ≡ ok tt)
  checked_dir-eq-ok raw path h = elim (Result-cases (abs cwd raw)) [
    | inr (e, a) ↦ absurd (err-ne-ok e path (rw a at h))
    | inl (p, a) ↦ elim (Result-cases (validate_paths cwd p files_dir)) [
      | inr (e, v) ↦ absurd (err-ne-ok e path (rw (a, v) at h))
      | inl (unit, v) ↦ elim (Result-cases (validate_import_dir_accessible stat p)) [
        | inr (e, d) ↦ absurd (err-ne-ok e path (rw (a, v, d) at h))
        | inl (unit', d) ↦
            let same : p ≡ path = ok-injective (rw (a, v, d) at h) in
            (a ∙ ap ok same, rw (← same) v, rw (← same) d)
      ]
    ]
  ]

  save_checked-IsSaved :
      (c : ℕ) (raw : Text) (r : Result Text) (w : World)
      → checked_dir u cwd words import_dir files_dir stat (c ∷ raw) ≡ r
      → (save_checked u cwd words import_dir files_dir r w).0.1 ≡ true
      → IsSaved (c ∷ raw) (save_checked u cwd words import_dir files_dir r w).1
  save_checked-IsSaved c raw (err e) w k h = cc
  save_checked-IsSaved c raw (ok path) w k h =
      let (a, v, d) = checked_dir-eq-ok (c ∷ raw) path k in
      let done = saved-ok (codes "/files?msg=import_cfg_ok") (set_import_watch_dir path w).0 h in
      inr (path, a, v, d, set_import_watch_dir-IsStoredDir path w done)

  config_path-IsSaved :
      (raw : Text) (w : World)
      → (config_path u cwd words import_dir files_dir stat raw w).0.1 ≡ true
      → IsSaved raw (config_path u cwd words import_dir files_dir stat raw w).1
  unfolding set_import_watch_dir text_eq trim_space
  config_path-IsSaved [] w h =
      let done =
        saved-ok (codes "/files?msg=import_cfg_ok&cleared=1") (set_import_watch_dir [] w).0 h in
      inl (refl, set_import_watch_dir-IsStoredDir [] w done)
  config_path-IsSaved (c ∷ raw) w h =
      save_checked-IsSaved c raw (checked_dir u cwd words import_dir files_dir stat (c ∷ raw)) w
        refl h

  -- What the form chooses: no folder, for an empty field, or the absolute path of the field, which
  -- both checks have accepted, cut by the white space around it.
  abbrev pub IsChosen : Text → Text → Type 0
  IsChosen raw dir =
      ((raw ≡ []) × (dir ≡ []))
      ⊎ ((path : Text) × (abs cwd raw ≡ ok path)
          × (validate_paths cwd path files_dir ≡ ok tt)
          × (validate_import_dir_accessible stat path ≡ ok tt)
          × (dir ≡ trim_space path))

  resolved_lem :
      (t dir : Text) (v : World)
      → (read_import_watch_dir v).0 ≡ dir
      → (resolved t v).0 ≡ (if text_eq t [] then dir else t)
  unfolding text_eq
  resolved_lem [] dir v h = h
  resolved_lem (c ∷ t) dir v h = refl

  read_of_stored :
      (dir : Text) (v : World)
      → trim_space dir ≡ dir
      → find kv_import_watch_dir v.kv ≡ (if text_eq dir [] then none else some dir)
      → fails v.faults ≡ false
      → (read_import_watch_dir v).0 ≡ dir
  unfolding read_import_watch_dir text_eq
  read_of_stored [] v t h f = rw (f, h) refl
  read_of_stored (c ∷ dir) v t h f = rw (f, h) t

  IsSaved-IsChosen :
      (raw : Text) (w : World)
      → IsSaved raw w
      → (dir : Text) × IsChosen raw dir
        × (trim_space dir ≡ dir)
        × (find kv_import_watch_dir w.kv ≡ (if text_eq dir [] then none else some dir))
  unfolding text_eq trim_space
  IsSaved-IsChosen raw w (inl (e, k)) = ([], inl (e, refl), refl, k)
  IsSaved-IsChosen raw w (inr (path, a, c, d, k)) =
      (trim_space path, inr (path, a, c, d, refl), trim_space_idem path, k)

  -- The form of the import folder restarts the watcher only after it has saved a choice: no folder,
  -- for an empty field, or else the absolute path of the field, which both checks have accepted, cut
  -- by the white space around it. As long as the settings stay and can be read, the folder that the
  -- watcher and the imports resolve is then that choice, unless the command line names one.
  pub files_import_config_post-IsChosen :
      (form : List (Text × Text)) (w v : World)
      → (files_import_config_post u cwd words import_dir files_dir stat (ok form) w).0.1 ≡ true
      → v.kv ≡ (files_import_config_post u cwd words import_dir files_dir stat (ok form) w).1.kv
      → fails v.faults ≡ false
      → (dir : Text) × IsChosen (trim_space (form_value (codes "import_path") form)) dir
        × (find kv_import_watch_dir v.kv ≡ (if text_eq dir [] then none else some dir))
        × ((resolve_import_dir import_dir v).0
            ≡ (if text_eq (trim_space import_dir) [] then dir else trim_space import_dir))
  unfolding files_import_config_post resolve_import_dir
  files_import_config_post-IsChosen form w v h k f =
      let raw = trim_space (form_value (codes "import_path") form) in
      let (dir, chosen, trimmed, stored) =
        IsSaved-IsChosen raw (config_path u cwd words import_dir files_dir stat raw w).1
          (config_path-IsSaved raw w h) in
      let kept : find kv_import_watch_dir v.kv ≡ (if text_eq dir [] then none else some dir) =
        ap (λ m. find kv_import_watch_dir m) k ∙ stored in
      (
        dir,
        chosen,
        kept,
        resolved_lem (trim_space import_dir) dir v (read_of_stored dir v trimmed kept f),
      )
