-- ===== src/Server/ImportForms.antt =====
-- The forms of the import folder: `filesImportScanPost`, `filesImportConfigPost`,
-- `filesImportAutoPost` and `filesImportPickPost` of hubabox-proj/internal/server/server.go, and
-- `ValidateImportDirAccessible` of hubabox-proj/internal/importer/importer.go.
pub mod Saved
use hubabox.Base.{
  ℕ, Bool, true, false, not, List, [], ◌∷◌, ◌++◌, if◌then◌else◌, Result, ok, err, Error, empty_path,
  not_a_directory, ◌>>=◌, ◌>>◌, refuse_if, Option, none, some, Tally,
}
use hubabox.Text.{Text, Unicode, codes, text_eq, trim_space}
use hubabox.Text.Decimal.{itoa}
use hubabox.Text.Urls.{query_escape}
use hubabox.FilePath.{abs}
use hubabox.World.{World}
use hubabox.Importer.{
  validate_paths, set_import_watch_dir, set_import_auto_copy, resolve_import_dir,
}
use hubabox.Importer.Eligible.{Media}
use hubabox.Importer.Scan.{Wording, Outcome, scan_with_mode, import_selected_names}
use hubabox.Server.{Answer, redirect, form_value}

-- `ValidateImportDirAccessible`; the argument is `os.Stat`, which tells whether a path is a folder.
unfoldable pub validate_import_dir_accessible : (Text → Result Bool) → Text → Result (Unit {0})
validate_import_dir_accessible stat import_dir = do
  refuse_if (text_eq (trim_space import_dir) []) empty_path
  is_dir ← stat (trim_space import_dir)
  refuse_if (not is_dir) not_a_directory

-- The answer of a handler, and whether it has sent to `importRestart`.
abbrev pub Pinged : Type 0
Pinged = Answer × Bool

abbrev pub went_wrong : Text → Text → Answer
went_wrong msg why = redirect (codes "/files?msg=" ++ msg ++ codes "&why=" ++ query_escape why)

abbrev pub counted : Text → Tally → Answer
counted msg (imported, skipped) =
    redirect
      (codes "/files?msg=" ++ msg ++ codes "&in=" ++ itoa imported ++ codes "&sk=" ++ itoa skipped)

-- `import_dir` is the folder of the command line, `files_dir` that of the hub's files.
module _ (u : Unicode) (cwd : Result Text) (words : Wording) (import_dir files_dir : Text) where
  abbrev pub ended_scan : Text → Text → Outcome × World → Answer × World
  ended_scan good bad ((t, none), w) = (counted good t, w)
  ended_scan good bad ((t, some e), w) = (went_wrong bad (words.error_text e), w)

  module _ (media : Media) (ctx : ℕ → Bool) where
    abbrev scan_checked : Text → Result (Unit {0}) → World → Answer × World
    scan_checked dir (err e) w = (went_wrong (codes "import_err") (words.error_text e), w)
    scan_checked dir (ok _) w =
        ended_scan (codes "import_ok") (codes "import_err")
          (scan_with_mode u cwd media words ctx dir files_dir (codes "scan") w)

    abbrev scan_dir : Text × World → Answer × World
    scan_dir (dir, w) =
        if text_eq dir []
        then (
          went_wrong (codes "import_err")
              (codes "no import folder set (use the form below or -import / HUBABOX_IMPORT)"),
          w,
        )
        else scan_checked dir (validate_paths cwd dir files_dir) w

    -- `filesImportScanPost`
    unfoldable pub files_import_scan_post : World → Answer × World
    files_import_scan_post w = scan_dir (resolve_import_dir import_dir w)

    abbrev pick_named : Text → List Text → World → Answer × World
    pick_named dir [] w = (went_wrong (codes "import_pick_err") (codes "no files selected"), w)
    pick_named dir (name ∷ names) w =
        ended_scan (codes "import_pick_ok") (codes "import_pick_err") (
          import_selected_names u cwd media words ctx dir files_dir (codes "pick") (name ∷ names) w)

    abbrev pick_checked : Text → List Text → Result (Unit {0}) → World → Answer × World
    pick_checked dir names (err e) w =
        (went_wrong (codes "import_pick_err") (words.error_text e), w)
    pick_checked dir names (ok _) w = pick_named dir names w

    abbrev pick_dir : List Text → Text × World → Answer × World
    pick_dir names (dir, w) =
        if text_eq dir []
        then (went_wrong (codes "import_pick_err") (codes "no import folder set"), w)
        else pick_checked dir names (validate_paths cwd dir files_dir) w

    abbrev pick_form : Result (List Text) → World → Answer × World
    pick_form (err e) w = (went_wrong (codes "import_pick_err") (codes "bad form"), w)
    pick_form (ok names) w = pick_dir names (resolve_import_dir import_dir w)

    -- `filesImportPickPost`; the argument is `r.Form["import_name"]`, or the error of `ParseForm`.
    unfoldable pub files_import_pick_post : Result (List Text) → World → Answer × World
    files_import_pick_post names w = pick_form names w

  abbrev config_failed : Error → Pinged
  config_failed e = (went_wrong (codes "import_cfg_err") (words.error_text e), false)

  abbrev pub config_saved : Text → Result (Unit {0}) → Pinged
  config_saved answer (err e) = config_failed e
  config_saved answer (ok _) = (redirect answer, true)

  abbrev pub save_checked : Result Text → World → Pinged × World
  save_checked (err e) w = (config_failed e, w)
  save_checked (ok path) w =
      let (r, w') = set_import_watch_dir path w in
      (config_saved (codes "/files?msg=import_cfg_ok") r, w')

  module _ (stat : Text → Result Bool) where
    -- The folder that is saved, after all its checks.
    abbrev pub checked_dir : Text → Result Text
    checked_dir raw = do
      path ← abs cwd raw
      validate_paths cwd path files_dir
      validate_import_dir_accessible stat path
      ok path

    abbrev pub config_path : Text → World → Pinged × World
    config_path [] w =
        let (r, w') = set_import_watch_dir [] w in
        (config_saved (codes "/files?msg=import_cfg_ok&cleared=1") r, w')
    config_path (c ∷ raw) w = save_checked (checked_dir (c ∷ raw)) w

    abbrev config_form : Result (List (Text × Text)) → World → Pinged × World
    config_form (err e) w = ((went_wrong (codes "import_cfg_err") (codes "bad form"), false), w)
    config_form (ok form) w = config_path (trim_space (form_value (codes "import_path") form)) w

    -- `filesImportConfigPost`
    unfoldable pub files_import_config_post : Result (List (Text × Text)) → World → Pinged × World
    files_import_config_post form w = config_form form w

  abbrev auto_answer : Bool → Answer
  auto_answer on =
      if on
      then redirect (codes "/files?msg=import_auto_on")
      else redirect (codes "/files?msg=import_auto_off")

  abbrev pub auto_saved : Bool → Result (Unit {0}) → Pinged
  auto_saved on (err e) = (went_wrong (codes "import_auto_err") (words.error_text e), false)
  auto_saved on (ok _) = (auto_answer on, true)

  abbrev auto_form : Result (List (Text × Text)) → World → Pinged × World
  auto_form (err e) w = ((went_wrong (codes "import_auto_err") (codes "bad form"), false), w)
  auto_form (ok form) w =
      let on = text_eq (form_value (codes "import_auto_copy") form) (codes "1") in
      let (r, w') = set_import_auto_copy on w in (auto_saved on r, w')

  -- `filesImportAutoPost`
  unfoldable pub files_import_auto_post : Result (List (Text × Text)) → World → Pinged × World
  files_import_auto_post form w = auto_form form w
