-- ===== src/Importer/Scan.antt =====
-- Imports of the whole folder and of picked names: `Scan`, `scanWithMode`, `ImportSelectedNames`,
-- `importSelectedNames`, `recordResult` and `ReadLastScan` of
-- hubabox-proj/internal/importer/importer.go.
pub mod Same
pub mod Reported
pub mod Kept
use hubabox.Base.{
  ℕ, suc, Bool, true, false, not, ◌&&◌, List, [], ◌∷◌, if◌then◌else◌, any, Tally, count, Result, ok,
  err, is_ok, Error, empty_path, canceled, Option, none, some, ◌>>=◌, ◌>>◌, refuse_if,
}
use hubabox.Text.{Text, Unicode, codes, text_eq, trim_space}
use hubabox.Text.Assoc.{get_or}
use hubabox.Text.Decimal.{itoa, atoi_clamped}
use hubabox.FilePath.{base, abs}
use hubabox.World.{World, Act, now_seconds, return}
use hubabox.World.Db.{select_kv, upsert_kv}
use hubabox.Import.{import_regular_file}
use hubabox.Importer.{validate_paths}
use hubabox.Importer.Eligible.{Media, classify_import_file, import_file_path}

-- The texts of the language's library that a report stores: a time in RFC 3339, from Unix seconds,
-- and what an error says of itself.
pub record Wording : Type 0 where
  pub rfc3339 : ℕ → Text
  pub error_text : Error → Text

abbrev pub kv_last_at : Text
kv_last_at = codes "import_last_at"

abbrev pub kv_last_imported : Text
kv_last_imported = codes "import_last_imported"

abbrev pub kv_last_skipped : Text
kv_last_skipped = codes "import_last_skipped"

abbrev pub kv_last_err : Text
kv_last_err = codes "import_last_err"

abbrev pub kv_last_mode : Text
kv_last_mode = codes "import_last_mode"

-- The loop of `recordResult`, which ends at the first error.
unfoldable pub store_all : List (Text × Text) → Act (Unit {0})
store_all [] = return tt
store_all ((k, v) ∷ rest) = hubabox.World.◌>>◌ (upsert_kv k v) (store_all rest)

-- `recordResult`; the database is always there.
unfoldable pub record_result : Wording → Tally → Text → Text → Act (Unit {0})
record_result words (imported, skipped) mode err_str w =
    store_all
      ((kv_last_at, words.rfc3339 (now_seconds w))
        ∷ (kv_last_imported, itoa imported)
        ∷ (kv_last_skipped, itoa skipped)
        ∷ (kv_last_err, err_str)
        ∷ (kv_last_mode, mode)
        ∷ [])
      w

-- `read` in `ReadLastScan`
abbrev pub or_empty : Result Text → Text
or_empty (err e) = []
or_empty (ok v) = v

abbrev pub read_key : Text → World → Text × World
read_key key w = let (r, w') = select_kv key w in (or_empty r, w')

-- The report of the last import.
pub record LastScan : Type 0 where
  pub at : Text
  pub imported : ℕ
  pub skipped : ℕ
  pub mode : Text
  pub err_str : Text

abbrev pub number : Text → ℕ
number s = get_or (atoi_clamped s) 0

-- `ReadLastScan`; no report has a negative number, and one would be read as 0.
unfoldable pub read_last_scan : World → LastScan × World
read_last_scan w =
    let (at, w₁) = read_key kv_last_at w in
    let (imported, w₂) = read_key kv_last_imported w₁ in
    let (skipped, w₃) = read_key kv_last_skipped w₂ in
    let (mode, w₄) = read_key kv_last_mode w₃ in
    let (err_str, w₅) = read_key kv_last_err w₄ in
    (
      record {
        at = at;
        imported = number imported;
        skipped = number skipped;
        mode = mode;
        err_str = err_str;
      },
      w₅,
    )

-- The counts, and the error that ended the import.
abbrev pub Outcome : Type 0
Outcome = Tally × Option Error

-- `ctx i` tells whether the context is done when the loop starts its iteration `i`.
module _ (u : Unicode) (cwd : Result Text) (media : Media) (words : Wording) (ctx : ℕ → Bool)
    (import_dir files_dir mode : Text) where
  -- `_ = recordResult(…)` and the return behind it.
  abbrev pub ended : Tally → Option Error → Text → World → Outcome × World
  ended t e text w = let (r, w') = record_result words t mode text w in ((t, e), w')

  abbrev pub interrupted : Tally → World → Outcome × World
  interrupted t w = ended t (some canceled) (words.error_text canceled) w

  abbrev pub import_src : Option Text → World → Bool × World
  import_src none w = (false, w)
  import_src (some src) w =
      let (r, w') = import_regular_file u cwd src (media.source src) files_dir w in (is_ok r, w')

  -- One file of either loop, and whether it was imported.
  unfoldable pub import_entry : Text → Text → World → Bool × World
  import_entry imp_abs name w =
      if (classify_import_file u media import_dir name).eligible
      then import_src (import_file_path cwd imp_abs name) w
      else (false, w)

  -- The loop of `scanWithMode`.
  unfoldable pub scan_loop : Text → ℕ → List Text → Tally → World → Outcome × World
  scan_loop imp_abs i [] t w = ended t none [] w
  scan_loop imp_abs i (name ∷ names) t w =
      let (done, w') = import_entry imp_abs name w in
      let next = scan_loop imp_abs (suc i) names (count done t) w' in
      if ctx i then interrupted t w else next

  abbrev pub scan_prepared : Result (Text × List Text) → World → Outcome × World
  scan_prepared (err e) w = ended (0, 0) (some e) (words.error_text e) w
  scan_prepared (ok (imp_abs, names)) w = scan_loop imp_abs 0 names (0, 0) w

  -- `scanWithMode`, and `Scan` with the mode "scan"
  unfoldable pub scan_with_mode : World → Outcome × World
  scan_with_mode w =
      if text_eq import_dir []
      then (((0, 0), none), w)
      else scan_prepared
          (do
            validate_paths cwd import_dir files_dir
            imp_abs ← abs cwd import_dir
            names ← media.read_dir import_dir
            ok (imp_abs, names))
          w

  -- The file of a picked name: the code looks at its path before it looks at its class.
  abbrev pub pick_src : Text → Option Text → World → Bool × World
  pick_src name none w = (false, w)
  pick_src name (some src) w =
      if (classify_import_file u media import_dir name).eligible
      then import_src (some src) w
      else (false, w)

  abbrev pub pick_entry : Text → Bool → Text → World → Bool × World
  pick_entry imp_abs is_new name w =
      if is_new then pick_src name (import_file_path cwd imp_abs name) w else (false, w)

  -- The loop of `importSelectedNames`, with the names that it has seen.
  unfoldable pub select_loop : Text → ℕ → List Text → List Text → Tally → World → Outcome × World
  select_loop imp_abs i seen [] t w = ended t none [] w
  select_loop imp_abs i seen (raw ∷ names) t w =
      let name = trim_space raw in
      let is_base = text_eq name (base name) in
      let (done, w') = pick_entry imp_abs (is_base && not (any (text_eq name) seen)) name w in
      let seen' = if is_base then name ∷ seen else seen in
      let next = select_loop imp_abs (suc i) seen' names (count done t) w' in
      if ctx i then interrupted t w else next

  abbrev pub select_prepared : List Text → Result Text → World → Outcome × World
  select_prepared names (err e) w = (((0, 0), some e), w)
  select_prepared names (ok imp_abs) w = select_loop imp_abs 0 [] names (0, 0) w

  -- `importSelectedNames`, and `ImportSelectedNames` with the mode "pick"
  unfoldable pub import_selected_names : List Text → World → Outcome × World
  import_selected_names names w =
      select_prepared names
        (do
          refuse_if (text_eq import_dir []) empty_path
          validate_paths cwd import_dir files_dir
          abs cwd import_dir)
        w
