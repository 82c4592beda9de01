-- ===== src/Importer.antt =====
-- The import folder and its settings: hubabox-proj/internal/importer/importer.go.
pub mod Apart
pub mod Eligible
pub mod Scan
pub mod Supervisor
pub mod Entries
pub mod Watch
use hubabox.Base.{
  ℕ, Bool, true, false, ◌||◌, List, [], ◌∷◌, ◌++◌, if◌then◌else◌, Result, ok, err, Error,
  empty_path, same_directory, nested_directories, ◌>>=◌, ◌>>◌, refuse_if,
}
use hubabox.Text.{Text, codes, text_eq, trim_space, has_prefix}
use hubabox.FilePath.{slash, abs, clean}
use hubabox.World.{World, Act}
use hubabox.World.Db.{select_kv, upsert_kv, delete_kv}

abbrev pub kv_import_watch_dir : Text
kv_import_watch_dir = codes "import_watch_dir"

abbrev pub kv_import_auto_copy : Text
kv_import_auto_copy = codes "import_auto_copy"

-- A stored setting, trimmed, and "" on any error.
abbrev pub setting : Result Text → Text
setting (err e) = []
setting (ok v) = trim_space v

-- `ReadImportWatchDir`; the database is always there.
unfoldable pub read_import_watch_dir : World → Text × World
read_import_watch_dir w = let (r, w') = select_kv kv_import_watch_dir w in (setting r, w')

abbrev pub store_watch_dir : Text → Act (Unit {0})
store_watch_dir [] = delete_kv kv_import_watch_dir
store_watch_dir (c ∷ path) = upsert_kv kv_import_watch_dir (c ∷ path)

-- `SetImportWatchDir`
unfoldable pub set_import_watch_dir : Text → Act (Unit {0})
set_import_watch_dir path = store_watch_dir (trim_space path)

abbrev pub resolved : Text → World → Text × World
resolved [] w = read_import_watch_dir w
resolved (c ∷ path) w = (c ∷ path, w)

-- `ResolveImportDir`
unfoldable pub resolve_import_dir : Text → World → Text × World
resolve_import_dir flag_path w = resolved (trim_space flag_path) w

-- `ReadImportAutoCopy`
unfoldable pub read_import_auto_copy : World → Bool × World
read_import_auto_copy w =
    let (r, w') = select_kv kv_import_auto_copy w in (text_eq (setting r) (codes "1"), w')

-- `SetImportAutoCopy`
unfoldable pub set_import_auto_copy : Bool → Act (Unit {0})
set_import_auto_copy false = delete_kv kv_import_auto_copy
set_import_auto_copy true = upsert_kv kv_import_auto_copy (codes "1")

-- `strings.HasPrefix(inner+sep, outer+sep)`
abbrev pub lies_in : Text → Text → Bool
lies_in inner outer = has_prefix (inner ++ slash ∷ []) (outer ++ slash ∷ [])

-- `ValidatePaths`
unfoldable pub validate_paths : Result Text → Text → Text → Result (Unit {0})
validate_paths cwd import_dir files_dir = do
  refuse_if (text_eq (trim_space import_dir) []) empty_path
  imp ← abs cwd import_dir
  fil ← abs cwd files_dir
  refuse_if (text_eq (clean imp) (clean fil)) same_directory
  refuse_if (lies_in fil imp || lies_in imp fil) nested_directories
  ok tt
