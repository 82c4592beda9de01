-- ===== src/Importer/Eligible.antt =====
-- Which names of the import folder are imported: hubabox-proj/internal/importer/eligible.go.
use hubabox.Base.{
  ℕ, Bool, true, false, ◌||◌, List, [], ◌∷◌, ◌++◌, ltb, if◌then◌else◌, Result, ok, err, Option,
  none, some,
}
use hubabox.Text.{Text, Unicode, codes, text_eq, trim_space, has_prefix, has_suffix, contains}
use hubabox.FilePath.{slash, base, join_path, abs}
use hubabox.Import.{Source, should_skip_import_name}
use hubabox.Upload.{max_import_bytes}

-- What `os.Lstat` says of a path outside the hub; a file has a size.
pub data Leaf : Type 0 where
  link directory : Leaf
  plain_file : ℕ → Leaf

-- What the operating system says of the import folder, which the hub only reads: the names in it,
-- in the order of `os.ReadDir`, and the file behind a path.
pub record Media : Type 0 where
  pub read_dir : Text → Result (List Text)
  pub lstat : Text → Result Leaf
  pub source : Text → Source

-- The three results of `classifyImportFile`.
pub record Class : Type 0 where
  pub size : ℕ
  pub eligible : Bool
  pub skip_reason : Text

abbrev skip : Text → ℕ → Class
skip reason n = record { size = n; eligible = false; skip_reason = reason }

abbrev pub has_invalid_name : Text → Bool
has_invalid_name name =
    text_eq name []
    || text_eq name (codes ".")
    || text_eq name (codes "..")
    || contains name (slash ∷ [])
    || contains name (0 ∷ [])

abbrev pub is_ignored : Unicode → Text → Bool
is_ignored u name = has_suffix name (codes ".partial") || should_skip_import_name u name

abbrev pub classify_leaf : Unicode → Text → Result Leaf → Class
classify_leaf u name (err e) = skip (codes "unreadable") 0
classify_leaf u name (ok link) = skip (codes "symlink") 0
classify_leaf u name (ok directory) = skip (codes "folder") 0
classify_leaf u name (ok (plain_file n)) =
    if is_ignored u name
    then skip (codes "ignored") n
    else if ltb max_import_bytes n
    then skip (codes "too large") n
    else record { size = n; eligible = true; skip_reason = [] }

-- `classifyImportFile`
unfoldable pub classify_import_file : Unicode → Media → Text → Text → Class
classify_import_file u media import_dir name =
    if has_invalid_name name
    then skip (codes "invalid name") 0
    else classify_leaf u name (media.lstat (join_path import_dir name))

abbrev pub is_confined : Text → Text → Bool
is_confined import_dir_abs src_abs =
    text_eq src_abs import_dir_abs || has_prefix src_abs (import_dir_abs ++ slash ∷ [])

abbrev confined : Text → Text → Result Text → Option Text
confined import_dir_abs src (err e) = none
confined import_dir_abs src (ok src_abs) =
    if is_confined import_dir_abs src_abs then some src else none

-- `importFilePath`
unfoldable pub import_file_path : Result Text → Text → Text → Option Text
import_file_path cwd import_dir_abs name =
    let b = base (trim_space name) in
    let src = join_path import_dir_abs b in
    if text_eq b (codes ".") || text_eq b (codes "..") || text_eq b []
    then none
    else confined import_dir_abs src (abs cwd src)
