-- ===== src/Import.antt =====
-- Copies of files from removable media and the import folder: hubabox-proj/internal/files/import.go.
pub mod Fresh
pub mod Candidates
pub mod Keeps
use hubabox.Base.{
  ℕ, zero, suc, ◌-◌, Bool, true, false, ◌||◌, List, [], ◌∷◌, ◌++◌, ltb, if◌then◌else◌, Result, ok,
  err, Error, not_exist, too_large, is_directory, skipped, too_many_collisions, system, Option,
  none, some, take, length,
}
use hubabox.Text.{Text, Unicode, codes, text_eq, has_prefix, to_lower}
use hubabox.Text.Assoc.{find}
use hubabox.Text.Decimal.{itoa}
use hubabox.FilePath.{resolved_path, base, ext, join_path}
use hubabox.Files.{sanitize_name}
use hubabox.World.{
  World, Node, Act, continue, ◌>>=◌, ◌>>◌, return, raise, lift, refuse_if, query, fails, tick,
}
use hubabox.World.Disk.{Reader}
use hubabox.Upload.{max_import_bytes, save_upload_with_limit}

-- `skipImportLeafName`
unfoldable pub skip_import_leaf_name : Unicode → Text → Bool
skip_import_leaf_name u name =
    has_prefix name (codes ".")
    || text_eq (to_lower u name) (codes "thumbs.db")
    || text_eq (to_lower u name) (codes "desktop.ini")

-- `ShouldSkipImportName`
abbrev pub should_skip_import_name : Unicode → Text → Bool
should_skip_import_name u name = skip_import_leaf_name u name

abbrev is_there : Option Node → Bool
is_there none = false
is_there (some node) = true

-- `os.Stat`, asked whether a file is there; any other error is a fault.
abbrev pub stat_exists : Result Text → Text → Act Bool
stat_exists cwd path = query (λ w. ok (is_there (find (resolved_path cwd path) w.disk)))

-- `strings.TrimSuffix(safe, ext)`, where `ext` is a suffix of `safe`.
abbrev pub stem_of : Text → Text
stem_of safe = take (length safe - length (ext safe)) safe

abbrev pub candidate : Text → ℕ → Text
candidate safe i = stem_of safe ++ codes "_" ++ itoa i ++ ext safe

-- The loop of `UniqueDestName`, from number `i` on, with so many numbers left.
unfoldable pub first_free : Result Text → Text → Text → ℕ → ℕ → Act Text
first_free cwd dest_dir safe i zero = raise too_many_collisions
first_free cwd dest_dir safe i (suc left) = do
  there ← stat_exists cwd (join_path dest_dir (candidate safe i))
  (λ w.
      let next = first_free cwd dest_dir safe (suc i) left w in
      if there then next else (ok (candidate safe i), w))

abbrev pub last_candidate : ℕ
last_candidate = 99_999

abbrev named : Result Text → Text → Text → Bool → Act Text
named cwd dest_dir safe there w =
    if there then first_free cwd dest_dir safe 1 last_candidate w else (ok safe, w)

-- `UniqueDestName`
unfoldable pub unique_dest_name : Result Text → Text → Text → Act Text
unique_dest_name cwd dest_dir base_name = do
  safe ← lift (sanitize_name base_name)
  there ← stat_exists cwd (join_path dest_dir safe)
  named cwd dest_dir safe there

-- A file outside the hub: what `os.Stat` says of it, whether it is a folder and its size, and what
-- opening it yields.
pub record Source : Type 0 where
  pub stat : Result (Bool × ℕ)
  pub content : Result Reader

-- `ImportRegularFile`
module _ (u : Unicode) (cwd : Result Text) where
  unfoldable pub import_regular_file : Text → Source → Text → Act (Text × ℕ)
  import_regular_file src_path source dest_dir = do
    found ← lift source.stat
    refuse_if found.0 is_directory
    refuse_if (ltb max_import_bytes found.1) too_large
    refuse_if (skip_import_leaf_name u (base src_path)) skipped
    dest ← unique_dest_name cwd dest_dir (base src_path)
    r ← lift source.content
    save_upload_with_limit cwd dest_dir dest r max_import_bytes
