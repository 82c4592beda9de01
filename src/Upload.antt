-- ===== src/Upload.antt =====
-- Storing, reading and removing hub files: `saveUploadWithLimit`, `SaveUpload`,
-- `SaveUploadLimited`, `OpenRead` and `Remove` of hubabox-proj/internal/files/files.go.
pub mod Atomic
pub mod Saved
use hubabox.Base.{
  ℕ, ◌+◌, ◌*◌, ◌^◌, Bool, true, false, List, [], ◌∷◌, ◌++◌, ltb, ◌==◌, if◌then◌else◌, Result, ok,
  err, Error, too_large, not_exist, system, Option, none, some,
}
use hubabox.Text.{Text, codes}
use hubabox.Text.Assoc.{find}
use hubabox.FilePath.{slash}
use hubabox.Files.{sanitize_rel_path, join_resolved_under_hub}
use hubabox.World.{
  World, Act, continue, ◌>>=◌, ◌>>◌, return, raise, lift, attempt, query, Node, regular, folder,
  symlink,
}
use hubabox.World.Disk.{Reader, mkdir_all, create, copy_limited, rename, remove}

abbrev pub max_upload_bytes : ℕ
max_upload_bytes = 4 * 2 ^ 30

abbrev pub max_import_bytes : ℕ
max_import_bytes = 8 * 2 ^ 30

abbrev pub partial : Text → Text
partial full = full ++ codes ".partial"

-- `_ = os.Remove(tmp); return err`
abbrev pub give_up : {A : Type 0} → Text → Error → Act A
give_up tmp e = do attempt (remove tmp); raise e

abbrev pub after_rename : Text → Text → ℕ → Result (Unit {0}) → Act (Text × ℕ)
after_rename tmp safe n (err e) = give_up tmp e
after_rename tmp safe n (ok _) = return (safe, n)

abbrev pub after_copy : Text → Text → Text → ℕ → Result ℕ → Act (Text × ℕ)
after_copy full tmp safe max (err e) = give_up tmp e
after_copy full tmp safe max (ok n) =
    if ltb max n
    then give_up tmp too_large
    else do renamed ← attempt (rename tmp full); after_rename tmp safe n renamed

-- `saveUploadWithLimit` from the resolved path on.
unfoldable pub store_file : Text → Text → Reader → ℕ → Act (Text × ℕ)
store_file full safe r max = do
  mkdir_all full
  create (partial full)
  copied ← attempt (copy_limited (partial full) r max)
  after_copy full (partial full) safe max copied

-- A file that is open for reading: its name in the hub, its content and its time.
pub record Opened : Type 0 where
  pub name : Text
  pub bytes : List ℕ
  pub mod_time : ℕ

-- `os.Open`. A folder opens too, and nothing can be read from it; a symbolic link is not followed
-- here.
abbrev pub opened : Text → Option Node → Result Opened
opened safe none = err not_exist
opened safe (some (regular bytes at)) = ok (record { name = safe; bytes = bytes; mod_time = at })
opened safe (some folder) = ok (record { name = safe; bytes = []; mod_time = 0 })
opened safe (some symlink) = err system

module _ (cwd : Result Text) where
  -- `saveUploadWithLimit`
  unfoldable pub save_upload_with_limit : Text → Text → Reader → ℕ → Act (Text × ℕ)
  save_upload_with_limit dir name r max = do
    safe ← lift (sanitize_rel_path name)
    full ← lift (join_resolved_under_hub cwd dir safe)
    store_file full safe r max

  -- `SaveUpload`
  unfoldable pub save_upload : Text → Text → Reader → Act (Text × ℕ)
  save_upload dir name r = save_upload_with_limit dir name r max_upload_bytes

  -- `SaveUploadLimited`; the bound is an int64 that no caller makes negative.
  unfoldable pub save_upload_limited : Text → Text → Reader → ℕ → Act (Text × ℕ)
  save_upload_limited dir name r max =
      save_upload_with_limit dir name r (if max == 0 then max_upload_bytes else max)

  -- `OpenRead`
  unfoldable pub open_read : Text → Text → Act Opened
  open_read dir name = do
    safe ← lift (sanitize_rel_path name)
    full ← lift (join_resolved_under_hub cwd dir safe)
    query (λ w. opened safe (find full w.disk))

  -- `Remove`
  unfoldable pub remove_file : Text → Text → Act (Unit {0})
  remove_file dir name = do
    safe ← lift (sanitize_rel_path name)
    full ← lift (join_resolved_under_hub cwd dir safe)
    remove full
