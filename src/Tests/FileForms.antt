-- ===== src/Tests/FileForms.antt =====
-- Uploads and deletions of several files at concrete inputs.
use hubabox.Base.{◌+◌, false, List, [], ◌∷◌, ◌≡◌, refl, ok, err, system, some}
use hubabox.Text.{Text, codes, text_eq}
use hubabox.Text.Assoc.{find}
use hubabox.World.{World, regular}
use hubabox.Server.{Answer, redirect}
use hubabox.Server.FileForms.{
  FilePart, upload_all, finish_files_upload, distinct_names, delete_all, files_delete,
}
use hubabox.Server.FileForms.Laws.{upload_all-elsewhere}
use hubabox.Tests.Paths.{cwd, paths}

file_forms : Unit {0}
unfolding paths upload_all finish_files_upload distinct_names delete_all files_delete
    hubabox.Server.FileForms.finish_files_delete hubabox.Text.Decimal.itoa
    hubabox.Text.Decimal.digits hubabox.Upload.save_upload hubabox.Upload.save_upload_with_limit
    hubabox.Upload.store_file hubabox.Upload.remove_file hubabox.Text.trim_prefix hubabox.Text.strip
    hubabox.World.fails hubabox.World.later find hubabox.Text.Assoc.put hubabox.Text.Assoc.del
    text_eq
file_forms = tt

abbrev dir : Text
dir = codes "/f"

abbrev hub : World
hub = record {
  kv = [];
  sessions = [];
  messages = [];
  next_id = 1;
  disk = (codes "/f/b", regular (2 ∷ []) 6) ∷ (codes "/f/c", regular (3 ∷ []) 6) ∷ [];
  now = 9;
  faults = [];
}

abbrev parts : List FilePart
parts =
    record { filename = codes "./a"; content = ok (record { bytes = 7 ∷ []; broken = false }) }
    ∷ record { filename = codes "../c"; content = ok (record { bytes = 8 ∷ []; broken = false }) }
    ∷ record { filename = codes "d"; content = err system }
    ∷ []

runs :
    ((upload_all cwd dir parts (0, 0) hub).0 ≡ (1, 2))
    × (finish_files_upload (1, 2) ≡ redirect (codes "/files?msg=upload_partial&ok=1&fail=2"))
    × (find (codes "/f/a") (upload_all cwd dir parts (0, 0) hub).1.disk ≡ some (regular (7 ∷ []) 9))
    × (distinct_names [] (codes " b " ∷ codes "b" ∷ [] ∷ codes "x" ∷ [])
        ≡ codes "b" ∷ codes "x" ∷ [])
    × ((files_delete cwd dir (ok (codes " b " ∷ codes "b" ∷ codes "x" ∷ [])) hub).0
        ≡ redirect (codes "/files?msg=delete_partial&ok=1&fail=1"))
unfolding file_forms
runs = (refl, refl, refl, refl, refl)

upload_all-elsewhere_example :
    (find (codes "/f/c") (upload_all cwd dir parts (0, 0) hub).1.disk
      ≡ find (codes "/f/c") hub.disk)
    × ((upload_all cwd dir parts (0, 0) hub).0.0 + (upload_all cwd dir parts (0, 0) hub).0.1 ≡ 3)
unfolding file_forms
upload_all-elsewhere_example = upload_all-elsewhere cwd dir (codes "/f/c") parts (0, 0) hub refl
