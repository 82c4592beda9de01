-- ===== src/Server/FileForms.antt =====
-- Uploads and deletions by the administrator: `filesUpload`, `filesUploadStream`,
-- `finishFilesUpload` and `filesDelete` of hubabox-proj/internal/server/server.go.
pub mod Laws
use hubabox.Base.{
  Tally, count, ℕ, suc, ◌+◌, Bool, true, false, not, ◌&&◌, ◌||◌, List, [], ◌∷◌, ◌++◌, ◌==◌, ltb,
  if◌then◌else◌, any, length, Result, ok, err, is_ok, Option, none, some,
}
use hubabox.Text.{Text, codes, text_eq, trim_space, trim_prefix}
use hubabox.Text.Decimal.{itoa}
use hubabox.World.{World}
use hubabox.World.Disk.{Reader}
use hubabox.Upload.{save_upload, remove_file}
use hubabox.Server.{Request, Answer, redirect}

-- A file of a parsed form: its name, and what opening it yields.
pub record FilePart : Type 0 where
  pub filename : Text
  pub content : Result Reader

-- What `NextPart` yields: a part, with its form name and its file name, or an error.
pub data StreamPart : Type 0 where
  part : Text → Text → Reader → StreamPart
  broken_part : StreamPart

-- The body of an upload, as `ParseMultipartForm` (the files "files" and the first "file") and as
-- `MultipartReader` see it.
pub record UploadBody : Type 0 where
  pub form : Result (List FilePart × Option FilePart)
  pub stream : Result (List StreamPart)

-- The name that is saved: `ToSlash` changes nothing on Unix.
abbrev pub upload_name : Text → Text
upload_name raw = trim_prefix (trim_space raw) (codes "./")

-- `finishFilesUpload`
unfoldable pub finish_files_upload : Tally → Answer
finish_files_upload (good, bad) =
    if good == 0
    then redirect (codes "/files?msg=upload+failed")
    else if bad == 0 && good == 1
    then redirect (codes "/files?msg=uploaded")
    else if bad == 0
    then redirect (codes "/files?msg=uploaded&n=" ++ itoa good)
    else redirect (codes "/files?msg=upload_partial&ok=" ++ itoa good ++ codes "&fail=" ++ itoa bad)

-- `hdrs`
abbrev pub headers : List FilePart × Option FilePart → List FilePart
headers (files, none) = files
headers (files, some file) = files ++ file ∷ []

-- The names of a deletion: trimmed, not empty, each once, in the order of their first occurrence.
unfoldable pub distinct_names : List Text → List Text → List Text
distinct_names seen [] = []
distinct_names seen (raw ∷ rest) =
    let n = trim_space raw in
    let without = distinct_names seen rest in
    let with_n = n ∷ distinct_names (n ∷ seen) rest in
    if text_eq n [] || any (text_eq n) seen then without else with_n

-- The end of `filesDelete`.
unfoldable pub finish_files_delete : Tally → Answer
finish_files_delete (good, bad) =
    if good == 0
    then redirect (codes "/files?msg=delete+failed")
    else if ltb 0 bad
    then redirect (codes "/files?msg=delete_partial&ok=" ++ itoa good ++ codes "&fail=" ++ itoa bad)
    else if good == 1
    then redirect (codes "/files?msg=deleted")
    else redirect (codes "/files?msg=deleted&n=" ++ itoa good)

module _ (cwd : Result Text) (files_dir : Text) where
  -- One file of either loop, and whether it was saved.
  abbrev pub save_named : Text → Reader → World → Bool × World
  save_named [] r w = (false, w)
  save_named (c ∷ name) r w =
      let (saved, w') = save_upload cwd files_dir (c ∷ name) r w in (is_ok saved, w')

  abbrev pub save_part : Text → Result Reader → World → Bool × World
  save_part filename (err e) w = (false, w)
  save_part filename (ok r) w = save_named (upload_name filename) r w

  -- The loop of `filesUpload`.
  unfoldable pub upload_all : List FilePart → Tally → World → Tally × World
  upload_all [] t w = (t, w)
  upload_all (p ∷ ps) t w =
      let (saved, w') = save_part p.filename p.content w in upload_all ps (count saved t) w'

  abbrev pub is_upload : Text → Text → Bool
  is_upload form_name file_name = text_eq form_name (codes "files") && not (text_eq file_name [])

  -- The loop of `filesUploadStream`: an error ends it, and other parts are passed over.
  unfoldable pub upload_stream : List StreamPart → Tally → World → Tally × World
  upload_stream [] t w = (t, w)
  upload_stream (broken_part ∷ ps) t w = (count false t, w)
  upload_stream (part form_name file_name r ∷ ps) t w =
      let (saved, w') = save_part file_name (ok r) w in
      let passed = upload_stream ps t w in
      let counted = upload_stream ps (count saved t) w' in
      if is_upload form_name file_name then counted else passed

  abbrev finished : Tally × World → Answer × World
  finished (t, w) = (finish_files_upload t, w)

  -- `filesUploadStream`
  abbrev files_upload_stream : Result (List StreamPart) → World → Answer × World
  files_upload_stream (err e) w = (redirect (codes "/files?msg=upload+badform"), w)
  files_upload_stream (ok ps) w = finished (upload_stream ps (0, 0) w)

  abbrev upload_headers : List FilePart → World → Answer × World
  upload_headers [] w = (redirect (codes "/files?msg=upload+missing"), w)
  upload_headers (p ∷ ps) w = finished (upload_all (p ∷ ps) (0, 0) w)

  abbrev upload_form : Result (List FilePart × Option FilePart) → World → Answer × World
  upload_form (err e) w = (redirect (codes "/files?msg=upload+badform"), w)
  upload_form (ok f) w = upload_headers (headers f) w

  -- `filesUpload`
  unfoldable pub files_upload : Request → UploadBody → World → Answer × World
  files_upload req body w =
      if text_eq req.csrf_header []
      then upload_form body.form w
      else files_upload_stream body.stream w

  -- The loop of `filesDelete`.
  unfoldable pub delete_all : List Text → Tally → World → Tally × World
  delete_all [] t w = (t, w)
  delete_all (name ∷ names) t w =
      let (removed, w') = remove_file cwd files_dir name w in
      delete_all names (count (is_ok removed) t) w'

  abbrev pub delete_names : List Text → World → Answer × World
  delete_names [] w = (redirect (codes "/files?msg=delete+none"), w)
  delete_names (name ∷ names) w =
      let (t, w') = delete_all (name ∷ names) (0, 0) w in (finish_files_delete t, w')

  abbrev delete_form : Result (List Text) → World → Answer × World
  delete_form (err e) w = (redirect (codes "/files?msg=delete+badform"), w)
  delete_form (ok raw) w = delete_names (distinct_names [] raw) w

  -- `filesDelete`; the argument is `r.Form["name"]`, or the error of `ParseForm`.
  unfoldable pub files_delete : Result (List Text) → World → Answer × World
  files_delete names w = delete_form names w
