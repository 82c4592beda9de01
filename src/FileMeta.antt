-- ===== src/FileMeta.antt =====
-- Kinds of files and what a browser may show of them: hubabox-proj/internal/filemeta/filemeta.go and
-- preview.go.
pub mod Previews
use hubabox.Base.{ℕ, Bool, true, false, ◌||◌, List, [], ◌∷◌, any, if◌then◌else◌}
use hubabox.Text.{Text, Unicode, codes, text_eq, trim_prefix, to_lower, equal_fold}
use hubabox.FilePath.{ext}

pub data Kind : Type 0 where
  image video audio pdf archive code_text doc sheet slides exe other_kind : Kind

abbrev among : List Text → Text → Bool
among names e = any (text_eq e) names

abbrev images : List Text
images =
    codes "jpg"
    ∷ codes "jpeg"
    ∷ codes "png"
    ∷ codes "gif"
    ∷ codes "webp"
    ∷ codes "svg"
    ∷ codes "bmp"
    ∷ codes "ico"
    ∷ []

abbrev videos : List Text
videos = codes "mp4" ∷ codes "webm" ∷ codes "mkv" ∷ codes "mov" ∷ codes "avi" ∷ []

abbrev audios : List Text
audios = codes "mp3" ∷ codes "ogg" ∷ codes "wav" ∷ codes "flac" ∷ codes "m4a" ∷ []

abbrev archives : List Text
archives =
    codes "zip"
    ∷ codes "tar"
    ∷ codes "gz"
    ∷ codes "tgz"
    ∷ codes "bz2"
    ∷ codes "xz"
    ∷ codes "7z"
    ∷ codes "rar"
    ∷ []

abbrev texts : List Text
texts =
    codes "go"
    ∷ codes "js"
    ∷ codes "ts"
    ∷ codes "html"
    ∷ codes "css"
    ∷ codes "json"
    ∷ codes "xml"
    ∷ codes "py"
    ∷ codes "rs"
    ∷ codes "c"
    ∷ codes "h"
    ∷ codes "cpp"
    ∷ codes "sh"
    ∷ codes "md"
    ∷ codes "txt"
    ∷ codes "log"
    ∷ []

-- `Kind` of an extension in lower case.
unfoldable pub kind_of : Text → Kind
kind_of e =
    if among images e
    then image
    else if among videos e
    then video
    else if among audios e
    then audio
    else if text_eq e (codes "pdf")
    then pdf
    else if among archives e
    then archive
    else if among texts e
    then code_text
    else if among (codes "doc" ∷ codes "docx" ∷ codes "odt" ∷ codes "rtf" ∷ []) e
    then doc
    else if among (codes "xls" ∷ codes "xlsx" ∷ codes "ods" ∷ codes "csv" ∷ []) e
    then sheet
    else if among (codes "ppt" ∷ codes "pptx" ∷ codes "odp" ∷ []) e
    then slides
    else if among (codes "exe" ∷ codes "msi" ∷ []) e
    then exe
    else other_kind

-- `KindLabel`
abbrev pub kind_label : Kind → Text
kind_label image = codes "Image"
kind_label video = codes "Video"
kind_label audio = codes "Audio"
kind_label pdf = codes "PDF"
kind_label archive = codes "Zip"
kind_label code_text = codes "Text"
kind_label doc = codes "Doc"
kind_label sheet = codes "Sheet"
kind_label slides = codes "Deck"
kind_label exe = codes "App"
kind_label other_kind = codes "File"

-- `previewKind`
abbrev pub preview_kind : Kind → Bool
preview_kind image = true
preview_kind pdf = true
preview_kind video = true
preview_kind audio = true
preview_kind code_text = true
preview_kind archive = false
preview_kind doc = false
preview_kind sheet = false
preview_kind slides = false
preview_kind exe = false
preview_kind other_kind = false

abbrev shown_video : Text → Kind → Bool
shown_video e video = text_eq e (codes "mp4") || text_eq e (codes "webm")
shown_video e image = true
shown_video e audio = true
shown_video e pdf = true
shown_video e archive = true
shown_video e code_text = true
shown_video e doc = true
shown_video e sheet = true
shown_video e slides = true
shown_video e exe = true
shown_video e other_kind = true

-- `Previewable` of an extension in lower case: the tests in their order.
unfoldable pub previewable_ext : Text → Bool
previewable_ext e =
    if text_eq e (codes "svg")
    then false
    else if shown_video e (kind_of e)
    then (if text_eq e (codes "csv") then true else preview_kind (kind_of e))
    else false

-- The type that is sent where the table of `mime` has none.
abbrev pub type_of_kind : Kind → Text
type_of_kind pdf = codes "application/pdf"
type_of_kind image = codes "image/jpeg"
type_of_kind video = codes "video/mp4"
type_of_kind audio = codes "audio/mpeg"
type_of_kind archive = codes "application/octet-stream"
type_of_kind code_text = codes "application/octet-stream"
type_of_kind doc = codes "application/octet-stream"
type_of_kind sheet = codes "application/octet-stream"
type_of_kind slides = codes "application/octet-stream"
type_of_kind exe = codes "application/octet-stream"
type_of_kind other_kind = codes "application/octet-stream"

abbrev pub is_text : Kind → Bool
is_text code_text = true
is_text image = false
is_text video = false
is_text audio = false
is_text pdf = false
is_text archive = false
is_text doc = false
is_text sheet = false
is_text slides = false
is_text exe = false
is_text other_kind = false

module _ (u : Unicode) where
  -- The extension without its dot, in lower case.
  abbrev pub plain_ext : Text → Text
  plain_ext name = to_lower u (trim_prefix (ext name) (codes "."))

  -- `Kind`
  unfoldable pub kind : Text → Kind
  kind name = kind_of (plain_ext name)

  -- `Previewable`
  unfoldable pub previewable : Text → Bool
  previewable name = previewable_ext (plain_ext name)

  -- `PreviewContentType`; `types` is `mime.TypeByExtension`, whose table comes from the system.
  unfoldable pub preview_content_type : (Text → Text) → Text → Text
  preview_content_type types name =
      if equal_fold u (ext name) (codes ".csv")
      then codes "text/csv; charset=utf-8"
      else if is_text (kind name)
      then codes "text/plain; charset=utf-8"
      else if text_eq (types (ext name)) []
      then type_of_kind (kind name)
      else types (ext name)
