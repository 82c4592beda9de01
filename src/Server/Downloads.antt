-- ===== src/Server/Downloads.antt =====
-- What is served of the hub's files: `downloadNamedFile` and `previewNamedFile` of
-- hubabox-proj/internal/server/library_handlers.go.
pub mod Stored
pub mod Linked
use hubabox.Base.{
  ℕ, Bool, true, false, List, [], ◌∷◌, Result, ok, err, Error, not_exist, invalid_name,
  if◌then◌else◌,
}
use hubabox.Text.{Text, Unicode, codes, text_eq, trim_prefix}
use hubabox.Text.Urls.{path_unescape}
use hubabox.FilePath.{slash, last_elem}
use hubabox.Files.{trim_slashes}
use hubabox.World.{World, query, attempt}
use hubabox.Upload.{Opened, open_read}
use hubabox.FileMeta.{previewable, preview_content_type}
use hubabox.Server.{Answer, failure, internal_error}

-- The headers and the body of a file: its content type, its disposition and the name in it.
pub record Served : Type 0 where
  pub content_type : Text
  pub disposition : Text
  pub leaf : Text
  pub body : List ℕ

pub data Reply : Type 0 where
  answered : Answer → Reply
  served : Served → Reply

-- The parameter of the route, without slashes at its ends.
abbrev pub raw_name : Text → Text
raw_name param = trim_slashes (trim_prefix param (slash ∷ []))

abbrev pub or_default : Text → Text → Text
or_default [] d = d
or_default (c ∷ s) d = c ∷ s

-- The errors of `OpenRead`.
abbrev pub read_error : Error → Answer
read_error not_exist = failure 404
read_error _ = failure 400

abbrev pub attachment : Opened → Served
attachment f = record {
  content_type = codes "application/octet-stream";
  disposition = codes "attachment";
  leaf = or_default (last_elem f.name) (codes "download");
  body = f.bytes;
}

module _ (cwd : Result Text) (files_dir : Text) where
  abbrev pub downloaded : Result Opened → Reply
  downloaded (err e) = answered (read_error e)
  downloaded (ok f) = served (attachment f)

  abbrev pub download_name : Result Text → World → Reply × World
  download_name (err e) w = (answered (failure 400), w)
  download_name (ok name) w = let (r, w') = open_read cwd files_dir name w in (downloaded r, w')

  -- `downloadNamedFile`; the argument is the URL parameter "*".
  unfoldable pub download_named_file : Text → World → Reply × World
  download_named_file param w =
      if text_eq (raw_name param) []
      then (answered (failure 404), w)
      else download_name (path_unescape (raw_name param)) w

  -- The types that the system's table gives to extensions are an argument.
  module _ (u : Unicode) (types : Text → Text) where
    abbrev pub inline : Opened → Served
    inline f = record {
      content_type = preview_content_type u types f.name;
      disposition = codes "inline";
      leaf = or_default (last_elem f.name) (codes "preview");
      body = f.bytes;
    }

    -- `f.Stat()` and what follows.
    abbrev pub stated : Opened → Result (Unit {0}) → Reply
    stated f (err e) = answered internal_error
    stated f (ok _) = served (inline f)

    abbrev pub previewed : Result Opened → World → Reply × World
    previewed (err e) w = (answered (read_error e), w)
    previewed (ok f) w = let (r, w') = query (λ v. ok tt) w in (stated f r, w')

    abbrev pub preview_name : Result Text → World → Reply × World
    preview_name (err e) w = (answered (failure 400), w)
    preview_name (ok name) w =
        let (r, w') = open_read cwd files_dir name w in
        if previewable u name then previewed r w' else (answered (failure 404), w)

    -- `previewNamedFile`
    unfoldable pub preview_named_file : Text → World → Reply × World
    preview_named_file param w =
        if text_eq (raw_name param) []
        then (answered (failure 404), w)
        else preview_name (path_unescape (raw_name param)) w
