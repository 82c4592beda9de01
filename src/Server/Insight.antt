-- ===== src/Server/Insight.antt =====
-- Rows of the file lists and the details of one file: hubabox-proj/internal/server/filelist.go and
-- file_insight.go, with `HumanSize` and `RelativeAge` of
-- hubabox-proj/internal/filemeta/filemeta.go.
use hubabox.Base.{
  ℕ, ◌-◌, ◌*◌, ◌/◌, Bool, true, false, ◌&&◌, ◌||◌, List, [], ◌∷◌, ◌++◌, take, length, ltb, ◌==◌,
  if◌then◌else◌, Result, ok, err, Option, none, some,
}
use hubabox.Text.{Text, Unicode, codes, text_eq, has_prefix, contains, to_lower, trim_prefix}
use hubabox.Text.Decimal.{itoa}
use hubabox.Text.Sizes.{size_text}
use hubabox.Text.Urls.{path_escape, path_unescape}
use hubabox.FilePath.{ext}
use hubabox.World.{World, query, second}
use hubabox.Files.Listing.{FileEntry}
use hubabox.Upload.{Opened, open_read}
use hubabox.FileMeta.{
  Kind, image, video, audio, pdf, archive, code_text, doc, sheet, slides, exe, other_kind, kind,
  kind_label, previewable,
}
use hubabox.Server.{Answer, failure, internal_error}
use hubabox.Server.Downloads.{raw_name, read_error}

-- `HumanSize`
abbrev pub human_size : ℕ → Text
human_size n = size_text (codes " B") (codes " KB") (codes " MB") (codes " GB") n

abbrev minute : ℕ
minute = 60 * second

abbrev hour : ℕ
hour = 60 * minute

abbrev some_ago : ℕ → Text → Text → Text
some_ago n one many = if n == 1 then one else itoa n ++ many

-- `RelativeAge`, over the format of a day, on times in nanoseconds.
unfoldable pub relative_age : (ℕ → Text) → ℕ → ℕ → Text
relative_age day modified now =
    let d = now - modified in
    if ltb d minute
    then codes "just now"
    else if ltb d hour
    then some_ago (d / minute) (codes "1 min ago") (codes " min ago")
    else if ltb d (24 * hour)
    then some_ago (d / hour) (codes "1 hour ago") (codes " hours ago")
    else if ltb d (48 * hour)
    then codes "yesterday"
    else if ltb d (7 * 24 * hour)
    then itoa (d / (24 * hour)) ++ codes " days ago"
    else day modified

-- `fileRow`
pub record FileRow : Type 0 where
  pub name : Text
  pub url : Text
  pub preview_url : Text
  pub insight_url : Text
  pub kind : Kind
  pub label : Text
  pub size_human : Text
  pub age : Text
  pub is_new : Bool
  pub browser_preview_unavailable : Bool

abbrev is_video : Kind → Bool
is_video video = true
is_video _ = false

abbrev pub is_after : ℕ → Option ℕ → Bool
is_after at none = false
is_after at (some since) = ltb since at

-- `fileInsightSniffLen`
abbrev file_insight_sniff_len : ℕ
file_insight_sniff_len = 512

-- `insightSniffNote`, on the type in lower case.
abbrev unknown_type : Text → Bool
unknown_type s = text_eq s (codes "application/octet-stream")

abbrev note_of : Kind → Text → Text
note_of image s =
    if has_prefix s (codes "image/") || unknown_type s
    then []
    else codes
        "The beginning of this file does not look like a typical image; the name may not match the contents."
note_of pdf s =
    if contains s (codes "pdf") || unknown_type s
    then []
    else codes
        "The beginning of this file does not look like a typical PDF; it may be encrypted, corrupt, or misnamed."
note_of video s =
    if has_prefix s (codes "video/") || has_prefix s (codes "audio/") || unknown_type s
    then []
    else codes
        "The beginning of this file does not match a common video container; verify the file or try download and open locally."
note_of audio s =
    if has_prefix s (codes "audio/") || has_prefix s (codes "video/") || unknown_type s
    then []
    else codes
        "The beginning of this file does not look like a typical audio clip; verify the file or try download and open locally."
note_of archive s =
    if contains s (codes "zip")
      || contains s (codes "gzip")
      || contains s (codes "x-tar")
      || contains s (codes "x-bzip2")
      || contains s (codes "x-xz")
      || unknown_type s
    then []
    else codes
        "Magic bytes do not match common archive signatures; the file may use a rare format or be misnamed."
note_of _ s = []

-- `fileInsightBlurb`
abbrev file_insight_blurb : Kind → Text
file_insight_blurb image =
    codes
      "Raster or vector image. Use in-browser preview when available, or download and open in any image viewer. SVG is not previewed inline here for security on shared hubs."
file_insight_blurb pdf =
    codes
      "Portable Document Format. Safe inline preview is offered when the hub classifies it as a PDF; download for full features (forms, printing, accessibility tools)."
file_insight_blurb video =
    codes
      "Video container. Preview uses the browser's built-in player when the format is supported; otherwise download and use VLC or another local player."
file_insight_blurb audio =
    codes
      "Audio file. Preview uses the browser's audio element when supported; download for editing or offline playback."
file_insight_blurb archive =
    codes
      "Compressed or packaged files (zip, tar, etc.). The hub does not unpack them in the browser; download and extract on your device."
file_insight_blurb doc =
    codes
      "Office-style document. Browsers cannot reliably edit or fully render these here; download and open in Microsoft Office, LibreOffice, or a compatible app."
file_insight_blurb sheet =
    codes
      "Office-style document. Browsers cannot reliably edit or fully render these here; download and open in Microsoft Office, LibreOffice, or a compatible app."
file_insight_blurb slides =
    codes
      "Office-style document. Browsers cannot reliably edit or fully render these here; download and open in Microsoft Office, LibreOffice, or a compatible app."
file_insight_blurb code_text =
    codes
      "Plain text or source-like file. Inline preview is shown as plain text (never as executable HTML). Download for your editor or toolchain."
file_insight_blurb exe =
    codes
      "Windows executable or installer. The hub never runs this file; it only describes metadata. Only run software you trust from known sources."
file_insight_blurb other_kind =
    codes
      "Uncommon or generic file type from the name alone. Use the detected type above and download to inspect with a suitable local application."

-- `FileInsightData`; the time is in nanoseconds.
pub record FileInsight : Type 0 where
  pub name : Text
  pub size_human : Text
  pub mod_time : ℕ
  pub extension : Text
  pub kind : Kind
  pub label : Text
  pub sniffed_mime : Text
  pub sniff_note : Text
  pub blurb : Text
  pub can_preview : Bool
  pub preview_url : Text
  pub download_url : Text

pub data InsightReply : Type 0 where
  insight_answer : Answer → InsightReply
  insight : FileInsight → InsightReply

module _ (u : Unicode) where
  abbrev row_of : Text → Text → Text → (ℕ → Text) → Option ℕ → ℕ → FileEntry → FileRow
  row_of download preview details day since now e =
      let preview_url = if previewable u e.name then preview ++ path_escape e.name else [] in
      record {
        name = e.name;
        url = download ++ path_escape e.name;
        preview_url = preview_url;
        insight_url = details ++ path_escape e.name;
        kind = kind u e.name;
        label = kind_label (kind u e.name);
        size_human = human_size e.size;
        age = relative_age day e.mod_time now;
        is_new = is_after e.mod_time since;
        browser_preview_unavailable = is_video (kind u e.name) && text_eq preview_url [];
      }

  -- `buildFileRowsFromEntries`
  unfoldable pub build_file_rows :
      Text → Text → Text → (ℕ → Text) → Option ℕ → ℕ → List FileEntry → List FileRow
  build_file_rows download preview details day since now [] = []
  build_file_rows download preview details day since now (e ∷ es) =
      row_of download preview details day since now e
      ∷ build_file_rows download preview details day since now es

  -- `insightSniffNote`
  unfoldable pub insight_sniff_note : Kind → Text → ℕ → Text
  insight_sniff_note k sniffed n = if n == 0 then [] else note_of k (to_lower u sniffed)

  -- `http.DetectContentType` is an argument.
  module _ (cwd : Result Text) (files_dir : Text) (detect : List ℕ → Text) where
    abbrev sniffed_type : List ℕ → Text
    sniffed_type [] = codes "(empty file)"
    sniffed_type (b ∷ bs) = detect (take file_insight_sniff_len (b ∷ bs))

    abbrev prefixed : Bool → Text → Text → Text
    prefixed from_library library files = if from_library then library else files

    abbrev details : Bool → Opened → FileInsight
    details from_library f =
        let k = kind u f.name in
        let sniffed = sniffed_type f.bytes in
        record {
          name = f.name;
          size_human = human_size (length f.bytes);
          mod_time = f.mod_time;
          extension = trim_prefix (to_lower u (ext f.name)) (codes ".");
          kind = k;
          label = kind_label k;
          sniffed_mime = sniffed;
          sniff_note = insight_sniff_note k sniffed (length (take file_insight_sniff_len f.bytes));
          blurb = file_insight_blurb k;
          can_preview = previewable u f.name;
          preview_url =
              if previewable u f.name
              then prefixed from_library (codes "/library/preview/") (codes "/files/preview/")
                ++ path_escape f.name
              else [];
          download_url =
              prefixed from_library (codes "/library/download/") (codes "/files/download/")
              ++ path_escape f.name;
        }

    abbrev stated : Bool → Opened → Result (Unit {0}) → InsightReply
    stated from_library f (err e) = insight_answer internal_error
    stated from_library f (ok _) = insight (details from_library f)

    abbrev insight_opened : Bool → Result Opened → World → InsightReply × World
    insight_opened from_library (err e) w = (insight_answer (read_error e), w)
    insight_opened from_library (ok f) w =
        let (r, w') = query (λ v. ok tt) w in (stated from_library f r, w')

    abbrev insight_name : Bool → Result Text → World → InsightReply × World
    insight_name from_library (err e) w = (insight_answer (failure 400), w)
    insight_name from_library (ok name) w =
        let (r, w') = open_read cwd files_dir name w in insight_opened from_library r w'

    -- `serveFileInsightFragment`
    unfoldable pub serve_file_insight_fragment : Bool → Text → World → InsightReply × World
    serve_file_insight_fragment from_library param w =
        if text_eq (raw_name param) []
        then (insight_answer (failure 404), w)
        else insight_name from_library (path_unescape (raw_name param)) w
