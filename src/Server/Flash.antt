-- ===== src/Server/Flash.antt =====
-- The messages of the file page: `filesListFlash`, `uploadFlashMessage`, `flashMessage` and
-- `urlScheme` of hubabox-proj/internal/server/server.go, on the query that a redirect carries.
use hubabox.Base.{
  ℕ, Bool, true, not, ◌&&◌, ◌||◌, List, [], ◌∷◌, ◌++◌, ◌==◌, map, if◌then◌else◌, Result, ok, err,
  Option, none, some,
}
use hubabox.Text.{Text, codes, text_eq, contains_rune}
use hubabox.Text.Assoc.{find_or}
use hubabox.Text.Split.{split, cut}
use hubabox.Text.Urls.{path_unescape}
use hubabox.Voice.{switch}

abbrev plus_to_space : ℕ → ℕ
plus_to_space c = if c == b'+' then b' ' else c

-- `url.QueryUnescape`
unfoldable pub query_unescape : Text → Result Text
query_unescape s = path_unescape (map plus_to_space s)

abbrev pair_of : Result Text → Result Text → List (Text × Text)
pair_of (ok key) (ok value) = (key, value) ∷ []
pair_of (ok key) (err e) = []
pair_of (err e) r = []

abbrev halves : Text → Option (Text × Text) → List (Text × Text)
halves part none = pair_of (query_unescape part) (ok [])
halves part (some (key, value)) = pair_of (query_unescape key) (query_unescape value)

-- `url.ParseQuery`, which leaves out what it cannot read.
unfoldable pub query_pairs : List Text → List (Text × Text)
query_pairs [] = []
query_pairs (part ∷ parts) =
    if text_eq part [] || contains_rune part b';'
    then query_pairs parts
    else halves part (cut part b'=') ++ query_pairs parts

-- `r.URL.Query()`, with `Get` as a look-up.
abbrev pub Query : Type 0
Query = List (Text × Text)

unfoldable pub parse_query : Text → Query
parse_query s = query_pairs (split s b'&')

abbrev pub get_value : Text → Query → Text
get_value key q = find_or [] key q

abbrev or_text : Text → Text → Text
or_text [] d = d
or_text (c ∷ s) d = c ∷ s

-- `why`, or what stands for it.
abbrev pub why_or : Text → Query → Text
why_or d q = or_text (get_value (codes "why") q) d

abbrev unknown : Query → Text
unknown q = why_or (codes "unknown error") q

-- `flashMessage`
unfoldable pub flash_message : Text → Text
flash_message code = switch (
    (text_eq code (codes "uploaded"), codes "File uploaded.")
    ∷ (
      text_eq code (codes "upload+failed"),
      codes "Upload failed (name invalid or file too large).",
    )
    ∷ (text_eq code (codes "upload+missing"), codes "Choose a file to upload.")
    ∷ (text_eq code (codes "upload+noname"), codes "Upload had no filename.")
    ∷ (text_eq code (codes "upload+badform"), codes "Invalid upload form.")
    ∷ (text_eq code (codes "deleted"), codes "File deleted.")
    ∷ (text_eq code (codes "delete+failed"), codes "Could not delete file.")
    ∷ (text_eq code (codes "delete+badform"), codes "Invalid delete request.")
    ∷ (
      text_eq code (codes "library_on"),
      codes
          "Public library is on. Guests use the code or invite link; chat is trimmed by age (see retention below) and cleared when you disable the library.",
    )
    ∷ (
      text_eq code (codes "library_off"),
      codes "Public library is off. Guest codes and all chat (including voice clips) were removed.",
    )
    ∷ (text_eq code (codes "library_err"), codes "Library setting could not be updated.")
    ∷ [])

-- The message on a count that the query may carry.
abbrev count_message : Text → Text → Text → Text
count_message verb n done =
    if text_eq n []
    then done
    else if text_eq n (codes "1")
    then verb ++ codes " 1 file."
    else verb ++ codes " " ++ n ++ codes " files."

-- `uploadFlashMessage`
unfoldable pub upload_flash_message : Query → Text
upload_flash_message q =
    let code = get_value (codes "msg") q in
    let n = get_value (codes "n") q in
    if text_eq code (codes "uploaded")
    then count_message (codes "Uploaded") n (codes "File uploaded.")
    else if text_eq code (codes "upload_partial")
    then codes "Saved "
      ++ get_value (codes "ok") q
      ++ codes " file(s); "
      ++ get_value (codes "fail") q
      ++ codes " could not be saved (name, size limit, or disk)."
    else if text_eq code (codes "deleted")
    then count_message (codes "Deleted") n (codes "File deleted.")
    else flash_message code

-- The cases of `filesListFlash`.
abbrev pub list_cases : Text → Query → List (Bool × Text)
list_cases code q =
    (
      text_eq code (codes "import_ok"),
      codes "Import: copied "
          ++ get_value (codes "in") q
          ++ codes " file(s); skipped "
          ++ get_value (codes "sk") q
          ++ codes " (folders, hidden, junk, too large, or errors).",
    )
    ∷ (text_eq code (codes "import_err"), codes "Import failed: " ++ unknown q)
    ∷ (
      text_eq code (codes "import_cfg_ok"),
      if text_eq (get_value (codes "cleared") q) (codes "1")
          then codes "Import folder cleared. Watching is off until you set a path again."
          else codes "Import folder saved. The watcher has been restarted with the new path.",
    )
    ∷ (text_eq code (codes "import_cfg_err"), codes "Could not save import folder: " ++ unknown q)
    ∷ (
      text_eq code (codes "import_pick_ok"),
      codes "Imported "
          ++ get_value (codes "in") q
          ++ codes " selected file(s); skipped "
          ++ get_value (codes "sk") q
          ++ codes ".",
    )
    ∷ (text_eq code (codes "import_pick_err"), codes "Could not import selection: " ++ unknown q)
    ∷ (
      text_eq code (codes "import_auto_on"),
      codes
          "Auto-copy is on: new files in the watch folder are copied automatically. The watcher has been restarted.",
    )
    ∷ (
      text_eq code (codes "import_auto_off"),
      codes
          "Auto-copy is off: use the list below to import only what you need (or import the whole folder). The watcher has been restarted.",
    )
    ∷ (text_eq code (codes "import_auto_err"), codes "Could not update auto-copy: " ++ unknown q)
    ∷ (
      text_eq code (codes "lanshare_on"),
      codes "LAN file share is active. Guests can open the UNC paths shown below.",
    )
    ∷ (
      text_eq code (codes "lanshare_pending"),
      codes "LAN share requested but not fully active: "
          ++ why_or (codes "see helper scripts on this page") q,
    )
    ∷ (
      text_eq code (codes "lanshare_off"),
      codes
          "LAN file share disabled (removed from hub settings; check OS if a share still exists).",
    )
    ∷ (text_eq code (codes "lanshare_err"), codes "LAN share: " ++ unknown q)
    ∷ (
      text_eq code (codes "chat_retention_ok"),
      codes "Chat retention updated. Messages older than that window were removed.",
    )
    ∷ (
      text_eq code (codes "chat_retention_err"),
      codes "Enter retention as a whole number of days (1–365).",
    )
    ∷ (
      text_eq code (codes "delete_partial"),
      codes "Removed "
          ++ get_value (codes "ok") q
          ++ codes " file(s); "
          ++ get_value (codes "fail") q
          ++ codes " could not be deleted.",
    )
    ∷ (text_eq code (codes "delete+none"), codes "Select at least one file to delete.")
    ∷ (true, upload_flash_message q)
    ∷ []

-- `filesListFlash`
unfoldable pub files_list_flash : Query → Text
files_list_flash q = switch (list_cases (get_value (codes "msg") q) q)

-- `urlScheme`, on the files of the certificate and of its key.
abbrev pub url_scheme : Text → Text → Text
url_scheme cert key =
    if not (text_eq cert []) && not (text_eq key []) then codes "https" else codes "http"

-- `transportWarning`
unfoldable pub transport_warning : Text → Text → Text
transport_warning cert key =
    if text_eq (url_scheme cert key) (codes "https")
    then codes
        "HTTPS is enabled. Browsers may ask guests to trust the certificate before microphone recording is available."
    else codes
        "This hub uses HTTP on the local network. Do not use it on public or untrusted Wi-Fi; passwords and library codes are not encrypted in transit. Voice recording requires HTTPS (uploaded clips still work)."
