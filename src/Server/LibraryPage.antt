-- ===== src/Server/LibraryPage.antt =====
-- The page of the library: `libraryGet` and `libraryWhatsNewStrip` of
-- hubabox-proj/internal/server/library_handlers.go, with the cookie of the last visit of
-- middleware.go.
pub mod Visits
use hubabox.Base.{
  ℕ, zero, suc, ◌*◌, Bool, true, false, List, [], ◌∷◌, ◌++◌, if◌then◌else◌, Result, ok, err, Option,
  none, some,
}
use hubabox.Text.{Text, Unicode, codes, text_eq, trim_space}
use hubabox.Text.Assoc.{find}
use hubabox.Text.Decimal.{itoa}
use hubabox.World.{World}
use hubabox.Files.Listing.{FileEntry, list_entries}
use hubabox.Library.{is_enabled, valid_guest}
use hubabox.Chat.{retention_days, prune_older_than}
use hubabox.Server.{Request, Answer, failure, page, internal_error, library_token}
use hubabox.Server.Accounts.{Cookie, keep_cookie}
use hubabox.Server.LibraryForms.{library_file_list_seen_cookie}
use hubabox.Server.Insight.{FileRow, build_file_rows}
use hubabox.Server.ChatForms.{ChatMsg, library_guest_nick, library_chat_rows, library_chat_flash}

-- The dates of the language's library: the format of the cookie in nanoseconds and its parser, the
-- time of a visit, the day of a file, and the time of a message in Unix seconds.
pub record Dates : Type 0 where
  pub rfc3339_nano : ℕ → Text
  pub parse_nano : Text → Option ℕ
  pub visit_time : ℕ → Text
  pub day : ℕ → Text
  pub chat_time : ℕ → Text

abbrev pub library_seen_max_age : ℕ
library_seen_max_age = 400 * 24 * 3600

abbrev seen_value : Dates → Option Text → Option ℕ
seen_value dates none = none
seen_value dates (some value) =
    if text_eq (trim_space value) [] then none else dates.parse_nano value

-- `libraryFileListSeenAt`
abbrev pub library_file_list_seen_at : Dates → Request → Option ℕ
library_file_list_seen_at dates req =
    seen_value dates (find library_file_list_seen_cookie req.cookies)

-- `setLibraryFileListSeenCookie`
abbrev pub seen_cookie : Dates → ℕ → Cookie
seen_cookie dates at =
    keep_cookie library_file_list_seen_cookie (dates.rfc3339_nano at) library_seen_max_age

abbrev pub count_new : List FileRow → ℕ
count_new [] = 0
count_new (row ∷ rows) = if row.is_new then suc (count_new rows) else count_new rows

abbrev since_visit : Text → ℕ → Text
since_visit ts zero =
    codes "No files changed since your last visit ("
    ++ ts
    ++ codes "). Newest files stay at the top."
since_visit ts (suc zero) =
    codes "1 file changed since your last visit (" ++ ts ++ codes "); it is highlighted below."
since_visit ts (suc (suc n)) =
    itoa (suc (suc n))
    ++ codes " files changed since your last visit ("
    ++ ts
    ++ codes "); they are highlighted below."

-- `libraryWhatsNewStrip`
unfoldable pub library_whats_new_strip : Dates → Option ℕ → ℕ → Text
library_whats_new_strip dates none new_count =
    codes
      "Showing the most recently changed files first. Next time you open the library, files that changed since this visit will be highlighted."
library_whats_new_strip dates (some last_seen) new_count =
    since_visit (dates.visit_time last_seen) new_count

-- What the page of a guest shows.
pub record LibraryPage : Type 0 where
  pub files : List FileRow
  pub nick : Text
  pub messages : List ChatMsg
  pub flash : Text
  pub strip : Text

pub data PageReply : Type 0 where
  page_answer : Answer → PageReply
  library_list : LibraryPage → PageReply

abbrev pub PageResponse : Type 0
PageResponse = PageReply × List Cookie

abbrev just : Answer → PageResponse
just a = (page_answer a, [])

module _ (u : Unicode) (links : Text → ℕ × ℕ) (cwd : Result Text) (files_dir data_dir : Text)
    (dates : Dates) where
  abbrev pub rows_of : Option ℕ → ℕ → List FileEntry → List FileRow
  rows_of since now entries =
      build_file_rows u (codes "/library/download/") (codes "/library/preview/")
        (codes "/library/insight/fragment/") dates.day since now entries

  -- The cookie is set before the messages are read.
  abbrev pub with_chat :
      Text → Text → Option ℕ → ℕ → List FileRow → Result (List ChatMsg) → PageResponse
  with_chat chat_err nick since now rows (err e) =
      (page_answer internal_error, seen_cookie dates now ∷ [])
  with_chat chat_err nick since now rows (ok msgs) = (
    library_list (record {
      files = rows;
      nick = nick;
      messages = msgs;
      flash = library_chat_flash chat_err;
      strip = library_whats_new_strip dates since (count_new rows);
    }),
    seen_cookie dates now ∷ [],
  )

  abbrev pub with_files :
      Text → Text → Option ℕ → ℕ → Result (List FileEntry) → World → PageResponse × World
  with_files chat_err nick since now (err e) w = (just internal_error, w)
  with_files chat_err nick since now (ok entries) w =
      let (msgs, w') = library_chat_rows u dates.chat_time w in
      (with_chat chat_err nick since now (rows_of since now entries) msgs, w')

  -- The state after the messages that are too old have gone; an error of that is only logged.
  abbrev pub trimmed : World → World
  trimmed w = let (days, w') = retention_days w in (prune_older_than cwd data_dir days w').1

  abbrev pub guest_page : Text → Text → Option ℕ → ℕ → World → PageResponse × World
  guest_page chat_err nick since now w =
      let (r, w') = list_entries links cwd files_dir (trimmed w) in
      with_files chat_err nick since now r w'

  abbrev pub page_of : Text → Text → Request → ℕ → Result Bool → World → PageResponse × World
  page_of err_text chat_err req now (err e) w = (just internal_error, w)
  page_of err_text chat_err req now (ok false) w =
      (just (page (codes "library_unlock") err_text), w)
  page_of err_text chat_err req now (ok true) w =
      let nick = library_guest_nick u req in
      let shown = guest_page chat_err nick (library_file_list_seen_at dates req) now w in
      if text_eq nick [] then (just (page (codes "library_pick_nick") err_text), w) else shown

  abbrev pub page_if_on : Text → Text → Request → ℕ → Result Bool → World → PageResponse × World
  page_if_on err_text chat_err req now (err e) w = (just internal_error, w)
  page_if_on err_text chat_err req now (ok false) w = (just (failure 404), w)
  page_if_on err_text chat_err req now (ok true) w =
      let (r, w') = valid_guest u (library_token req) w in page_of err_text chat_err req now r w'

  -- `libraryGet`; the arguments are "err" and "chat_err" of the query.
  unfoldable pub library_get : Text → Text → Request → World → PageResponse × World
  library_get err_text chat_err req w =
      let (r, w') = is_enabled w in page_if_on err_text chat_err req w.now r w'
