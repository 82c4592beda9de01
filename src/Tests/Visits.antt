-- ===== src/Tests/Visits.antt =====
-- Two visits of a guest to the library at concrete inputs.
use hubabox.Base.{ℕ, List, [], ◌∷◌, ok, err, Option, none, some, ◌*◌}
use hubabox.Text.{Text, codes, ascii}
use hubabox.World.{World, regular, second}
use hubabox.Library.{is_enabled, valid_guest}
use hubabox.Server.{get, Request, failure, library_token}
use hubabox.Server.Accounts.{Cookie, keep_cookie}
use hubabox.Server.LibraryForms.{library_file_list_seen_cookie}
use hubabox.Server.ChatForms.{library_guest_nick}
use hubabox.Server.LibraryPage.{
  Dates, LibraryPage, PageReply, page_answer, library_list, library_seen_max_age, library_get,
}
use hubabox.Tests.Paths.{cwd, paths}
use hubabox.Tests.Requests.{requests, world, ask}

visits : Unit {0}
unfolding paths requests hubabox.Library.normalize_display_nick hubabox.Chat.retention_days
    hubabox.Chat.prune_older_than hubabox.Chat.remove_all hubabox.Chat.list_recent
    hubabox.FilePath.join_path hubabox.FilePath.ext hubabox.FilePath.last_elem
    hubabox.Text.has_suffix hubabox.Text.strip hubabox.Text.trim_prefix hubabox.Text.equal_fold
    hubabox.Text.Decimal.itoa hubabox.Text.Decimal.digits hubabox.Text.Decimal.atoi
    hubabox.Text.Decimal.atoi_clamped hubabox.Text.Bytes.bytes hubabox.Text.Urls.escape
    hubabox.Text.Urls.path_escape hubabox.Text.Order.bytes_less hubabox.Text.Order.text_less
    hubabox.Base.sort_by hubabox.Base.insert_by hubabox.Files.Listing.walk
    hubabox.Files.Listing.list_entries hubabox.FileMeta.kind hubabox.FileMeta.kind_of
    hubabox.FileMeta.previewable hubabox.FileMeta.previewable_ext
    hubabox.Server.Insight.build_file_rows hubabox.Server.Insight.relative_age
    hubabox.Server.ChatForms.library_chat_rows hubabox.Server.ChatForms.library_chat_flash
    library_guest_nick hubabox.Server.LibraryPage.library_whats_new_strip library_get
visits = tt

abbrev parsed : Text → Option ℕ
parsed (a ∷ t ∷ z ∷ []) = some t
parsed _ = none

-- A format that can be read back.
abbrev dates : Dates
dates = record {
  rfc3339_nano = λ t. b'A' ∷ t ∷ b'Z' ∷ [];
  parse_nano = parsed;
  visit_time = λ t. codes "then";
  day = λ t. codes "once";
  chat_time = λ t. codes "then";
}

abbrev no_link : Text → ℕ × ℕ
no_link path = (0, 0)

abbrev guest : Text → Text → Request
guest nick seen = record (ask get (codes "/library") [] []) {
  cookies =
      (codes "hubabox_library", codes "00abcdef")
      ∷ (codes "hubabox_library_nick", nick)
      ∷ (codes "hubabox_library_seen", seen)
      ∷ [];
}

abbrev anna : Text
anna = codes "Anna"

-- A file that is there at the first visit, and one that comes afterwards.
abbrev first : World
first = record world { disk = (codes "/srv/hub/f/old", regular [] 3) ∷ [] }

abbrev second_visit : World
second_visit = record first {
  disk =
      (codes "/srv/hub/f/old", regular [] 3)
      ∷ (codes "/srv/hub/f/new", regular [] (6 * second))
      ∷ [];
  now = 7 * second;
}

abbrev value : Text
value = b'A' ∷ 5 * second ∷ b'Z' ∷ []

abbrev none_shown : LibraryPage
none_shown = record { files = []; nick = []; messages = []; flash = []; strip = [] }

abbrev shown_by : PageReply → LibraryPage
shown_by (page_answer a) = none_shown
shown_by (library_list p) = p

abbrev visit : Text → World → (PageReply × List Cookie) × World
visit seen w =
    library_get ascii no_link cwd (codes "f") (codes "/d") dates [] [] (guest anna seen) w

abbrev page_one : LibraryPage
page_one = shown_by (visit [] first).0.0

abbrev page_two : LibraryPage
page_two = shown_by (visit value second_visit).0.0

abbrev set_at : ℕ → List Cookie
set_at t =
    keep_cookie library_file_list_seen_cookie (dates.rfc3339_nano t) library_seen_max_age ∷ []
