-- ===== src/Server/LibraryPage/Visits.antt =====
-- What a guest's page shows, and what it marks as new at the next visit.
use mathlib.Core.List.{Perm}
use hubabox.Base.{ℕ, true, false, List, [], ◌∷◌, ◌≡◌, map, Result, ok, Option, some, IsSortedBy}
use hubabox.Text.{Text, Unicode, text_eq, trim_space}
use hubabox.FilePath.{abs}
use hubabox.World.{World}
use hubabox.Files.Listing.{FileEntry, newer, walk}
use hubabox.Library.{is_enabled, valid_guest}
use hubabox.Server.{Request, library_token}
use hubabox.Server.Accounts.{Cookie}
use hubabox.Server.Insight.{FileRow, is_after}
use hubabox.Server.ChatForms.{library_guest_nick}
use hubabox.Server.LibraryPage.{Dates, LibraryPage, library_file_list_seen_at, seen_cookie, trimmed}

-- What the code relies on of the dates: a time that is written can be read.
pub record DatesLaws (dates : Dates) : Type 0 where
  pub parse : (t : ℕ) → dates.parse_nano (dates.rfc3339_nano t) ≡ some t
  pub written : (t : ℕ) → text_eq (trim_space (dates.rfc3339_nano t)) [] ≡ false

-- The rows of a listing, with the files that changed after a time marked.
abbrev pub IsMarked : Option ℕ → List FileEntry → List FileRow → Type 0
IsMarked since entries rows =
    (map (λ row. row.name) rows ≡ map (λ e. e.name) entries)
    × (map (λ row. row.is_new) rows ≡ map (λ e. is_after e.mod_time since) entries)

module _ (u : Unicode) (links : Text → ℕ × ℕ) (cwd : Result Text) (files_dir data_dir : Text)
    (dates : Dates) where
  -- What the page shows of the files in a state: all those of the folder, in their order, the changed
  -- ones marked.
  abbrev pub Shows : Option ℕ → World → LibraryPage → Type 0
  Shows since w p =
      (root : Text) × (abs cwd files_dir ≡ ok root)
      × (entries : List FileEntry) × IsSortedBy newer entries
      × Perm entries (walk links root w.disk)
      × IsMarked since entries p.files

  -- A page that lists the files is one for a guest with a name and a valid code.
  abbrev pub IsGuestPage : Request → World → LibraryPage → List Cookie → Type 0
  IsGuestPage req w p cookies =
      (text_eq (library_guest_nick u req) [] ≡ false)
      × (p.nick ≡ library_guest_nick u req)
      × ((valid_guest u (library_token req) (is_enabled w).1).0 ≡ ok true)
      × Shows (library_file_list_seen_at dates req)
          (trimmed u links cwd files_dir data_dir dates
            (valid_guest u (library_token req) (is_enabled w).1).1)
          p
      × (cookies ≡ seen_cookie dates w.now ∷ [])
