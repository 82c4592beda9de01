-- ===== src/Server/LibraryForms.antt =====
-- The forms and links that switch the library and let guests in: `libraryEnablePost`,
-- `libraryDisablePost`, `libraryJoinGet`, `libraryUnlock`, `libraryLogout` and
-- `filesLibraryChatRetentionPost` of hubabox-proj/internal/server/library_handlers.go.
pub mod Laws
use hubabox.Base.{
  ℕ, ◌*◌, Bool, true, false, not, List, [], ◌∷◌, if◌then◌else◌, Result, ok, err, ◌==◌, Option, none,
  some,
}
use hubabox.Text.{Text, Unicode, codes, text_eq, trim_space}
use hubabox.Text.Decimal.{atoi_clamped}
use hubabox.World.{World, Act, continue, ◌>>=◌, ◌>>◌, return, attempt}
use hubabox.Library.{is_enabled, enable, disable, match_library_code, normalize_display_nick}
use hubabox.Chat.{clear_all, set_retention_days, retention_days, prune_older_than}
use hubabox.Server.{Request, Answer, redirect, failure, library_cookie, form_value}
use hubabox.Server.Accounts.{Cookie, keep_cookie, clear_cookie, Response, plain, respond}

abbrev pub library_nick_cookie : Text
library_nick_cookie = codes "hubabox_library_nick"

abbrev pub library_file_list_seen_cookie : Text
library_file_list_seen_cookie = codes "hubabox_library_seen"

abbrev pub library_max_age : ℕ
library_max_age = 30 * 24 * 3600

-- `clearLibraryGuestCookies`
abbrev pub clear_library_guest_cookies : List Cookie
clear_library_guest_cookies =
    clear_cookie library_cookie
    ∷ clear_cookie library_nick_cookie
    ∷ clear_cookie library_file_list_seen_cookie
    ∷ []

abbrev enabled : Result Text → Response
enabled (err e) = plain (redirect (codes "/files?msg=library_err"))
enabled (ok token) = plain (redirect (codes "/files?msg=library_on"))

-- `libraryEnablePost`
unfoldable pub library_enable_post : Result (List ℕ) → World → Response × World
library_enable_post random w = let (r, w') = enable random w in (enabled r, w')

-- `libraryDisablePost` behind `Disable`; an error of `ClearAll` is only logged.
abbrev disabled : Result Text → Text → Result (Unit {0}) → World → Response × World
disabled cwd data_dir (err e) w = (plain (redirect (codes "/files?msg=library_err")), w)
disabled cwd data_dir (ok _) w =
    let (r, w') = clear_all cwd data_dir w in
    ((redirect (codes "/files?msg=library_off"), clear_library_guest_cookies), w')

-- `libraryDisablePost`
unfoldable pub library_disable_post : Result Text → Text → World → Response × World
library_disable_post cwd data_dir w = let (r, w') = disable w in disabled cwd data_dir r w'

-- `libraryLogout`
abbrev pub library_logout : Response
library_logout = (redirect (codes "/library"), clear_library_guest_cookies)

module _ (u : Unicode) where
  abbrev joined : Text × Bool → Response
  joined (full, granted) =
      if granted
      then (
        redirect (codes "/library"),
        clear_cookie library_nick_cookie ∷ keep_cookie library_cookie full library_max_age ∷ [],
      )
      else plain (redirect (codes "/library?err=badtoken"))

  abbrev join_code : Text → Act Response
  join_code k =
      if text_eq k []
      then return (plain (redirect (codes "/library?err=missing")))
      else (do m ← match_library_code u k; return (joined m))

  -- `libraryJoinGet`; the argument is the value of "k" in the query.
  unfoldable pub library_join_get : Text → World → Response × World
  library_join_get k w = respond (
      (do
        is_on ← is_enabled
        if is_on then join_code (trim_space k) else return (plain (failure 404)))
        w)

  abbrev pub named : Text → Result Text → Response
  named full (err e) = plain (redirect (codes "/library?err=badnick"))
  named full (ok nick) = (
    redirect (codes "/library"),
    keep_cookie library_cookie full library_max_age
        ∷ keep_cookie library_nick_cookie nick library_max_age
        ∷ [],
  )

  -- An error of `MatchLibraryCode` is answered as a wrong code is.
  abbrev pub unlocked : Text → Result (Text × Bool) → Response
  unlocked display (err e) = plain (redirect (codes "/library?err=badtoken"))
  unlocked display (ok (full, false)) = plain (redirect (codes "/library?err=badtoken"))
  unlocked display (ok (full, true)) = named full (normalize_display_nick u display)

  abbrev pub unlock_form : Result (List (Text × Text)) → Act Response
  unlock_form (err e) = return (plain (redirect (codes "/library?err=badform")))
  unlock_form (ok form) = do
    r ← attempt (match_library_code u (trim_space (form_value (codes "token") form)))
    return (unlocked (trim_space (form_value (codes "display_name") form)) r)

  abbrev pub unlock : Request → Bool → Act Response
  unlock req is_on = if is_on then unlock_form req.form else return (plain (failure 404))

  -- `libraryUnlock`
  unfoldable pub library_unlock : Request → World → Response × World
  library_unlock req w = respond ((is_enabled >>= unlock req) w)

abbrev prune_retained : Result Text → Text → World → Response × World
prune_retained cwd data_dir w =
    let (days, w') = retention_days w in
    let (r, w'') = prune_older_than cwd data_dir days w' in
    (plain (redirect (codes "/files?msg=chat_retention_ok")), w'')

abbrev retained : Result Text → Text → Result (Unit {0}) → World → Response × World
retained cwd data_dir (err e) w = (plain (redirect (codes "/files?msg=library_err")), w)
retained cwd data_dir (ok _) w = prune_retained cwd data_dir w

abbrev retention_number : Result Text → Text → Option ℕ → World → Response × World
retention_number cwd data_dir none w = (plain (redirect (codes "/files?msg=chat_retention_err")), w)
retention_number cwd data_dir (some days) w =
    let (r, w') = set_retention_days days w in retained cwd data_dir r w'

-- `filesLibraryChatRetentionPost`; a negative number is clamped as 0 is.
unfoldable pub files_library_chat_retention_post :
    Result Text → Text → Result (List (Text × Text)) → World → Response × World
files_library_chat_retention_post cwd data_dir (err e) w =
    (plain (redirect (codes "/files?msg=chat_retention_err")), w)
files_library_chat_retention_post cwd data_dir (ok form) w =
    retention_number cwd data_dir (atoi_clamped (trim_space (form_value (codes "days") form))) w
