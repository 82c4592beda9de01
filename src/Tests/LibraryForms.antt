-- ===== src/Tests/LibraryForms.antt =====
-- The library's forms at concrete inputs.
use hubabox.Tests.Paths.{cwd}
use hubabox.Base.{true, List, [], ◌∷◌, ◌≡◌, ◌≢◌, refl, ok}
use hubabox.Text.{Text, codes, ascii}
use hubabox.Library.{match_library_code, normalize_display_nick}
use hubabox.Server.{post, Request, redirect, failure}
use hubabox.Server.LibraryForms.{
  library_unlock, library_join_get, library_disable_post, library_enable_post,
  files_library_chat_retention_post, clear_library_guest_cookies,
}
use hubabox.Server.LibraryForms.Laws.{LetsIn, library_unlock-LetsIn, library_disable_post-locked}
use hubabox.Tests.Requests.{requests, world, ask}

library_forms : Unit {0}
unfolding requests library_unlock library_join_get library_disable_post library_enable_post
    files_library_chat_retention_post normalize_display_nick hubabox.Library.enable
    hubabox.Library.disable hubabox.Auth.Base64.hex_encode hubabox.Chat.clear_all
    hubabox.Chat.remove_all hubabox.Chat.set_retention_days hubabox.Chat.retention_days
    hubabox.Chat.prune_older_than hubabox.FilePath.join_path hubabox.Text.Decimal.itoa
    hubabox.Text.Decimal.digits hubabox.Text.Decimal.atoi hubabox.Text.Decimal.atoi_clamped
    hubabox.Text.strip
library_forms = tt

abbrev form : List (Text × Text)
form = (codes "token", codes " ABCDEF ") ∷ (codes "display_name", codes "Anna ") ∷ []

abbrev unlocking : Request
unlocking = record (ask post (codes "/library/unlock") [] []) { form = ok form }

runs :
    ((library_unlock ascii unlocking world).0.0 ≡ redirect (codes "/library"))
    × ((library_unlock ascii (record unlocking { form = ok [] }) world).0.0
        ≡ redirect (codes "/library?err=badtoken"))
    × ((library_join_get ascii (codes "00ABCDEF") world).0.0 ≡ redirect (codes "/library"))
    × ((library_join_get ascii [] world).0.0 ≡ redirect (codes "/library?err=missing"))
    × ((library_join_get ascii
          (codes "00ABCDEF")
          (library_disable_post cwd (codes "/d") world).1).0.0
        ≡ failure 404)
    × ((library_enable_post (ok (1 ∷ [])) world).0.0 ≡ redirect (codes "/files?msg=library_on"))
    × ((files_library_chat_retention_post cwd
          (codes "/d")
          (ok ((codes "days", codes "-3") ∷ []))
          world).0.0
        ≡ redirect (codes "/files?msg=chat_retention_ok"))
    × ((files_library_chat_retention_post cwd
          (codes "/d")
          (ok ((codes "days", codes "x") ∷ []))
          world).0.0
        ≡ redirect (codes "/files?msg=chat_retention_err"))
unfolding library_forms
runs = (refl, refl, refl, refl, refl, refl, refl, refl)

is_let_in : (library_unlock ascii unlocking world).0.1 ≢ []
unfolding library_forms
is_let_in e = cc

library_unlock-LetsIn_example :
    (fields : List (Text × Text)) × (unlocking.form ≡ ok fields)
    × LetsIn ascii fields world.kv (library_unlock ascii unlocking world).0.1
library_unlock-LetsIn_example = library_unlock-LetsIn ascii unlocking world is_let_in

library_disable_post-locked_example :
    ((library_disable_post cwd (codes "/d") world).0
      ≡ (redirect (codes "/files?msg=library_off"), clear_library_guest_cookies))
    × ((library_disable_post cwd (codes "/d") world).1.messages ≡ [])
    × ((match_library_code ascii
          (codes "00abcdef")
          (library_disable_post cwd (codes "/d") world).1).0
        ≢ ok (codes "00abcdef", true))
library_disable_post-locked_example =
    library_disable_post-locked ascii cwd (codes "/d") (codes "00abcdef") (codes "00abcdef") world
      refl
