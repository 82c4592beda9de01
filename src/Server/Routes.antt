-- ===== src/Server/Routes.antt =====
-- The routes of `Handler` in hubabox-proj/internal/server/server.go, and the guards before each.
use hubabox.Base.{
  Bool, true, false, ◌&&◌, not, List, [], ◌∷◌, ◌++◌, any, if◌then◌else◌, Option, none, some,
}
use hubabox.Text.{Text, Unicode, codes, text_eq, has_prefix, contains_rune, strip}
use hubabox.FilePath.{slash}
use hubabox.World.{World}
use hubabox.Server.{
  Method, get, post, other, Request, Answer, failure, Hub, Verdict, require_csrf, require_admin,
  require_library_guest, rate_limit_repeated_post,
}

-- The handlers, by their names in the code.
pub data Endpoint : Type 0 where
  health static_handler root_redirect : Endpoint
  setup_get setup_post login_get login_post logout_post : Endpoint
  library_join_get library_get library_unlock library_logout : Endpoint
  download_named_file preview_named_file file_insight_fragment_library : Endpoint
  library_chat_audio_get library_chat_fragment_get library_chat_post library_set_name_post :
      Endpoint
  files_get files_upload file_insight_fragment_admin files_delete : Endpoint
  library_enable_post library_disable_post files_library_chat_retention_post : Endpoint
  files_import_scan_post files_import_config_post files_import_auto_post files_import_pick_post :
      Endpoint
  files_lan_share_enable_post files_lan_share_disable_post : Endpoint

-- `/a/b`, `/a/b/*` and `/a/b/{name}`; the last two keep their final slash.
pub data Pattern : Type 0 where
  exact below segment : Text → Pattern

pub data Limit : Type 0 where
  setup_limit login_limit library_limit : Limit

pub data Guard : Type 0 where
  limited : Limit → Text → Guard
  csrf admin guest : Guard

pub record Route : Type 0 where
  -- `none` for a route that takes every method
  pub method : Option Method
  pub pattern : Pattern
  pub guards : List Guard
  pub endpoint : Endpoint

abbrev on : Method → Pattern → List Guard → Endpoint → Route
on m p gs e = record { method = some m; pattern = p; guards = gs; endpoint = e }

abbrev open_routes : List Route
open_routes =
    on get (exact (codes "/health")) [] health
    ∷ record {
      method = none;
      pattern = below (codes "/static/");
      guards = [];
      endpoint = static_handler;
    }
    ∷ on get (exact (codes "/")) [] root_redirect
    ∷ on get (exact (codes "/setup")) [] setup_get
    ∷ on post (exact (codes "/setup")) (limited setup_limit (codes "setup") ∷ csrf ∷ []) setup_post
    ∷ on get (exact (codes "/login")) [] login_get
    ∷ on post (exact (codes "/login")) (limited login_limit (codes "login") ∷ csrf ∷ []) login_post
    ∷ on post (exact (codes "/logout")) (csrf ∷ []) logout_post
    ∷ on get (exact (codes "/library/join")) (limited library_limit (codes "library") ∷ [])
        library_join_get
    ∷ on get (exact (codes "/library")) [] library_get
    ∷ on post (exact (codes "/library/unlock"))
        (limited library_limit (codes "library") ∷ csrf ∷ []) library_unlock
    ∷ on post (exact (codes "/library/logout")) (csrf ∷ []) library_logout
    ∷ []

abbrev guest_routes : List Route
guest_routes =
    on get (below (codes "/library/download/")) (guest ∷ []) download_named_file
    ∷ on get (below (codes "/library/preview/")) (guest ∷ []) preview_named_file
    ∷ on get (below (codes "/library/insight/fragment/")) (guest ∷ []) file_insight_fragment_library
    ∷ on get (segment (codes "/library/chat/audio/")) (guest ∷ []) library_chat_audio_get
    ∷ on get (exact (codes "/library/chat/fragment")) (guest ∷ []) library_chat_fragment_get
    ∷ on post (exact (codes "/library/chat/post"))
        (guest ∷ limited library_limit (codes "library-chat") ∷ csrf ∷ []) library_chat_post
    ∷ on post (exact (codes "/library/set-name"))
        (guest ∷ limited library_limit (codes "library-setname") ∷ csrf ∷ []) library_set_name_post
    ∷ []

abbrev admin_post : Text → Endpoint → Route
admin_post path e = on post (exact path) (admin ∷ csrf ∷ []) e

abbrev admin_routes : List Route
admin_routes =
    on get (exact (codes "/files")) (admin ∷ []) files_get
    ∷ admin_post (codes "/files/upload") files_upload
    ∷ on get (below (codes "/files/download/")) (admin ∷ []) download_named_file
    ∷ on get (below (codes "/files/preview/")) (admin ∷ []) preview_named_file
    ∷ on get (below (codes "/files/insight/fragment/")) (admin ∷ []) file_insight_fragment_admin
    ∷ admin_post (codes "/files/delete") files_delete
    ∷ admin_post (codes "/files/library/enable") library_enable_post
    ∷ admin_post (codes "/files/library/disable") library_disable_post
    ∷ admin_post (codes "/files/library/chat-retention") files_library_chat_retention_post
    ∷ admin_post (codes "/files/import/scan") files_import_scan_post
    ∷ admin_post (codes "/files/import/config") files_import_config_post
    ∷ admin_post (codes "/files/import/auto") files_import_auto_post
    ∷ admin_post (codes "/files/import/pick") files_import_pick_post
    ∷ admin_post (codes "/files/lanshare/enable") files_lan_share_enable_post
    ∷ admin_post (codes "/files/lanshare/disable") files_lan_share_disable_post
    ∷ []

-- The table of `Handler`. No request fits two routes.
abbrev pub routes : List Route
routes = open_routes ++ guest_routes ++ admin_routes

-- The matching of chi, which is no part of the repository, as the code uses it.
unfoldable pub matches : Pattern → Text → Bool
matches (exact p) path = text_eq path p
matches (below p) path = has_prefix path p
matches (segment p) path =
    has_prefix path p && not (text_eq (strip path p) []) && not (contains_rune (strip path p) slash)

abbrev same_method : Method → Method → Bool
same_method get get = true
same_method get post = false
same_method get other = false
same_method post get = false
same_method post post = true
same_method post other = false
same_method other get = false
same_method other post = false
same_method other other = true

abbrev pub takes : Option Method → Method → Bool
takes none m = true
takes (some r) m = same_method r m

abbrev pub fits : Request → Route → Bool
fits req r = takes r.method req.method && matches r.pattern req.path

unfoldable pub select_route : Request → List Route → Option Route
select_route req [] = none
select_route req (r ∷ rs) = let rest = select_route req rs in if fits req r then some r else rest

abbrev run_limited : Limit → Text → Request → Hub → Verdict × Hub
run_limited setup_limit key req h =
    let (v, l) = rate_limit_repeated_post key req h.world.now h.setup_limiter in
    (v, record h { setup_limiter = l })
run_limited login_limit key req h =
    let (v, l) = rate_limit_repeated_post key req h.world.now h.login_limiter in
    (v, record h { login_limiter = l })
run_limited library_limit key req h =
    let (v, l) = rate_limit_repeated_post key req h.world.now h.library_limiter in
    (v, record h { library_limiter = l })

abbrev with_world : Hub → Verdict × World → Verdict × Hub
with_world h (v, w) = (v, record h { world = w })

-- What becomes of a request before a handler sees it.
pub data Admitted : Type 0 where
  answered : Answer → Admitted
  reached : Endpoint → Admitted

abbrev pub outcome : Endpoint → Verdict → Admitted
outcome e none = reached e
outcome e (some a) = answered a

-- chi answers 405 where the path is known with another method, and else 404.
abbrev no_route : Request → Answer
no_route req = if any (λ r. matches r.pattern req.path) routes then failure 405 else failure 404

abbrev pub and_then : Verdict × Hub → (Hub → Verdict × Hub) → Verdict × Hub
and_then (some a, h) k = (some a, h)
and_then (none, h) k = k h

module _ (u : Unicode) where
  abbrev pub run_guard : Guard → Request → Hub → Verdict × Hub
  run_guard (limited l key) req h = run_limited l key req h
  run_guard csrf req h = (require_csrf req, h)
  run_guard admin req h = with_world h (require_admin req h.world)
  run_guard guest req h = with_world h (require_library_guest u req h.world)

  unfoldable pub run_guards : List Guard → Request → Hub → Verdict × Hub
  run_guards [] req h = (none, h)
  run_guards (g ∷ gs) req h = and_then (run_guard g req h) (run_guards gs req)

  abbrev pub admit_by : Option Route → Request → Hub → Admitted × Hub
  admit_by none req h = (answered (no_route req), h)
  admit_by (some r) req h = let (v, h') = run_guards r.guards req h in (outcome r.endpoint v, h')

  -- `Handler`, up to the call of the handler itself.
  unfoldable pub admit : Request → Hub → Admitted × Hub
  admit req h = admit_by (select_route req routes) req h
