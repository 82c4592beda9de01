-- ===== src/Server.antt =====
-- Requests, answers and the middleware of hubabox-proj/internal/server/middleware.go and
-- ratelimit.go.
pub mod Address
pub mod Routes
pub mod Admission
pub mod Accounts
pub mod FileForms
pub mod LibraryForms
pub mod Downloads
pub mod Insight
pub mod VoiceNotes
pub mod ChatForms
pub mod ImportForms
pub mod LibraryPage
pub mod ShareForms
pub mod Flash
pub mod Headers
use hubabox.Base.{
  ℕ, ◌*◌, Bool, true, false, not, ◌&&◌, List, [], ◌∷◌, ◌++◌, ◌==◌, if◌then◌else◌, Result, ok, err,
  ◌>>=◌, Option, none, some,
}
use hubabox.Text.{Text, Unicode, codes, text_eq, byte_len}
use hubabox.Text.Assoc.{find, get_or, find_or}
use hubabox.World.{World}
use hubabox.Auth.{validate_session}
use hubabox.Library.{valid_guest}
use hubabox.RateLimit.{Limiter, allow}
use hubabox.Server.Address.{rate_limit_key}

pub data Method : Type 0 where
  get post other : Method

-- What the code reads of a request.
pub record Request : Type 0 where
  pub method : Method
  pub path : Text
  -- `RemoteAddr`, as chi's RealIP leaves it where the hub trusts a proxy
  pub remote_addr : Text
  pub cookies : List (Text × Text)
  -- the header X-HubaBox-CSRF, empty where it is missing
  pub csrf_header : Text
  -- what ParseForm and ParseMultipartForm make of the query and the body
  pub form : Result (List (Text × Text))

-- A redirect with status 303, an error page with its status, or a page of the hub with its error
-- text.
pub data Answer : Type 0 where
  redirect : Text → Answer
  failure : ℕ → Answer
  page : Text → Text → Answer

abbrev pub internal_error : Answer
internal_error = failure 500

-- The state behind the handlers: `Server`, with the database and the disk.
pub record Hub : Type 0 where
  pub world : World
  pub setup_limiter : Limiter
  pub login_limiter : Limiter
  pub library_limiter : Limiter

abbrev pub session_cookie : Text
session_cookie = codes "hubabox_session"

abbrev pub library_cookie : Text
library_cookie = codes "hubabox_library"

abbrev pub csrf_cookie : Text
csrf_cookie = codes "hubabox_csrf"

-- `r.FormValue`, on a form that was parsed.
abbrev pub form_value : Text → List (Text × Text) → Text
form_value key form = find_or [] key form

-- `sessionToken`
abbrev pub session_token : Request → Text
session_token req = find_or [] session_cookie req.cookies

-- `libraryToken`
abbrev pub library_token : Request → Text
library_token req = find_or [] library_cookie req.cookies

-- The token that `requireCSRF` compares with the cookie.
unfoldable pub form_token : Request → Result Text
form_token req =
    if text_eq req.csrf_header []
    then (do form ← req.form; ok (form_value (codes "csrf_token") form))
    else ok req.csrf_header

abbrev matches_cookie : Text → Result Text → Bool
matches_cookie value (err e) = false
matches_cookie value (ok token) = byte_len token == byte_len value && text_eq token value

abbrev check_csrf : Request → Option Text → Bool
check_csrf req none = false
check_csrf req (some value) = not (text_eq value []) && matches_cookie value (form_token req)

-- A guard lets a request through, `none`, or answers it.
abbrev pub Verdict : Type 0
Verdict = Option Answer

-- `requireCSRF`
unfoldable pub require_csrf : Request → Verdict
require_csrf req =
    if check_csrf req (find csrf_cookie req.cookies) then none else some (failure 403)

abbrev pub verdict : Answer → Result Bool → Verdict
verdict refusal (err e) = some internal_error
verdict refusal (ok true) = none
verdict refusal (ok false) = some refusal

-- `requireAdmin`
unfoldable pub require_admin : Request → World → Verdict × World
require_admin req w =
    let (r, w') = validate_session (session_token req) w in
    (verdict (redirect (codes "/login")) r, w')

abbrev pub guest_refusal : Method → Answer
guest_refusal post = redirect (codes "/library")
guest_refusal get = failure 403
guest_refusal other = failure 403

-- `requireLibraryGuest`
unfoldable pub require_library_guest : Unicode → Request → World → Verdict × World
require_library_guest u req w =
    let (r, w') = valid_guest u (library_token req) w in (verdict (guest_refusal req.method) r, w')

-- `rateLimitRepeatedPost`
unfoldable pub rate_limit_repeated_post : Text → Request → ℕ → Limiter → Verdict × Limiter
rate_limit_repeated_post route_key req now l =
    let (l', granted) = allow now (rate_limit_key route_key req.remote_addr) l in
    (if granted then none else some (failure 429), l')
