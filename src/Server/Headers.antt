-- ===== src/Server/Headers.antt =====
-- The headers of every answer, and the token of a page's forms: `securityHeaders` and `csrfToken`
-- of hubabox-proj/internal/server/middleware.go.
use hubabox.Base.{ℕ, ◌*◌, List, [], ◌∷◌, leb, if◌then◌else◌, Result, ok, err, Option, none, some}
use hubabox.Text.{Text, codes, byte_len}
use hubabox.Text.Assoc.{find}
use hubabox.Auth.Base64.{base64_raw_url}
use hubabox.Server.{Request, csrf_cookie}
use hubabox.Server.Accounts.{Cookie, keep_cookie}

-- `securityHeaders`
abbrev pub security_headers : List (Text × Text)
security_headers =
    (codes "X-Content-Type-Options", codes "nosniff")
    ∷ (codes "X-Frame-Options", codes "DENY")
    ∷ (codes "Referrer-Policy", codes "same-origin")
    ∷ (codes "Permissions-Policy", codes "geolocation=(), camera=(), payment=()")
    ∷ (
      codes "Content-Security-Policy",
      codes
          "default-src 'self'; base-uri 'self'; form-action 'self'; frame-ancestors 'none'; img-src 'self' data:; media-src 'self'; style-src 'self'; script-src 'self' 'unsafe-inline'",
    )
    ∷ []

abbrev csrf_age : ℕ
csrf_age = 14 * 24 * 3600

-- A new token of 32 random bytes with its cookie; "" where no bytes can be drawn.
abbrev fresh_token : Result (List ℕ) → Text × List Cookie
fresh_token (err e) = ([], [])
fresh_token (ok random) =
    (base64_raw_url random, keep_cookie csrf_cookie (base64_raw_url random) csrf_age ∷ [])

abbrev kept_token : Option Text → Result (List ℕ) → Text × List Cookie
kept_token none random = fresh_token random
kept_token (some value) random = if leb 32 (byte_len value) then (value, []) else fresh_token random

-- `csrfToken`
unfoldable pub csrf_token : Request → Result (List ℕ) → Text × List Cookie
csrf_token req random = kept_token (find csrf_cookie req.cookies) random
