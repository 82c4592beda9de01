-- ===== src/Server/Accounts.antt =====
-- First-time setup, login and logout, and the way from "/" to them: `rootRedirect`, `setupGet`,
-- `setupPost`, `loginGet`, `loginPost` and `logoutPost` of hubabox-proj/internal/server/server.go.
pub mod Laws
use hubabox.Base.{
  ℕ, ◌-◌, ◌*◌, ◌/◌, Bool, true, false, not, ◌&&◌, ◌||◌, List, [], ◌∷◌, ltb, ◌==◌, if◌then◌else◌,
  Result, ok, err, Option, none, some,
}
use hubabox.Text.{Text, codes, text_eq, byte_len}
use hubabox.World.{World, Act, continue, ◌>>=◌, ◌>>◌, return, attempt, lift, second}
use hubabox.Auth.{
  Bcrypt, has_admin_password, set_admin_password, check_admin_password, create_session,
  validate_session, delete_session, delete_expired_sessions,
}
use hubabox.Server.{
  Request, Answer, redirect, failure, page, internal_error, session_cookie, session_token,
  form_value,
}
use hubabox.Server.Address.{is_loopback_request}

-- What an answer does to a cookie: its value and its age in seconds, or its removal.
pub data Cookie : Type 0 where
  keep_cookie : Text → Text → ℕ → Cookie
  clear_cookie : Text → Cookie

-- The cookie of `csrfToken`, which `render` adds to a page, is left out.
abbrev pub Response : Type 0
Response = Answer × List Cookie

abbrev pub plain : Answer → Response
plain a = (a, [])

-- `http.Error(w, "internal error", 500)` on every error that a handler does not treat otherwise.
abbrev pub respond : Result Response × World → Response × World
respond (ok r, w) = (r, w)
respond (err e, w) = (plain internal_error, w)

-- `timeUntil`, in whole seconds: subtraction on ℕ stops at 0, as the function does.
abbrev pub seconds_until : ℕ → ℕ → ℕ
seconds_until now expires = (expires - now) / second

-- `setSessionCookie`
abbrev pub session_age : ℕ → ℕ
session_age max_age = if max_age == 0 then 14 * 24 * 3600 else max_age

abbrev set_session_cookie : Text → ℕ → Cookie
set_session_cookie token max_age = keep_cookie session_cookie token (session_age max_age)

-- The end of `setupPost` and of `loginPost`.
abbrev pub signed_in : ℕ → Text × ℕ → Response
signed_in now (token, expires) =
    (redirect (codes "/files"), set_session_cookie token (seconds_until now expires) ∷ [])

unfoldable pub sign_in : Result (List ℕ) → Act Response
sign_in random = do
  made ← create_session random
  now ← (λ w. (ok w.now, w))
  return (signed_in now made)

-- What the server's start fixes: `AllowRemoteSetup`, the hash of passwords, and which addresses are
-- loopback ones.
pub record Setup : Type 0 where
  pub allow_remote_setup : Bool
  pub bcrypt : Bcrypt
  pub is_loopback : Text → Bool

module _ (c : Setup) where
  abbrev pub is_remote : Request → Bool
  is_remote req =
      not c.allow_remote_setup && not (is_loopback_request c.is_loopback req.remote_addr)

  -- `setupPost` from the form on: `salt` and `random` are what the random source yields.
  abbrev setup_form : Text → Result (List ℕ) → Result (List (Text × Text)) → Act Response
  setup_form salt random (err e) = return (plain (redirect (codes "/setup?err=badform")))
  setup_form salt random (ok form) =
      let p1 = form_value (codes "password") form in
      let p2 = form_value (codes "password2") form in
      if ltb (byte_len p1) 10
      then return (plain (redirect (codes "/setup?err=short")))
      else if not (text_eq p1 p2)
      then return (plain (redirect (codes "/setup?err=mismatch")))
      else do set_admin_password c.bcrypt salt p1; sign_in random

  abbrev pub setup_checked : Text → Result (List ℕ) → Request → Bool → Act Response
  setup_checked salt random req has =
      if has
      then return (plain (redirect (codes "/login")))
      else if is_remote req
      then return (plain (failure 403))
      else setup_form salt random req.form

  -- `setupPost`
  unfoldable pub setup_post : Text → Result (List ℕ) → Request → World → Response × World
  setup_post salt random req w = respond ((has_admin_password >>= setup_checked salt random req) w)

  abbrev setup_page : Text → Request → Bool → Act Response
  setup_page err_text req has =
      if has
      then return (plain (redirect (codes "/login")))
      else if is_remote req
      then return (plain (failure 403))
      else return (plain (page (codes "setup") err_text))

  -- `setupGet`
  unfoldable pub setup_get : Text → Request → World → Response × World
  setup_get err_text req w = respond ((has_admin_password >>= setup_page err_text req) w)

  abbrev pub login_checked : Result (List ℕ) → Result (Unit {0}) → Act Response
  login_checked random (err e) = return (plain (redirect (codes "/login?err=badpass")))
  login_checked random (ok _) = sign_in random

  abbrev pub login_form : Result (List ℕ) → Result (List (Text × Text)) → Act Response
  login_form random (err e) = return (plain (redirect (codes "/login?err=badform")))
  login_form random (ok form) =
      attempt (check_admin_password c.bcrypt (form_value (codes "password") form))
      >>= login_checked random

  abbrev pub login_set_up : Result (List ℕ) → Request → Bool → Act Response
  login_set_up random req has =
      if has then login_form random req.form else return (plain (redirect (codes "/setup")))

  -- `loginPost`
  unfoldable pub login_post : Result (List ℕ) → Request → World → Response × World
  login_post random req w = respond ((has_admin_password >>= login_set_up random req) w)

abbrev login_page : Text → Bool → Act Response
login_page err_text has =
    if has
    then return (plain (page (codes "login") err_text))
    else return (plain (redirect (codes "/setup")))

-- `loginGet`
unfoldable pub login_get : Text → World → Response × World
login_get err_text w = respond ((has_admin_password >>= login_page err_text) w)

-- `logoutPost`
unfoldable pub logout_post : Request → World → Response × World
logout_post req w = respond (
    (do
      attempt
          (if text_eq (session_token req) [] then return tt else delete_session (session_token req))
      return (redirect (codes "/login"), clear_cookie session_cookie ∷ []))
      w)

abbrev home : Request → Bool → Act Response
home req has =
    if has
    then (do
      attempt delete_expired_sessions
      live ← validate_session (session_token req)
      return (plain (redirect (if live then codes "/files" else codes "/login"))))
    else return (plain (redirect (codes "/setup")))

-- `rootRedirect`
unfoldable pub root_redirect : Request → World → Response × World
root_redirect req w = respond ((has_admin_password >>= home req) w)
