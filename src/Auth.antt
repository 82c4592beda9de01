-- ===== src/Auth.antt =====
-- hubabox-proj/internal/auth/auth.go: the administrator's password and the sessions.
pub mod Base64
pub mod Sessions
pub mod Passwords
use hubabox.Base.{
  ℕ, ◌+◌, ◌*◌, ◌/◌, Bool, true, false, not, List, [], ◌∷◌, ◌≡◌, ltb, leb, if◌then◌else◌, Result, ok,
  err, Error, no_rows, system, invalid_password, Option, none, some, keep,
}
use hubabox.Text.{Text, codes, text_eq}
use hubabox.Text.Assoc.{find, put, del}
use hubabox.World.{
  World, Act, exec, query, continue, ◌>>=◌, ◌>>◌, return, raise, lift, attempt, second, now_seconds,
  fails, tick,
}
use hubabox.World.Db.{or_no_rows, select_kv, upsert_kv}
use hubabox.Auth.Base64.{base64_raw_url}

abbrev pub kv_admin_password : Text
kv_admin_password = codes "admin_password_bcrypt"

abbrev pub session_days : ℕ
session_days = 14

-- `sessionDays * 24 * time.Hour`
abbrev pub session_lifetime : ℕ
session_lifetime = session_days * 24 * 3600 * second

-- `golang.org/x/crypto/bcrypt`: `generate` takes the password and the salt that it draws.
pub record Bcrypt : Type 0 where
  pub generate : Text → Text → Result Text
  pub compare : Text → Text → Bool

-- `if errors.Is(err, sql.ErrNoRows) { return d, nil }; if err != nil { return err }`
abbrev pub or_default : {A : Type 0} → A → Result A → Act A
or_default d (ok a) = return a
or_default d (err no_rows) = return d
or_default d (err e) = raise e

-- `HasAdminPassword`; a missing key reads as "".
unfoldable pub has_admin_password : Act Bool
has_admin_password = do
  r ← attempt (select_kv kv_admin_password)
  v ← or_default [] r
  return (not (text_eq v []))

module _ (bcrypt : Bcrypt) where
  -- `SetAdminPassword`
  unfoldable pub set_admin_password : Text → Text → Act (Unit {0})
  set_admin_password salt plain = do
    hash ← lift (bcrypt.generate plain salt)
    upsert_kv kv_admin_password hash

  -- `CheckAdminPassword`
  unfoldable pub check_admin_password : Text → Act (Unit {0})
  check_admin_password plain = do
    hash ← select_kv kv_admin_password
    if bcrypt.compare hash plain then return tt else raise invalid_password

-- `INSERT INTO sessions`: the token is the primary key.
abbrev pub insert_session : Text → ℕ → Act (Unit {0})
insert_session token expires w = elim (find token w.sessions) [
  | some e ↦ (err system, tick w)
  | none ↦ exec (λ v. record v { sessions = put token expires v.sessions }) w
]

-- `CreateSession`: `random` is what `rand.Read` leaves in the 32 bytes. The answer is the token and
-- the expiry in nanoseconds; the table keeps its whole seconds.
unfoldable pub create_session : Result (List ℕ) → Act (Text × ℕ)
create_session random w =
    continue (random, w)
      λ bytes.
        let token = base64_raw_url bytes in
        let expires = w.now + session_lifetime in
        do insert_session token (expires / second); return (token, expires)

abbrev pub select_session : Text → Act ℕ
select_session token = query (λ w. or_no_rows (find token w.sessions))

-- `DeleteSession`
unfoldable pub delete_session : Text → Act (Unit {0})
delete_session token = exec (λ w. record w { sessions = del token w.sessions })

-- `time.Now().UTC().After(exp)`
abbrev pub is_expired : ℕ → ℕ → Bool
is_expired now expires = ltb (expires * second) now

-- `ValidateSession` behind the query.
unfoldable pub check_session : Text → Result ℕ → Act Bool
check_session token (err no_rows) w = (ok false, w)
check_session token (err e) w = (err e, w)
check_session token (ok expires) w =
    if is_expired w.now expires
    then (do attempt (delete_session token); return false) w
    else (ok true, w)

-- `ValidateSession`
unfoldable pub validate_session : Text → Act Bool
validate_session [] = return false
validate_session (c ∷ token) = do
  r ← attempt (select_session (c ∷ token))
  check_session (c ∷ token) r

-- `DeleteExpiredSessions`
unfoldable pub delete_expired_sessions : Act (Unit {0})
delete_expired_sessions w =
    exec (λ v. record v { sessions = keep (λ s. not (ltb s.1 (now_seconds w))) v.sessions }) w
