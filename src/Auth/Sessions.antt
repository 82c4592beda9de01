-- ===== src/Auth/Sessions.antt =====
-- Which tokens open the administrator's pages, and for how long.
use hubabox.Base.{
  ℕ, ◌+◌, ◌*◌, ◌/◌, ◌≤◌, true, false, not, List, [], ◌∷◌, ◌≡◌, ◌≢◌, ◌↔◌, refl, sym, ◌∙◌, ltb, ok,
  system, some, keep, arith, Bool-cases, inl, inr, Option-cases, err-ne-ok, All,
}
use hubabox.Text.{Text, text_eq_refl}
use hubabox.Text.Assoc.{find, find-put, find-del}
use hubabox.World.{World, second, now_seconds, fails}
use hubabox.Auth.Base64.{base64_raw_url}
use hubabox.Auth.{
  create_session, session_lifetime, validate_session, check_session, delete_session, is_expired,
  delete_expired_sessions,
}

-- A token that opens the administrator's pages at a time.
abbrev pub IsLive : World → Text → Type 0
IsLive w token =
    (token ≢ [])
    × ((expires : ℕ) × (find token w.sessions ≡ some expires) × (w.now ≤ expires * second))

check_session_lem :
    (token : Text) (expires : ℕ) (w : World)
    → (check_session token (ok expires) w).0 ≡ ok (not (is_expired w.now expires))
unfolding check_session
check_session_lem token expires w = ground arith

-- `ValidateSession` answers yes only to a token that is stored and has not expired; the empty token
-- is never live.
pub validate_session_sound :
    (token : Text) (w : World) → (validate_session token w).0 ≡ ok true → IsLive w token
unfolding validate_session check_session
validate_session_sound [] w e = cc
validate_session_sound (c ∷ token) w e = elim (Option-cases (find (c ∷ token) w.sessions)) [
  | inl gone ↦ absurd (ground arith)
  | inr (expires, found) ↦ (λ q. cc, (expires, found, ground arith))
]

-- It answers yes to every live token, if the query does not fail.
pub validate_session_complete :
    (token : Text) (w : World)
    → fails w.faults ≡ false
    → IsLive w token
    → (validate_session token w).0 ≡ ok true
unfolding validate_session check_session
validate_session_complete [] w f h = absurd (h.0 refl)
validate_session_complete (c ∷ token) w f (_, (expires, found, fresh)) = ground arith

-- If its query does not fail, `ValidateSession` answers yes exactly to the live tokens: those that
-- are stored, are not empty and have not expired.
pub validate_session_iff :
    (token : Text) (w : World)
    → fails w.faults ≡ false
    → ((validate_session token w).0 ≡ ok true) ↔ IsLive w token
validate_session_iff token w f =
    (validate_session_sound token w, validate_session_complete token w f)

base64_raw_url-ne-nil : (b : ℕ) (bytes : List ℕ) → base64_raw_url (b ∷ bytes) ≢ []
unfolding base64_raw_url
base64_raw_url-ne-nil b [] h = cc
base64_raw_url-ne-nil b (c ∷ []) h = cc
base64_raw_url-ne-nil b (c ∷ d ∷ r) h = cc

-- What a successful `CreateSession` has stored.
create_session_lem :
    (bytes : List ℕ) (w : World) {token : Text} {expires : ℕ}
    → (create_session (ok bytes) w).0 ≡ ok (token, expires)
    → (token ≡ base64_raw_url bytes)
      × (find token (create_session (ok bytes) w).1.sessions
          ≡ some ((w.now + session_lifetime) / second))
unfolding create_session
create_session_lem bytes w {token} {expires} e =
    let t = base64_raw_url bytes in
    let exp = (w.now + session_lifetime) / second in
    let same : token ≡ t = ground arith in
    (same, rw same (ground (arith, find-put t t exp w.sessions, text_eq_refl t)))

-- If `CreateSession` succeeds with random bytes, of which there is at least one, then in any state
-- that still has its table of sessions the token is live exactly until 14 days have passed since
-- its creation, counted in whole seconds.
pub create_session-lifetime :
    (b : ℕ) (bytes : List ℕ) (w v : World) {token : Text} {expires : ℕ}
    → (create_session (ok (b ∷ bytes)) w).0 ≡ ok (token, expires)
    → v.sessions ≡ (create_session (ok (b ∷ bytes)) w).1.sessions
    → IsLive v token ↔ (v.now ≤ (w.now + session_lifetime) / second * second)
create_session-lifetime b bytes w v {token} e s =
    let (same, found) = create_session_lem (b ∷ bytes) w e in
    let stored : find token v.sessions ≡ some ((w.now + session_lifetime) / second) = rw s found in
    (
      λ live.
          let (expires, here, fresh) = live.1 in
          let q : (w.now + session_lifetime) / second ≡ expires = cc in rw q fresh,
      λ h. (
        λ q. base64_raw_url-ne-nil b bytes (sym same ∙ q),
        ((w.now + session_lifetime) / second, stored, h),
      ),
    )

-- After `DeleteSession`, if it did not fail, the token is dead at once.
pub delete_session-dead :
    (token : Text) (w : World)
    → (delete_session token w).0 ≡ ok tt
    → ¬ IsLive (delete_session token w).1 token
unfolding delete_session
delete_session-dead token w e live =
    let (expires, here, fresh) = live.1 in
    ground (arith, find-del token token w.sessions, text_eq_refl token)

find-keep_unexpired :
    (n : ℕ) (token : Text) (m : List (Text × ℕ)) (expires : ℕ)
    → n ≤ expires
    → find token m ≡ some expires
    → find token (keep (λ s. not (ltb s.1 n)) m) ≡ some expires
unfolding find
find-keep_unexpired n token [] expires h e = cc
find-keep_unexpired n token ((j, x) ∷ m) expires h e =
    ground (arith, find-keep_unexpired n token m expires h)

All-keep_unexpired :
    (n : ℕ) (m : List (Text × ℕ)) → All (λ s. n ≤ s.1) (keep (λ s. not (ltb s.1 n)) m)
All-keep_unexpired n [] = tt
All-keep_unexpired n ((j, x) ∷ m) = elim (Bool-cases (ltb x n)) [
  | inl e ↦ rw e (All-keep_unexpired n m)
  | inr e ↦ rw e (ground arith, All-keep_unexpired n m)
]

-- `DeleteExpiredSessions` ends no live session, and leaves none that expired before this second.
delete_expired_sessions-IsLive :
    (w : World) (token : Text)
    → (delete_expired_sessions w).0 ≡ ok tt
    → IsLive w token
    → IsLive (delete_expired_sessions w).1 token
      × All (λ s. now_seconds w ≤ s.1) (delete_expired_sessions w).1.sessions
unfolding delete_expired_sessions
delete_expired_sessions-IsLive w token e live = elim (Bool-cases (fails w.faults)) [
  | inl f ↦ absurd (err-ne-ok system tt (rw f at e))
  | inr f ↦ rw f (
    let (expires, here, fresh) = live.1 in
        (
          live.0,
          (
            expires,
            find-keep_unexpired (now_seconds w) token w.sessions expires (omega arith) here,
            fresh,
          ),
        ),
    All-keep_unexpired (now_seconds w) w.sessions,
  )
]
