-- ===== src/Server/Accounts/Laws.antt =====
-- Who may set the password, and who is signed in.
use hubabox.Base.{
  ℕ, Bool, true, false, List, [], ◌∷◌, ◌≡◌, ◌≢◌, refl, sym, ap, ◌∙◌, Result, ok, err, some, arith,
  Bool-cases, Option-cases, Result-cases, inl, inr, err-ne-ok, subst, ok-injective,
}
use hubabox.Text.{Text, codes, text_eq}
use hubabox.Text.Assoc.{find}
use hubabox.World.{World, continue, ◌>>=◌, return, fails}
use hubabox.Auth.{
  Bcrypt, kv_admin_password, has_admin_password, check_admin_password, create_session,
  delete_session,
}
use hubabox.Auth.Sessions.{IsLive, create_session-lifetime, delete_session-dead}
use hubabox.Server.{Request, redirect, session_cookie, session_token, form_value}
use hubabox.Server.Accounts.{
  keep_cookie, clear_cookie, Response, respond, sign_in, Setup, is_remote, setup_post, login_post,
  logout_post, setup_checked, login_form, login_set_up, signed_in,
}

-- The hub has a password.
abbrev pub IsSetUp : World → Type 0
IsSetUp w = (hash : Text) × (find kv_admin_password w.kv ≡ some hash) × (text_eq hash [] ≡ false)

has_admin_password_lem :
    (w : World) → IsSetUp w → fails w.faults ≡ false → (has_admin_password w).0 ≡ ok true
unfolding has_admin_password
has_admin_password_lem w (hash, stored, n) f = rw (f, stored, n)

has_admin_password-kv : (w : World) → (has_admin_password w).1.kv ≡ w.kv
unfolding has_admin_password
has_admin_password-kv w = ground arith

-- While a password is set, `setupPost` changes no setting, whoever asks and whatever the form says.
setup_post-kv :
    (c : Setup) (salt : Text) (random : Result (List ℕ)) (req : Request) (w : World)
    → IsSetUp w
    → (setup_post c salt random req w).1.kv ≡ w.kv
unfolding setup_post has_admin_password
setup_post-kv c salt random req w (hash, stored, n) = elim (Bool-cases (fails w.faults)) [
  | inl f ↦ rw f refl
  | inr f ↦ rw (f, stored, n) refl
]

-- A state and an answer that leave the settings and the sessions alone, and sign nobody in.
abbrev pub Refuses : World → Response × World → Type 0
Refuses w (r, v) = (v.kv ≡ w.kv) × (v.sessions ≡ w.sessions) × (r.1 ≡ [])

setup_checked-Refuses :
    (c : Setup) (salt : Text) (random : Result (List ℕ)) (req : Request) (p : Result Bool × World)
    → is_remote c req ≡ true
    → Refuses p.1 (respond (continue p (setup_checked c salt random req)))
setup_checked-Refuses c salt random req (err e, v) r = (refl, refl, refl)
setup_checked-Refuses c salt random req (ok true, v) r = (refl, refl, refl)
setup_checked-Refuses c salt random req (ok false, v) r = rw r (refl, refl, refl)

has_admin_password-same :
    (w : World)
    → ((has_admin_password w).1.kv ≡ w.kv) × ((has_admin_password w).1.sessions ≡ w.sessions)
unfolding has_admin_password
has_admin_password-same w = (ground arith, ground arith)

-- From another computer, unless the hub was started so as to allow it, `setupPost` changes no
-- setting either, creates no session and sets no cookie.
pub setup_post-Refuses :
    (c : Setup) (salt : Text) (random : Result (List ℕ)) (req : Request) (w : World)
    → is_remote c req ≡ true
    → Refuses w (setup_post c salt random req w)
unfolding setup_post
setup_post-Refuses c salt random req w r =
    let (a, b, d) = setup_checked-Refuses c salt random req (has_admin_password w) r in
    let (kv, sessions) = has_admin_password-same w in (a ∙ kv, b ∙ sessions, d)

-- Who is signed in by an answer: the cookie's token is live in the state behind it.
abbrev pub SignsIn : Response × World → Type 0
SignsIn (r, v) =
    (token : Text) × (age : ℕ) × (r.1 ≡ keep_cookie session_cookie token age ∷ []) × IsLive v token

after_create :
    (p : Result (Text × ℕ) × World) (r : Response)
    → (continue p (λ made. (λ w. (ok w.now, w)) >>= λ now. return (signed_in now made))).0 ≡ ok r
    → (token : Text) × (expires : ℕ) × (p.0 ≡ ok (token, expires))
      × (signed_in p.1.now (token, expires) ≡ r)
      × ((continue p (λ made. (λ w. (ok w.now, w)) >>= λ now. return (signed_in now made))).1 ≡ p.1)
after_create (ok (t, x), v) r e = (t, x, refl, ok-injective e, refl)
after_create (err x, v) r e = absurd (err-ne-ok x r e)

create_session-now :
    (random : Result (List ℕ)) (w : World) → (create_session random w).1.now ≡ w.now
unfolding create_session
create_session-now (err e) w = refl
create_session-now (ok bytes) w = ground arith

sign_in-SignsIn :
    (b : ℕ) (bytes : List ℕ) (w : World) (r : Response)
    → (sign_in (ok (b ∷ bytes)) w).0 ≡ ok r
    → SignsIn (r, (sign_in (ok (b ∷ bytes)) w).1)
unfolding sign_in
sign_in-SignsIn b bytes w r e =
    let (token, expires, made, same, state) =
      after_create (create_session (ok (b ∷ bytes)) w) r e in
    let now = create_session-now (ok (b ∷ bytes)) w in
    let live : IsLive (create_session (ok (b ∷ bytes)) w).1 token =
      (create_session-lifetime b bytes w (create_session (ok (b ∷ bytes)) w).1 made refl).1
        (rw now (omega arith)) in
    (token, _, sym (ap (λ x. x.1) same), rw state live)

check_admin_password_lem :
    (k : Bcrypt) (given : Text) (w : World)
    → (check_admin_password k given w).0 ≡ ok tt
    → (hash : Text) × (find kv_admin_password w.kv ≡ some hash) × (k.compare hash given ≡ true)
unfolding check_admin_password
check_admin_password_lem k given w e = elim (Option-cases (find kv_admin_password w.kv)) [
  | inl gone ↦ absurd (ground arith)
  | inr (hash, stored) ↦ (hash, stored, ground arith)
]

-- The password of a form is the administrator's.
abbrev pub IsPassword : Bcrypt → List (Text × Text) → World → Type 0
IsPassword k form w =
    (hash : Text) × (find kv_admin_password w.kv ≡ some hash)
    × (k.compare hash (form_value (codes "password") form) ≡ true)

module _ (c : Setup) (b : ℕ) (bytes : List ℕ) where
  respond-SignsIn :
      (w : World)
      → (respond (sign_in (ok (b ∷ bytes)) w)).0.1 ≢ []
      → SignsIn (respond (sign_in (ok (b ∷ bytes)) w))
  respond-SignsIn w n = go (sign_in (ok (b ∷ bytes)) w) refl n
    where
      go :
          (p : Result Response × World)
          → sign_in (ok (b ∷ bytes)) w ≡ p
          → (respond p).0.1 ≢ []
          → SignsIn (respond p)
      go (ok r, v) e n =
          subst (λ v. SignsIn (r, v)) (ap (λ x. x.1) e)
            (sign_in-SignsIn b bytes w r (ap (λ x. x.0) e))
      go (err x, v) e n = absurd (n refl)

  login_form_lem :
      (form : Result (List (Text × Text))) (w : World)
      → (respond (login_form c (ok (b ∷ bytes)) form w)).0.1 ≢ []
      → (fields : List (Text × Text)) × (form ≡ ok fields)
        × IsPassword c.bcrypt fields w
        × SignsIn (respond (login_form c (ok (b ∷ bytes)) form w))
  login_form_lem (err e) w n = absurd (n refl)
  login_form_lem (ok fields) w n =
      let given = form_value (codes "password") fields in
      elim (Result-cases (check_admin_password c.bcrypt given w).0) [
        | inr (x, e) ↦ absurd (n (rw e refl))
        | inl (_, e) ↦ (
          fields,
          refl,
          check_admin_password_lem c.bcrypt given w e,
          rw e (respond-SignsIn (check_admin_password c.bcrypt given w).1 (rw e at n)),
        )
      ]

  login_set_up_lem :
      (req : Request) (p : Result Bool × World)
      → (respond (continue p (login_set_up c (ok (b ∷ bytes)) req))).0.1 ≢ []
      → (fields : List (Text × Text)) × (req.form ≡ ok fields)
        × IsPassword c.bcrypt fields p.1
        × SignsIn (respond (continue p (login_set_up c (ok (b ∷ bytes)) req)))
  login_set_up_lem req (err e, v) n = absurd (n refl)
  login_set_up_lem req (ok false, v) n = absurd (n refl)
  login_set_up_lem req (ok true, v) n = login_form_lem req.form v n

  -- If the random source yields bytes, of which there is at least one, `loginPost` sets a cookie
  -- only for a form whose password matches the stored hash, and then the one cookie is that of a
  -- session which is live.
  pub login_post-SignsIn :
      (req : Request) (w : World)
      → (login_post c (ok (b ∷ bytes)) req w).0.1 ≢ []
      → (fields : List (Text × Text)) × (req.form ≡ ok fields)
        × IsPassword c.bcrypt fields w
        × SignsIn (login_post c (ok (b ∷ bytes)) req w)
  unfolding login_post
  login_post-SignsIn req w n =
      let (fields, f, (hash, stored, same), signed) =
        login_set_up_lem req (has_admin_password w) n in
      (fields, f, (hash, rw (← (has_admin_password-same w).0) stored, same), signed)

-- If its statement does not fail, the token of the request is dead after `logoutPost`, and the
-- answer removes the cookie and leads to the login.
pub logout_post-dead :
    (req : Request) (w : World)
    → fails w.faults ≡ false
    → (¬ IsLive (logout_post req w).1 (session_token req))
      × ((logout_post req w).0 ≡ (redirect (codes "/login"), clear_cookie session_cookie ∷ []))
unfolding logout_post text_eq
logout_post-dead req w f = go (session_token req) refl
  where
    go :
        (token : Text)
        → session_token req ≡ token
        → (¬ IsLive (logout_post req w).1 (session_token req))
          × ((logout_post req w).0 ≡ (redirect (codes "/login"), clear_cookie session_cookie ∷ []))
    go [] e = (λ live. live.0 e, refl)
    go (c ∷ token) e =
        (rw e (delete_session-dead (c ∷ token) w (unfold delete_session in rw f refl)), refl)
