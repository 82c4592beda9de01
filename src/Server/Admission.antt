-- ===== src/Server/Admission.antt =====
-- Which requests reach a handler.
pub mod Csrf
pub mod Frame
use hubabox.Base.{
  ℕ, Bool, true, false, not, ◌&&◌, ◌||◌, List, [], ◌∷◌, ◌++◌, ◌≡◌, ◌≢◌, refl, sym, ap, ◌∙◌, ◌==◌,
  if◌then◌else◌, any, All, arith, Bool-cases, Option-cases, inl, inr, Result, ok, err, Option, none,
  some, Result-cases, ok-injective, or-eq-false, and-eq-true,
}
use hubabox.Text.{Text, Unicode, codes, text_eq, text_eq_sound, text_eq_refl, has_prefix, byte_len}
use hubabox.Text.Assoc.{find}
use hubabox.World.{World, attempt}
use hubabox.Auth.{validate_session}
use hubabox.Auth.Sessions.{IsLive, validate_session_sound}
use hubabox.Library.{kv_enabled, kv_token, valid_guest, match_library_code}
use hubabox.Library.Codes.{IsCode, normal, match_library_code_sound}
use hubabox.Server.{
  Method, get, post, other, Request, Hub, Answer, Verdict, verdict, session_token, library_token,
  csrf_cookie, form_token, require_csrf, require_admin, require_library_guest,
}
use hubabox.Server.Routes.{
  Pattern, exact, below, segment, Guard, limited, csrf, admin, guest, Route, Endpoint, routes,
  matches, takes, fits, select_route, run_guard, run_guards, and_then, Admitted, reached, answered,
  outcome, admit, admit_by,
}

-- Two prefixes of one text agree.
has_prefix-compatible :
    (path a b : Text)
    → has_prefix path a ≡ true
    → has_prefix path b ≡ true
    → (has_prefix a b || has_prefix b a) ≡ true
unfolding has_prefix
has_prefix-compatible path [] b h k = ground arith
has_prefix-compatible path (x ∷ a) [] h k = ground arith
has_prefix-compatible [] (x ∷ a) (y ∷ b) h k = cc
has_prefix-compatible (c ∷ path) (x ∷ a) (y ∷ b) h k =
    ground (arith, has_prefix-compatible path a b)

-- Whether a pattern fits some path that begins with a prefix.
abbrev may_match : Text → Pattern → Bool
may_match pre (exact p) = has_prefix p pre
may_match pre (below p) = has_prefix p pre || has_prefix pre p
may_match pre (segment p) = has_prefix p pre || has_prefix pre p

matches-may_match :
    (pat : Pattern) (path pre : Text)
    → matches pat path ≡ true
    → has_prefix path pre ≡ true
    → may_match pre pat ≡ true
unfolding matches
matches-may_match (exact p) path pre m h = rw (← text_eq_sound path p m) h
matches-may_match (below p) path pre m h = has_prefix-compatible path p pre m h
matches-may_match (segment p) path pre m h = has_prefix-compatible path p pre (ground arith) h

pub select_route_lem :
    (req : Request) (test : Route → Bool) (rs : List Route) {r : Route}
    → any (λ q. not (test q)) rs ≡ false
    → select_route req rs ≡ some r
    → (fits req r ≡ true) × (test r ≡ true)
unfolding select_route
select_route_lem req test [] a e = cc
select_route_lem req test (q ∷ rs) {r} a e = elim (Bool-cases (fits req q)) [
  | inl f ↦ let same : some q ≡ some r = rw f at e in ground arith
  | inr f ↦ select_route_lem req test rs (ground arith) (rw f at e)
]

pub admit_lem :
    (u : Unicode) (req : Request) (h : Hub) (e : Endpoint)
    → (admit u req h).0 ≡ reached e
    → (r : Route) × (select_route req routes ≡ some r) × ((run_guards u r.guards req h).0 ≡ none)
unfolding admit
admit_lem u req h e q = elim (Option-cases (select_route req routes)) [
  | inl n ↦ absurd (answered-ne-reached (rw n at q))
  | inr (r, s) ↦ (r, s, passed r.endpoint (run_guards u r.guards req h).0 (rw s at q))
]
  where
    answered-ne-reached : {a : Answer} → ¬ (answered a ≡ reached e)
    answered-ne-reached k = cc

    passed : (d : Endpoint) (v : Verdict) → outcome d v ≡ reached e → v ≡ none
    passed d none k = refl
    passed d (some a) k = cc

-- What a table promises of the routes that fit a prefix.
abbrev promises : Text → (List Guard → Bool) → Route → Bool
promises pre test r = not (may_match pre r.pattern) || test r.guards

reached-guards :
    (u : Unicode) (req : Request) (h : Hub) (e : Endpoint) (pre : Text) (test : List Guard → Bool)
    → any (λ r. not (promises pre test r)) routes ≡ false
    → has_prefix req.path pre ≡ true
    → (admit u req h).0 ≡ reached e
    → (gs : List Guard) × (test gs ≡ true) × ((run_guards u gs req h).0 ≡ none)
reached-guards u req h e pre test a p q =
    let (r, s, passed) = admit_lem u req h e q in
    let (f, t) = select_route_lem req (promises pre test) routes a s in
    let m = matches-may_match r.pattern req.path pre (and-eq-true f).1 p in
    (r.guards, (rw m at t), passed)

abbrev starts_with_admin : List Guard → Bool
starts_with_admin [] = false
starts_with_admin (admin ∷ gs) = true
starts_with_admin (guest ∷ gs) = false
starts_with_admin (csrf ∷ gs) = false
starts_with_admin (limited l key ∷ gs) = false

verdict-none : (refusal : Answer) (r : Result Bool) → verdict refusal r ≡ none → r ≡ ok true
verdict-none refusal (ok true) e = refl
verdict-none refusal (ok false) e = cc
verdict-none refusal (err x) e = cc

pub and_then-none :
    (v : Verdict) (h : Hub) (k : Hub → Verdict × Hub) → (and_then (v, h) k).0 ≡ none → v ≡ none
and_then-none none h k e = refl
and_then-none (some a) h k e = e

admin-passes :
    (u : Unicode) (req : Request) (h : Hub) (gs : List Guard)
    → starts_with_admin gs ≡ true
    → (run_guards u gs req h).0 ≡ none
    → (validate_session (session_token req) h.world).0 ≡ ok true
unfolding run_guards require_admin
admin-passes u req h [] t e = cc
admin-passes u req h (admin ∷ gs) t e = verdict-none _ _ (and_then-none _ _ _ e)
admin-passes u req h (guest ∷ gs) t e = cc
admin-passes u req h (csrf ∷ gs) t e = cc
admin-passes u req h (limited l key ∷ gs) t e = cc

admin_routes_audit : any (λ r. not (promises (codes "/files") starts_with_admin r)) routes ≡ false
unfolding has_prefix
admin_routes_audit = refl

-- Whichever handler it is, a request whose path begins with "/files" reaches one only if its session
-- cookie is a live session.
pub admit-IsLive :
    (u : Unicode) (req : Request) (h : Hub) (e : Endpoint)
    → has_prefix req.path (codes "/files") ≡ true
    → (admit u req h).0 ≡ reached e
    → IsLive h.world (session_token req)
admit-IsLive u req h e p q =
    let (gs, t, passed) =
      reached-guards u req h e (codes "/files") starts_with_admin admin_routes_audit p q in
    validate_session_sound (session_token req) h.world (admin-passes u req h gs t passed)

abbrev starts_with_guest : List Guard → Bool
starts_with_guest [] = false
starts_with_guest (guest ∷ gs) = true
starts_with_guest (admin ∷ gs) = false
starts_with_guest (csrf ∷ gs) = false
starts_with_guest (limited l key ∷ gs) = false

guest-passes :
    (u : Unicode) (req : Request) (h : Hub) (gs : List Guard)
    → starts_with_guest gs ≡ true
    → (run_guards u gs req h).0 ≡ none
    → (valid_guest u (library_token req) h.world).0 ≡ ok true
unfolding run_guards require_library_guest
guest-passes u req h [] t e = cc
guest-passes u req h (admin ∷ gs) t e = cc
guest-passes u req h (guest ∷ gs) t e = verdict-none _ _ (and_then-none _ _ _ e)
guest-passes u req h (csrf ∷ gs) t e = cc
guest-passes u req h (limited l key ∷ gs) t e = cc

-- What only guests may ask for.
abbrev pub guest_paths : List Text
guest_paths =
    codes "/library/download/"
    ∷ codes "/library/preview/"
    ∷ codes "/library/insight/"
    ∷ codes "/library/chat/"
    ∷ codes "/library/set-name"
    ∷ []

guest_routes_audit :
    any (λ pre. any (λ r. not (promises pre starts_with_guest r)) routes) guest_paths ≡ false
unfolding has_prefix
guest_routes_audit = refl

any-both :
    {A : Type 0} (p q : A → Bool) (xs : List A)
    → any p xs ≡ true
    → any q xs ≡ false
    → (x : A) × (p x ≡ true) × (q x ≡ false)
any-both p q [] h k = cc
any-both p q (x ∷ xs) h k = elim (Bool-cases (p x)) [
  | inl e ↦ (x, e, ground arith)
  | inr e ↦ any-both p q xs (rw e at h) (ground arith)
]

valid_guest_lem :
    (u : Unicode) (submitted : Text) (w : World)
    → (valid_guest u submitted w).0 ≡ ok true
    → (tok : Text) × ((match_library_code u submitted w).0 ≡ ok (tok, true))
unfolding valid_guest hubabox.Library.valid_plain
valid_guest_lem u submitted w e = elim (Result-cases (match_library_code u submitted w).0) [
  | inr (x, q) ↦ absurd (ground arith)
  | inl ((tok, granted), q) ↦ (tok, q ∙ ap (λ b. ok (tok, b)) (ground arith))
]

-- A request for a guest's page reaches its handler only while the library is on, and only with a
-- cookie that is the stored access code or its last six hexadecimal digits.
pub admit-IsCode :
    (u : Unicode) (req : Request) (h : Hub) (e : Endpoint)
    → any (has_prefix req.path) guest_paths ≡ true
    → (admit u req h).0 ≡ reached e
    → (tok : Text) × (find kv_enabled h.world.kv ≡ some (codes "1"))
      × (find kv_token h.world.kv ≡ some tok)
      × IsCode tok (normal u (library_token req))
admit-IsCode u req h e p q =
    let (pre, begins, audit) =
      any-both (has_prefix req.path)
        (λ pre. any (λ r. not (promises pre starts_with_guest r)) routes) guest_paths p
        guest_routes_audit in
    let (gs, t, passed) = reached-guards u req h e pre starts_with_guest audit begins q in
    let (tok, m) =
      valid_guest_lem u (library_token req) h.world (guest-passes u req h gs t passed) in
    let (on, stored, not_empty, same) = match_library_code_sound u (library_token req) h.world m in
    (tok, on, stored, same)
