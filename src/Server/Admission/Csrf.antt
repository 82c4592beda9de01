-- ===== src/Server/Admission/Csrf.antt =====
-- `requireCSRF` before every handler of a POST request.
use hubabox.Base.{
  Bool, true, false, not, ◌||◌, List, [], ◌∷◌, ◌≡◌, ◌≢◌, refl, ap, ◌∙◌, any, arith, Bool-cases,
  Option-cases, inl, inr, ok, none, some, Result-cases, and-eq-true,
}
use hubabox.Text.{Text, Unicode, codes, text_eq, text_eq_sound, text_eq_refl, has_prefix}
use hubabox.Text.Assoc.{find}
use hubabox.Server.{post, Request, Hub, Verdict, csrf_cookie, form_token, require_csrf}
use hubabox.Server.Routes.{
  Pattern, exact, below, segment, Guard, limited, csrf, admin, guest, Route, Endpoint, routes,
  matches, takes, run_guard, run_guards, and_then, reached, admit,
}
use hubabox.Server.Admission.{select_route_lem, admit_lem, and_then-none}

abbrev has_csrf : List Guard → Bool
has_csrf [] = false
has_csrf (csrf ∷ gs) = true
has_csrf (admin ∷ gs) = has_csrf gs
has_csrf (guest ∷ gs) = has_csrf gs
has_csrf (limited l key ∷ gs) = has_csrf gs

and_then-passes :
    (p : Verdict × Hub) (k : Hub → Verdict × Hub) → (and_then p k).0 ≡ none → (k p.1).0 ≡ none
and_then-passes (none, h) k e = e
and_then-passes (some a, h) k e = cc

csrf-passes :
    (u : Unicode) (req : Request) (h : Hub) (gs : List Guard)
    → has_csrf gs ≡ true
    → (run_guards u gs req h).0 ≡ none
    → require_csrf req ≡ none
unfolding run_guards
csrf-passes u req h [] t e = cc
csrf-passes u req h (csrf ∷ gs) t e = and_then-none (require_csrf req) h (run_guards u gs req) e
csrf-passes u req h (admin ∷ gs) t e =
    let p = run_guard u admin req h in
    csrf-passes u req p.1 gs t (and_then-passes p (run_guards u gs req) e)
csrf-passes u req h (guest ∷ gs) t e =
    let p = run_guard u guest req h in
    csrf-passes u req p.1 gs t (and_then-passes p (run_guards u gs req) e)
csrf-passes u req h (limited l key ∷ gs) t e =
    let p = run_guard u (limited l key) req h in
    csrf-passes u req p.1 gs t (and_then-passes p (run_guards u gs req) e)

require_csrf_lem :
    (req : Request)
    → require_csrf req ≡ none
    → (value : Text) × (find csrf_cookie req.cookies ≡ some value)
      × (value ≢ [])
      × (form_token req ≡ ok value)
unfolding require_csrf
require_csrf_lem req e = elim (Option-cases (find csrf_cookie req.cookies)) [
  | inl n ↦ absurd (ground arith)
  | inr (value, f) ↦ elim (Result-cases (form_token req)) [
    | inr (x, t) ↦ absurd (ground arith)
    | inl (token, t) ↦ (
      value,
      f,
      λ z. ground (arith, text_eq_refl value),
      t ∙ ap ok (text_eq_sound token value (ground arith)),
    )
  ]
]

abbrev is_static : Pattern → Bool
is_static (exact p) = false
is_static (below p) = text_eq p (codes "/static/")
is_static (segment p) = false

abbrev guards_posts : Route → Bool
guards_posts r = not (takes r.method post) || has_csrf r.guards || is_static r.pattern

post_routes_audit : any (λ r. not (guards_posts r)) routes ≡ false
unfolding text_eq
post_routes_audit = refl

not_static :
    (pat : Pattern) (path : Text)
    → matches pat path ≡ true
    → has_prefix path (codes "/static/") ≡ false
    → is_static pat ≡ false
unfolding matches
not_static (exact p) path m h = refl
not_static (segment p) path m h = refl
not_static (below p) path m h = elim (Bool-cases (text_eq p (codes "/static/"))) [
  | inr e ↦ e
  | inl e ↦ absurd (let s = text_eq_sound p _ e in ground arith)
]

guarded :
    (r : Route)
    → takes r.method post ≡ true
    → is_static r.pattern ≡ false
    → guards_posts r ≡ true
    → has_csrf r.guards ≡ true
guarded r t n g = ground arith

-- A POST request reaches a handler, other than that of the static files, only if it carries a token,
-- in the header or in the form, that is equal to the cookie of the same name and not empty.
pub admit-csrf :
    (u : Unicode) (req : Request) (h : Hub) (e : Endpoint)
    → req.method ≡ post
    → has_prefix req.path (codes "/static/") ≡ false
    → (admit u req h).0 ≡ reached e
    → (value : Text) × (find csrf_cookie req.cookies ≡ some value)
      × (value ≢ [])
      × (form_token req ≡ ok value)
admit-csrf u req h e m n q =
    let (r, s, passed) = admit_lem u req h e q in
    let (f, t) = select_route_lem req guards_posts routes post_routes_audit s in
    let (takes_it, matching) = and-eq-true f in
    let other_one = not_static r.pattern req.path matching n in
    let taken : takes r.method post ≡ true = rw (← m) takes_it in
    require_csrf_lem req (csrf-passes u req h r.guards (guarded r taken other_one t) passed)
