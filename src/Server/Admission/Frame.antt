-- ===== src/Server/Admission/Frame.antt =====
-- What the guards themselves change.
use hubabox.Base.{List, [], ◌∷◌, ◌≡◌, refl, ◌∙◌, arith, Option-cases, inl, inr, none, some}
use hubabox.Text.{Text, Unicode}
use hubabox.World.{World}
use hubabox.Auth.{validate_session}
use hubabox.Library.{kv_enabled, kv_token, valid_guest, match_library_code}
use hubabox.Server.{
  Request, Hub, Verdict, session_token, library_token, require_admin, require_library_guest,
}
use hubabox.Server.Routes.{
  setup_limit, login_limit, library_limit, Guard, limited, csrf, admin, guest, routes, select_route,
  run_guard, run_guards, and_then, admit,
}

-- Two states that differ at most in their sessions and in the faults still to come.
abbrev pub SameData : World → World → Type 0
SameData w v = (v.kv ≡ w.kv) × (v.messages ≡ w.messages) × (v.disk ≡ w.disk) × (v.now ≡ w.now)

validate_session-SameData : (token : Text) (w : World) → SameData w (validate_session token w).1
unfolding validate_session hubabox.Auth.check_session hubabox.Auth.delete_session
validate_session-SameData [] w = (refl, refl, refl, refl)
validate_session-SameData (c ∷ token) w = (ground arith, ground arith, ground arith, ground arith)

valid_guest-SameData :
    (u : Unicode) (submitted : Text) (w : World) → SameData w (valid_guest u submitted w).1
unfolding valid_guest hubabox.Library.valid_plain match_library_code hubabox.Library.is_enabled
    hubabox.Library.token
valid_guest-SameData u submitted w = (ground arith, ground arith, ground arith, ground arith)

SameData-trans : (w v x : World) → SameData w v → SameData v x → SameData w x
SameData-trans w v x (a, b, c, d) (p, q, r, s) = (p ∙ a, q ∙ b, r ∙ c, s ∙ d)

module _ (u : Unicode) (req : Request) where
  run_guard-SameData : (g : Guard) (h : Hub) → SameData h.world (run_guard u g req h).1.world
  unfolding require_admin require_library_guest
  run_guard-SameData (limited setup_limit key) h = (refl, refl, refl, refl)
  run_guard-SameData (limited login_limit key) h = (refl, refl, refl, refl)
  run_guard-SameData (limited library_limit key) h = (refl, refl, refl, refl)
  run_guard-SameData csrf h = (refl, refl, refl, refl)
  run_guard-SameData admin h = validate_session-SameData (session_token req) h.world
  run_guard-SameData guest h = valid_guest-SameData u (library_token req) h.world

  and_then-SameData :
      (w : World) (p : Verdict × Hub) (k : Hub → Verdict × Hub)
      → SameData w p.1.world
      → ((h : Hub) → SameData h.world (k h).1.world)
      → SameData w (and_then p k).1.world
  and_then-SameData w (some a, h) k s c = s
  and_then-SameData w (none, h) k s c = SameData-trans w h.world (k h).1.world s (c h)

  run_guards-SameData :
      (gs : List Guard) (h : Hub) → SameData h.world (run_guards u gs req h).1.world
  unfolding run_guards
  run_guards-SameData [] h = (refl, refl, refl, refl)
  run_guards-SameData (g ∷ gs) h =
      and_then-SameData h.world (run_guard u g req h) (run_guards u gs req) (run_guard-SameData g h)
        (run_guards-SameData gs)

  -- Whatever the request, and whether it is let through or not, the guards change no setting, no
  -- message and no file.
  admit-SameData : (h : Hub) → SameData h.world (admit u req h).1.world
  unfolding admit
  admit-SameData h = elim (Option-cases (select_route req routes)) [
    | inl n ↦ rw n (refl, refl, refl, refl)
    | inr (r, s) ↦ rw s (run_guards-SameData r.guards h)
  ]
