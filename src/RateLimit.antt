-- ===== src/RateLimit.antt =====
-- hubabox-proj/internal/server/ratelimit.go: the sliding window that limits attempts per client.
--
-- Times are nanoseconds since a fixed instant. `now.Add(-window)` does not wrap in Go, so
-- `t.After(cut)` is written `now < t + window`.
pub mod Refines
pub mod Window
use hubabox.Base.{
  ℕ, ◌+◌, Bool, true, false, List, [], ◌∷◌, ◌++◌, ltb, leb, if◌then◌else◌, length, keep, Result, ok,
  err,
}
use hubabox.Text.{Text, codes}
use hubabox.Text.Assoc.{find_or, put}

-- `authPostLimiter`; the mutex makes each call of `allow` one step.
pub record Limiter : Type 0 where
  pub max : ℕ
  pub window : ℕ
  pub attempts : List (Text × List ℕ)

-- `newAuthPostLimiter`
abbrev pub new_limiter : ℕ → ℕ → Limiter
new_limiter max window = record { max = max; window = window; attempts = [] }

-- `t.After(cut)`
abbrev pub is_live : ℕ → ℕ → ℕ → Bool
is_live window now t = ltb now (t + window)

-- `allow`
unfoldable pub allow : ℕ → Text → Limiter → Limiter × Bool
allow now key l =
    let kept = keep (is_live l.window now) (find_or [] key l.attempts) in
    if leb l.max (length kept)
    then (record l { attempts = put key kept l.attempts }, false)
    else (record l { attempts = put key (kept ++ now ∷ []) l.attempts }, true)
