-- ===== src/Chat/Retention.antt =====
-- The setting for how long messages are kept.
use hubabox.Base.{ℕ, ◌≤◌, false, ◌≡◌, ok, some, arith}
use hubabox.Text.{text_eq_refl}
use hubabox.Text.Trim.{trim_space_of_IsTrimmed}
use hubabox.Text.Assoc.{find, find-put}
use hubabox.Text.Decimal.{itoa, atoi-itoa, itoa-IsTrimmed, itoa-not_empty}
use hubabox.World.{World, fails}
use hubabox.Chat.{
  kv_retention_days, min_retention_days, max_retention_days, days_of, retention_days, clamp_days,
  set_retention_days,
}

clamp_days-bounds :
    (d : ℕ) → (min_retention_days ≤ clamp_days d) × (clamp_days d ≤ max_retention_days)
clamp_days-bounds d = (ground arith, ground arith)

days_of-itoa : (n : ℕ) → min_retention_days ≤ n → n ≤ max_retention_days → days_of (ok (itoa n)) ≡ n
days_of-itoa n low high =
    rw
      (
        trim_space_of_IsTrimmed (itoa n) (itoa-IsTrimmed n),
        itoa-not_empty n,
        atoi-itoa n (omega arith),
      )
      (ground arith)

set_retention_days_lem :
    (days : ℕ) (w : World)
    → (set_retention_days days w).0 ≡ ok tt
    → find kv_retention_days (set_retention_days days w).1.kv ≡ some (itoa (clamp_days days))
unfolding set_retention_days
set_retention_days_lem days w e = ground (
  arith,
  find-put kv_retention_days kv_retention_days (itoa (clamp_days days)) w.kv,
  text_eq_refl kv_retention_days,
)

-- What `SetRetentionDays` has stored, `RetentionDays` answers, clamped to the bounds, while the
-- setting is not changed and its query does not fail.
retention_days-set_retention_days :
    (days : ℕ) (w v : World)
    → (set_retention_days days w).0 ≡ ok tt
    → v.kv ≡ (set_retention_days days w).1.kv
    → fails v.faults ≡ false
    → (retention_days v).0 ≡ clamp_days days
unfolding retention_days
retention_days-set_retention_days days w v e s f =
    let stored : find kv_retention_days v.kv ≡ some (itoa (clamp_days days)) =
      rw s (set_retention_days_lem days w e) in
    let (low, high) = clamp_days-bounds days in
    rw (f, stored) (days_of-itoa (clamp_days days) low high)
