-- ===== src/RateLimit/Window.antt =====
-- No window ever holds more grants of one key than the limiter's bound.
use hubabox.Base.{
  ℕ, ◌≤◌, true, List, [], ◌∷◌, ◌++◌, append-nil, append_assoc, ◌≡◌, refl, ltb, if◌then◌else◌,
  length, length-append, keep, arith, Bool-cases, inl, inr, All,
}
use hubabox.Text.{Text, text_eq, text_eq_sound}
use hubabox.RateLimit.{Limiter, new_limiter, is_live, allow}
use hubabox.RateLimit.Refines.{
  Attempt, times, times-append, grants, InOrder, Tracks, allow-grants, allow-Tracks, keep-append,
}
use hubabox.Text.Assoc.{find}

-- The attempts that the limiter grants.
unfoldable pub granted : Limiter → List Attempt → List Attempt
granted l [] = []
granted l ((now, key) ∷ reqs) =
    let rest = granted (allow now key l).0 reqs in
    if (allow now key l).1 then (now, key) ∷ rest else rest

keep-le :
    (window now later : ℕ) (xs : List ℕ)
    → now ≤ later
    → length (keep (is_live window later) xs) ≤ length (keep (is_live window now) xs)
keep-le window now later [] h = omega arith
keep-le window now later (t ∷ xs) h = ground (arith, keep-le window now later xs h)

module _ (max window : ℕ) where
  abbrev IsBounded : ℕ → List Attempt → Type 0
  IsBounded from hist =
      (key : Text) (n : ℕ) → from ≤ n → length (keep (is_live window n) (times key hist)) ≤ max

  one_more :
      (now : ℕ) (xs : List ℕ) (n : ℕ)
      → now ≤ n
      → ltb (length (keep (is_live window now) xs)) max ≡ true
      → length (keep (is_live window n) (xs ++ now ∷ [])) ≤ max
  one_more now xs n le h =
      rw
        (
          keep-append (is_live window n) xs (now ∷ []),
          length-append (keep (is_live window n) xs) (keep (is_live window n) (now ∷ [])),
        )
        (ground (arith, keep-le window now n xs le))

  grant-IsBounded :
      (from now : ℕ) (key : Text) (hist : List Attempt)
      → from ≤ now
      → IsBounded from hist
      → IsBounded now (if grants max window hist (now, key) then hist ++ (now, key) ∷ [] else hist)
  grant-IsBounded from now key hist le h j n later =
      elim (Bool-cases (grants max window hist (now, key))) [
        | inr e ↦ rw e (h j n (omega arith))
        | inl e ↦
            rw (e, times-append j hist now key)
              (elim (Bool-cases (text_eq key j)) [
                | inl q ↦ rw (q, ← text_eq_sound key j q) (one_more now (times key hist) n later e)
                | inr q ↦ rw q (h j n (omega arith))
              ])
      ]

  granted-IsBounded :
      (from until : ℕ) (l : Limiter) (hist reqs : List Attempt)
      → Tracks max window from l hist
      → IsBounded from hist
      → InOrder from reqs
      → from ≤ until
      → All (λ a. a.0 ≤ until) reqs
      → (key : Text)
      → length (keep (is_live window until) (times key (hist ++ granted l reqs))) ≤ max
  unfolding granted
  granted-IsBounded from until l hist [] h b o le u key = rw append-nil (b key until le)
  granted-IsBounded from until l hist ((now, k) ∷ reqs) h b o le u key =
      let next =
        granted-IsBounded now until (allow now k l).0 _ reqs
          (allow-Tracks max window from now k l hist h o.0) (grant-IsBounded from now k hist o.0 b)
          o.1 u.0 u.1 key in
      rw (allow-grants max window from now k l hist h o.0)
        (elim (Bool-cases (grants max window hist (now, k))) [
          | inl e ↦ rw e (rw (e, append_assoc) at next)
          | inr e ↦ rw e (rw e at next)
        ])

-- Over any attempts in the order of time, and at any later moment, a new limiter has granted each
-- key at most `max` attempts within the window before that moment.
pub granted-le :
    (max window from until : ℕ) (reqs : List Attempt) (key : Text)
    → InOrder from reqs
    → All (λ a. a.0 ≤ until) reqs
    → length (keep (is_live window until) (times key (granted (new_limiter max window) reqs))) ≤ max
granted-le max window from until reqs key o u =
    granted-IsBounded max window 0 until (new_limiter max window) [] reqs
      (record { same_max = refl; same_window = refl; same_live = λ key n h. unfold find in refl })
      (λ key n h. omega arith) (from_start from reqs o) (omega arith) u key
  where
    from_start : (from : ℕ) (reqs : List Attempt) → InOrder from reqs → InOrder 0 reqs
    from_start from [] o = tt
    from_start from ((now, k) ∷ reqs) o = (omega arith, o.1)
