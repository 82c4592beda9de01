-- ===== src/RateLimit/Refines.antt =====
-- The limiter against its specification, which remembers every granted attempt.
use mathlib.Core.Path.{ap₂}
use hubabox.Base.{
  ℕ, ◌≤◌, Bool, true, false, List, [], ◌∷◌, ◌++◌, ◌≡◌, refl, ap, ◌∙◌, ltb, leb, if◌then◌else◌,
  length, keep, arith, Bool-cases, inl, inr,
}
use hubabox.Text.{Text, text_eq, text_eq_refl, text_eq_sound}
use hubabox.Text.Assoc.{find_or, put, find, find-put}
use hubabox.RateLimit.{Limiter, new_limiter, is_live, allow}

-- A request for a grant: the time and the key.
abbrev pub Attempt : Type 0
Attempt = ℕ × Text

-- The answers that the limiter gives to a sequence of attempts.
unfoldable pub answers : Limiter → List Attempt → List Bool
answers l [] = []
answers l ((now, key) ∷ rest) = let (l', granted) = allow now key l in granted ∷ answers l' rest

-- The times at which a key was granted, in a history of grants.
abbrev pub times : Text → List Attempt → List ℕ
times key [] = []
times key ((t, j) ∷ hist) = if text_eq j key then t ∷ times key hist else times key hist

-- The specification: an attempt is granted if fewer than `max` attempts of its key were granted
-- within the window before it. Nothing is ever forgotten, and a refusal counts for nothing.
module _ (max window : ℕ) where
  abbrev pub grants : List Attempt → Attempt → Bool
  grants hist (now, key) = ltb (length (keep (is_live window now) (times key hist))) max

  unfoldable pub promised : List Attempt → List Attempt → List Bool
  promised hist [] = []
  promised hist (a ∷ rest) =
      grants hist a ∷ promised (if grants hist a then hist ++ a ∷ [] else hist) rest

-- The attempts arrive in the order of time, none before `from`.
abbrev pub InOrder : ℕ → List Attempt → Type 0
InOrder from [] = Unit
InOrder from ((now, key) ∷ rest) = (from ≤ now) × InOrder now rest

pub keep-append {ℓ} :
    {A : Type ℓ} (p : A → Bool) (xs ys : List A) → keep p (xs ++ ys) ≡ keep p xs ++ keep p ys
keep-append p [] ys = refl
keep-append p (x ∷ xs) ys = elim (Bool-cases (p x)) [
  | inl e ↦ rw (e, keep-append p xs ys)
  | inr e ↦ rw (e, keep-append p xs ys)
]

-- What is live at a later time was live before.
pub keep-keep_later :
    (window now later : ℕ) (xs : List ℕ)
    → now ≤ later
    → keep (is_live window later) (keep (is_live window now) xs) ≡ keep (is_live window later) xs
keep-keep_later window now later [] h = refl
keep-keep_later window now later (t ∷ xs) h = ground (arith, keep-keep_later window now later xs h)

find_or-put :
    (k j : Text) (v : List ℕ) (m : List (Text × List ℕ))
    → find_or [] j (put k v m) ≡ (if text_eq k j then v else find_or [] j m)
find_or-put k j v m = ground (arith, find-put k j v m)

pub times-append :
    (key : Text) (hist : List Attempt) (now : ℕ) (j : Text)
    → times key (hist ++ (now, j) ∷ [])
      ≡ (if text_eq j key then times key hist ++ now ∷ [] else times key hist)
times-append key [] now j = refl
times-append key ((t, i) ∷ hist) now j = ground (arith, times-append key hist now j)

allow_full :
    (now : ℕ) (key : Text) (l : Limiter)
    → leb l.max (length (keep (is_live l.window now) (find_or [] key l.attempts))) ≡ true
    → allow now key l ≡ (
      record l {
        attempts = put key (keep (is_live l.window now) (find_or [] key l.attempts)) l.attempts;
      },
      false,
    )
unfolding allow
allow_full now key l e = rw e

allow_room :
    (now : ℕ) (key : Text) (l : Limiter)
    → leb l.max (length (keep (is_live l.window now) (find_or [] key l.attempts))) ≡ false
    → allow now key l ≡ (
      record l {
        attempts =
            put key
              (keep (is_live l.window now) (find_or [] key l.attempts) ++ now ∷ [])
              l.attempts;
      },
      true,
    )
unfolding allow
allow_room now key l e = rw e

module _ (max window : ℕ) where
  -- The limiter still knows every grant that can count from time `from` on.
  pub record Tracks (from : ℕ) (l : Limiter) (hist : List Attempt) : Type 0 where
    pub same_max : l.max ≡ max
    pub same_window : l.window ≡ window
    pub same_live :
        (key : Text) (n : ℕ)
        → from ≤ n
        → keep (is_live window n) (find_or [] key l.attempts)
          ≡ keep (is_live window n) (times key hist)

  pub allow-grants :
      (from now : ℕ) (key : Text) (l : Limiter) (hist : List Attempt)
      → Tracks from l hist
      → from ≤ now
      → (allow now key l).1 ≡ grants max window hist (now, key)
  unfolding allow
  allow-grants from now key l hist h le =
      rw (h.same_max, h.same_window, h.same_live key now le) (ground arith)

  live_after :
      (now : ℕ) (key : Text) (stored : List ℕ) (hist : List Attempt) (n : ℕ)
      → now ≤ n
      → keep (is_live window n) stored ≡ keep (is_live window n) (times key hist)
      → (keep (is_live window n) (keep (is_live window now) stored)
          ≡ keep (is_live window n) (times key hist))
        × (keep (is_live window n) (keep (is_live window now) stored ++ now ∷ [])
            ≡ keep (is_live window n) (times key hist ++ now ∷ []))
  live_after now key stored hist n le e =
      let first = keep-keep_later window now n stored le ∙ e in
      (
        first,
        rw (
          keep-append (is_live window n) (keep (is_live window now) stored) (now ∷ []),
          keep-append (is_live window n) (times key hist) (now ∷ []),
          first,
        ),
      )

  -- What is stored for the key is the history of that key, as far as it still counts.
  Tracks-put :
      (from now : ℕ) (key : Text) (l : Limiter) (hist hist' : List Attempt) (stored : List ℕ)
      → Tracks from l hist
      → from ≤ now
      → ((n : ℕ)
          → now ≤ n
          → keep (is_live window n) stored ≡ keep (is_live window n) (times key hist'))
      → ((j : Text) → text_eq key j ≡ false → times j hist' ≡ times j hist)
      → Tracks now (record l { attempts = put key stored l.attempts }) hist'
  Tracks-put from now key l hist hist' stored h le here away = record {
    same_max = h.same_max;
    same_window = h.same_window;
    same_live = λ j n later.
        rw (find_or-put key j stored l.attempts) (elim (Bool-cases (text_eq key j)) [
          | inl e ↦ rw (e, ← text_eq_sound key j e) (here n later)
          | inr e ↦ rw (e, away j e) (h.same_live j n (omega arith))
        ]);
  }

  pub allow-Tracks :
      (from now : ℕ) (key : Text) (l : Limiter) (hist : List Attempt)
      → Tracks from l hist
      → from ≤ now
      → Tracks now
          (allow now key l).0
          (if grants max window hist (now, key) then hist ++ (now, key) ∷ [] else hist)
  allow-Tracks from now key l hist h le =
      let old = find_or [] key l.attempts in
      let stored = keep (is_live l.window now) old in
      let kept : stored ≡ keep (is_live window now) old =
        ap (λ w. keep (is_live w now) old) h.same_window in
      rw (← allow-grants from now key l hist h le) (elim (Bool-cases (leb l.max (length stored))) [
        | inl e ↦ rw (allow_full now key l e) (
            Tracks-put from now key l hist hist stored h le
              (λ n later.
                rw kept (live_after now key old hist n later (h.same_live key n (omega arith))).0)
              (λ j e. refl))
        | inr e ↦ rw (allow_room now key l e) (
            Tracks-put from now key l hist (hist ++ (now, key) ∷ []) (stored ++ now ∷ []) h le
              (λ n later.
                rw (kept, times-append key hist now key, text_eq_refl key)
                  (live_after now key old hist n later (h.same_live key n (omega arith))).1)
              (λ j e. rw (times-append j hist now key, e)))
      ])

  -- Simulation: from related states on, the answers are those of the specification.
  pub answers-promised_of_Tracks :
      (from : ℕ) (l : Limiter) (hist reqs : List Attempt)
      → Tracks from l hist
      → InOrder from reqs
      → answers l reqs ≡ promised max window hist reqs
  unfolding answers promised
  answers-promised_of_Tracks from l hist [] h o = refl
  answers-promised_of_Tracks from l hist ((now, key) ∷ reqs) h o =
      ap₂ (λ b bs. b ∷ bs) (allow-grants from now key l hist h o.0)
        (answers-promised_of_Tracks now (allow now key l).0 _ reqs
          (allow-Tracks from now key l hist h o.0) o.1)

-- A new limiter, asked in the order of time, gives exactly the answers of the specification: it
-- grants an attempt if and only if fewer than `max` attempts of the same key were granted within
-- the window before it.
pub answers-promised :
    (max window from : ℕ) (reqs : List Attempt)
    → InOrder from reqs
    → answers (new_limiter max window) reqs ≡ promised max window [] reqs
answers-promised max window from reqs o =
    answers-promised_of_Tracks max window from (new_limiter max window) [] reqs
      (record { same_max = refl; same_window = refl; same_live = λ key n h. unfold find in refl }) o
