-- ===== src/Text/Trim.antt =====
-- Laws of trimming: what a trimmed text begins and ends with, and that trimming it again does
-- nothing.
use hubabox.Base.{true, ℕ, ◌≡◌, refl, ap, Bool, false, [], ◌∷◌, ◌++◌, Bool-cases, inl, inr, All}
use hubabox.Text.{Text, trim_left, trim_right, trim_space, is_space, keep_last}

module _ (p : ℕ → Bool) where
  abbrev pub StartsClean : Text → Type 0
  StartsClean [] = Unit
  StartsClean (c ∷ s) = p c ≡ false

  abbrev pub EndsClean : Text → Type 0
  EndsClean [] = Unit
  EndsClean (c ∷ []) = p c ≡ false
  EndsClean (c ∷ d ∷ s) = EndsClean (d ∷ s)

  pub trim_left-StartsClean : (s : Text) → StartsClean (trim_left p s)
  unfolding trim_left
  trim_left-StartsClean [] = tt
  trim_left-StartsClean (c ∷ s) = elim (Bool-cases (p c)) [
    | inl e ↦ rw e (trim_left-StartsClean s)
    | inr e ↦ rw e e
  ]

  pub trim_left_of_StartsClean : (s : Text) → StartsClean s → trim_left p s ≡ s
  unfolding trim_left
  trim_left_of_StartsClean [] h = refl
  trim_left_of_StartsClean (c ∷ s) h = rw h

  keep_last-EndsClean : (c : ℕ) (s : Text) → EndsClean s → EndsClean (keep_last p c s)
  keep_last-EndsClean c [] h = elim (Bool-cases (p c)) [ inl e ↦ rw e tt | inr e ↦ rw e e ]
  keep_last-EndsClean c (d ∷ s) h = h

  pub trim_right-EndsClean : (s : Text) → EndsClean (trim_right p s)
  unfolding trim_right
  trim_right-EndsClean [] = tt
  trim_right-EndsClean (c ∷ s) = keep_last-EndsClean c (trim_right p s) (trim_right-EndsClean s)

  pub trim_right_of_EndsClean : (s : Text) → EndsClean s → trim_right p s ≡ s
  unfolding trim_right
  trim_right_of_EndsClean [] h = refl
  trim_right_of_EndsClean (c ∷ []) h = rw h
  trim_right_of_EndsClean (c ∷ d ∷ s) h = rw (trim_right_of_EndsClean (d ∷ s) h)

  pub trim_left-All {κ} : (P : ℕ → Type κ) (s : Text) → All P s → All P (trim_left p s)
  unfolding trim_left
  trim_left-All P [] h = tt
  trim_left-All P (c ∷ s) h = elim (Bool-cases (p c)) [
    | inl e ↦ rw e (trim_left-All P s h.1)
    | inr e ↦ rw e h
  ]

  keep_last-All {κ} : (P : ℕ → Type κ) (c : ℕ) (s : Text) → P c → All P s → All P (keep_last p c s)
  keep_last-All P c [] h k = elim (Bool-cases (p c)) [ inl e ↦ rw e tt | inr e ↦ rw e (h, tt) ]
  keep_last-All P c (d ∷ s) h k = (h, k)

  pub trim_right-All {κ} : (P : ℕ → Type κ) (s : Text) → All P s → All P (trim_right p s)
  unfolding trim_right
  trim_right-All P [] h = tt
  trim_right-All P (c ∷ s) h = keep_last-All P c (trim_right p s) h.0 (trim_right-All P s h.1)

keep_last-StartsClean :
    (p q : ℕ → Bool) (c : ℕ) (s : Text) → q c ≡ false → StartsClean q (keep_last p c s)
keep_last-StartsClean p q c [] h = elim (Bool-cases (p c)) [ inl e ↦ rw e tt | inr e ↦ rw e h ]
keep_last-StartsClean p q c (d ∷ s) h = h

-- Trimming at the end leaves the beginning.
pub trim_right-StartsClean :
    (p q : ℕ → Bool) (s : Text) → StartsClean q s → StartsClean q (trim_right p s)
unfolding trim_right
trim_right-StartsClean p q [] h = tt
trim_right-StartsClean p q (c ∷ s) h = keep_last-StartsClean p q c (trim_right p s) h

-- Trimming at the end gives a prefix.
keep_last-prefix :
    (p : ℕ → Bool) (c : ℕ) (s t : Text)
    → (r : Text) × (t ≡ s ++ r)
    → (r : Text) × (c ∷ t ≡ keep_last p c s ++ r)
keep_last-prefix p c [] t (r, e) = elim (Bool-cases (p c)) [
  | inl q ↦ (c ∷ r, rw (q, e))
  | inr q ↦ (r, rw (q, e))
]
keep_last-prefix p c (d ∷ s) t (r, e) = (r, ap (λ x. c ∷ x) e)

pub trim_right-prefix : (p : ℕ → Bool) (s : Text) → (r : Text) × (s ≡ trim_right p s ++ r)
unfolding trim_right
trim_right-prefix p [] = ([], refl)
trim_right-prefix p (c ∷ s) = keep_last-prefix p c (trim_right p s) s (trim_right-prefix p s)

-- A text that `strings.TrimSpace` leaves alone.
abbrev pub IsTrimmed : Text → Type 0
IsTrimmed s = StartsClean is_space s × EndsClean is_space s

pub trim_space-IsTrimmed : (s : Text) → IsTrimmed (trim_space s)
unfolding trim_space
trim_space-IsTrimmed s = (
  trim_right-StartsClean is_space is_space (trim_left is_space s)
      (trim_left-StartsClean is_space s),
  trim_right-EndsClean is_space (trim_left is_space s),
)

pub trim_space_of_IsTrimmed : (s : Text) → IsTrimmed s → trim_space s ≡ s
unfolding trim_space
trim_space_of_IsTrimmed s (a, b) =
    rw (trim_left_of_StartsClean is_space s a) (trim_right_of_EndsClean is_space s b)

pub trim_space_idem : (s : Text) → trim_space (trim_space s) ≡ trim_space s
trim_space_idem s = trim_space_of_IsTrimmed (trim_space s) (trim_space-IsTrimmed s)

pub trim_space-All {κ} : (P : ℕ → Type κ) (s : Text) → All P s → All P (trim_space s)
unfolding trim_space
trim_space-All P s h = trim_right-All is_space P _ (trim_left-All is_space P s h)

pub trim_space-prefix : (s : Text) → StartsClean is_space s → (r : Text) × (s ≡ trim_space s ++ r)
unfolding trim_space
trim_space-prefix s h = rw (trim_left_of_StartsClean is_space s h) (trim_right-prefix is_space s)

-- A text without white space is trimmed.
no_space-EndsClean : (s : Text) → All (λ c. is_space c ≡ false) s → EndsClean is_space s
no_space-EndsClean [] h = tt
no_space-EndsClean (c ∷ []) h = h.0
no_space-EndsClean (c ∷ d ∷ s) h = no_space-EndsClean (d ∷ s) h.1

pub no_space-IsTrimmed : (s : Text) → All (λ c. is_space c ≡ false) s → IsTrimmed s
no_space-IsTrimmed [] h = (tt, tt)
no_space-IsTrimmed (c ∷ s) h = (h.0, no_space-EndsClean (c ∷ s) h)

module _ (p : ℕ → Bool) where
  pub EndsClean-append : (s : Text) (c : ℕ) → p c ≡ false → EndsClean p (s ++ c ∷ [])
  EndsClean-append [] c h = h
  EndsClean-append (a ∷ []) c h = h
  EndsClean-append (a ∷ b ∷ s) c h = EndsClean-append (b ∷ s) c h

  pub All-EndsClean : (s : Text) → All (λ c. p c ≡ false) s → EndsClean p s
  All-EndsClean [] h = tt
  All-EndsClean (c ∷ []) h = h.0
  All-EndsClean (c ∷ d ∷ s) h = All-EndsClean (d ∷ s) h.1

  -- A last character that is trimmed.
  pub trim_right-append :
      (s : Text) (c : ℕ) → p c ≡ true → trim_right p (s ++ c ∷ []) ≡ trim_right p s
  unfolding trim_right
  trim_right-append [] c h = rw h refl
  trim_right-append (a ∷ s) c h = ap (keep_last p a) (trim_right-append s c h)
