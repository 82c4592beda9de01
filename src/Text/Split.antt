-- ===== src/Text/Split.antt =====
-- `strings.Split` by one separator, and joining with it.
use hubabox.Base.{
  ℕ, Option, none, some, List, [], ◌∷◌, ◌++◌, ◌≡◌, ◌≢◌, refl, ap, sym, ◌==◌, if◌then◌else◌, arith,
  All, Bool-cases, inl, inr, false, ==_iff,
}
use hubabox.Text.{Text, contains_rune}

abbrev cons_head : ℕ → List Text → List Text
cons_head c [] = (c ∷ []) ∷ []
cons_head c (p ∷ ps) = (c ∷ p) ∷ ps

unfoldable pub split : Text → ℕ → List Text
split [] sep = [] ∷ []
split (c ∷ s) sep = let rest = split s sep in if c == sep then [] ∷ rest else cons_head c rest

unfoldable pub join : List Text → ℕ → Text
join [] sep = []
join (p ∷ []) sep = p
join (p ∷ q ∷ ps) sep = p ++ sep ∷ join (q ∷ ps) sep

abbrev pub Lacks : ℕ → Text → Type 0
Lacks sep = All (λ c. (c == sep) ≡ false)

abbrev pair_with : ℕ → Option (Text × Text) → Option (Text × Text)
pair_with c none = none
pair_with c (some (before, after)) = some (c ∷ before, after)

-- The text before and after the first occurrence of a character.
unfoldable pub cut : Text → ℕ → Option (Text × Text)
cut [] r = none
cut (c ∷ s) r = let rest = pair_with c (cut s r) in if c == r then some ([], s) else rest

module _ (sep : ℕ) where
  pub split-ne-nil : (s : Text) → split s sep ≢ []
  unfolding split
  split-ne-nil [] h = cc
  split-ne-nil (c ∷ s) h = absurd (ground (arith, cons_head-ne-nil c (split s sep)))
    where
      cons_head-ne-nil : (c : ℕ) (ps : List Text) → cons_head c ps ≢ []
      cons_head-ne-nil c [] h = cc
      cons_head-ne-nil c (p ∷ ps) h = cc

  cons_head-All {κ} :
      (P : Text → Type κ) (c : ℕ) (ps : List Text)
      → P (c ∷ [])
      → ((p : Text) → P p → P (c ∷ p))
      → All P ps
      → All P (cons_head c ps)
  cons_head-All P c [] a f h = (a, tt)
  cons_head-All P c (p ∷ ps) a f h = (f p h.0, h.1)

  -- No part of a split holds the separator.
  pub split-Lacks : (s : Text) → All (Lacks sep) (split s sep)
  unfolding split
  split-Lacks [] = (tt, tt)
  split-Lacks (c ∷ s) = elim (Bool-cases (c == sep)) [
    | inl e ↦ rw e (tt, split-Lacks s)
    | inr e ↦
        rw e (cons_head-All (Lacks sep) c (split s sep) (e, tt) (λ p h. (e, h)) (split-Lacks s))
  ]

  -- Each part of a split holds only what the text holds.
  pub split-All {κ} : (P : ℕ → Type κ) (s : Text) → All P s → All (All P) (split s sep)
  unfolding split
  split-All P [] h = (tt, tt)
  split-All P (c ∷ s) h = elim (Bool-cases (c == sep)) [
    | inl e ↦ rw e (tt, split-All P s h.1)
    | inr e ↦
        rw e (cons_head-All (All P) c (split s sep) (h.0, tt) (λ p k. (h.0, k)) (split-All P s h.1))
  ]

  pub split_of_Lacks : (p : Text) → Lacks sep p → split p sep ≡ p ∷ []
  unfolding split
  split_of_Lacks [] h = refl
  split_of_Lacks (c ∷ p) h = rw (h.0, split_of_Lacks p h.1)

  split-append : (p s : Text) → Lacks sep p → split (p ++ sep ∷ s) sep ≡ p ∷ split s sep
  unfolding split
  split-append [] s h = rw ((==_iff sep sep).1 refl)
  split-append (c ∷ p) s h = rw (h.0, split-append p s h.1)

  cons_head-append :
      (c : ℕ) (ps qs : List Text) → ps ≢ [] → cons_head c (ps ++ qs) ≡ cons_head c ps ++ qs
  cons_head-append c [] qs h = absurd (h refl)
  cons_head-append c (p ∷ ps) qs h = refl

  pub split-append_all : (s t : Text) → split (s ++ sep ∷ t) sep ≡ split s sep ++ split t sep
  unfolding split
  split-append_all [] t = rw ((==_iff sep sep).1 refl)
  split-append_all (c ∷ s) t = elim (Bool-cases (c == sep)) [
    | inl e ↦ rw (e, split-append_all s t)
    | inr e ↦
        rw (e, split-append_all s t)
          (cons_head-append c (split s sep) (split t sep) (split-ne-nil s))
  ]

  -- Splitting a join gives the parts back.
  pub split-join : (ps : List Text) → ps ≢ [] → All (Lacks sep) ps → split (join ps sep) sep ≡ ps
  unfolding join
  split-join [] h k = absurd (h refl)
  split-join (p ∷ []) h k = split_of_Lacks p k.0
  split-join (p ∷ q ∷ ps) h k =
      rw (split-append p (join (q ∷ ps) sep) k.0, split-join (q ∷ ps) (λ e. cc) k.1)

  pub join-append :
      (p : Text) (ps : List Text) → ps ≢ [] → join (p ∷ ps) sep ≡ p ++ sep ∷ join ps sep
  unfolding join
  join-append p [] h = absurd (h refl)
  join-append p (q ∷ ps) h = refl

  join-cons_head : (c : ℕ) (ps : List Text) → ps ≢ [] → join (cons_head c ps) sep ≡ c ∷ join ps sep
  unfolding join
  join-cons_head c [] h = absurd (h refl)
  join-cons_head c (p ∷ []) h = refl
  join-cons_head c (p ∷ q ∷ ps) h = refl

  -- Joining the parts of a split gives the text back.
  pub join-split : (s : Text) → join (split s sep) sep ≡ s
  unfolding split
  join-split [] = unfold join in refl
  join-split (c ∷ s) = elim (Bool-cases (c == sep)) [
    | inl e ↦
        rw (e, join-append [] (split s sep) (split-ne-nil s), join-split s)
          (ap (λ x. x ∷ s) (sym ((==_iff c sep).0 e)))
    | inr e ↦ rw (e, join-cons_head c (split s sep) (split-ne-nil s), join-split s)
  ]

pub contains_rune-Lacks : (s : Text) (r : ℕ) → contains_rune s r ≡ false → Lacks r s
unfolding contains_rune
contains_rune-Lacks [] r h = tt
contains_rune-Lacks (c ∷ s) r h = (ground arith, contains_rune-Lacks s r (ground arith))

pub Lacks-contains_rune : (s : Text) (r : ℕ) → Lacks r s → contains_rune s r ≡ false
unfolding contains_rune
Lacks-contains_rune [] r h = refl
Lacks-contains_rune (c ∷ s) r h = rw (h.0) (Lacks-contains_rune s r h.1)
