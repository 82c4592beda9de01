-- ===== src/Text/Assoc.antt =====
-- Maps with text keys, as association lists.
use hubabox.Base.{List, [], ◌∷◌, ◌≡◌, refl, if◌then◌else◌, Option, none, some, arith}
use hubabox.Text.{Text, text_eq, text_eq_iff}

-- The value, or the default of a missing key.
abbrev pub get_or {ℓ} : {V : Type ℓ} → Option V → V → V
get_or none d = d
get_or (some v) d = v

module _ {ℓ} {V : Type ℓ} where
  unfoldable pub find : Text → List (Text × V) → Option V
  find k [] = none
  find k ((j, v) ∷ m) = let rest = find k m in if text_eq j k then some v else rest

  unfoldable pub put : Text → V → List (Text × V) → List (Text × V)
  put k v [] = (k, v) ∷ []
  put k v ((j, w) ∷ m) = let rest = put k v m in if text_eq j k then (k, v) ∷ m else (j, w) ∷ rest

  unfoldable pub del : Text → List (Text × V) → List (Text × V)
  del k [] = []
  del k ((j, w) ∷ m) = let rest = del k m in if text_eq j k then rest else (j, w) ∷ rest

  abbrev pub find_or : V → Text → List (Text × V) → V
  find_or d k m = get_or (find k m) d

  pub find-put :
      (k j : Text) (v : V) (m : List (Text × V))
      → find j (put k v m) ≡ (if text_eq k j then some v else find j m)
  unfolding find put
  find-put k j v [] = refl
  find-put k j v ((i, w) ∷ m) =
      ground (arith, text_eq_iff k j, text_eq_iff i k, text_eq_iff i j, find-put k j v m)

  pub find-del :
      (k j : Text) (m : List (Text × V))
      → find j (del k m) ≡ (if text_eq k j then none else find j m)
  unfolding find del
  find-del k j [] = ground arith
  find-del k j ((i, w) ∷ m) =
      ground (arith, text_eq_iff k j, text_eq_iff i k, text_eq_iff i j, find-del k j m)
