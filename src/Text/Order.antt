-- ===== src/Text/Order.antt =====
-- The order of Go strings, which compares bytes.
use hubabox.Base.{
  ℕ, Bool, true, false, List, [], ◌∷◌, ◌≡◌, refl, ltb, ◌==◌, if◌then◌else◌, arith, IsOrder,
}
use hubabox.Text.{Text}
use hubabox.Text.Bytes.{bytes}

unfoldable pub bytes_less : List ℕ → List ℕ → Bool
bytes_less [] [] = false
bytes_less [] (d ∷ t) = true
bytes_less (c ∷ s) [] = false
bytes_less (c ∷ s) (d ∷ t) = let rest = bytes_less s t in if c == d then rest else ltb c d

-- `s < t`
unfoldable pub text_less : Text → Text → Bool
text_less s t = bytes_less (bytes s) (bytes t)

bytes_less_asym : (s t : List ℕ) → bytes_less s t ≡ true → bytes_less t s ≡ false
unfolding bytes_less
bytes_less_asym [] [] h = refl
bytes_less_asym [] (d ∷ t) h = refl
bytes_less_asym (c ∷ s) [] h = cc
bytes_less_asym (c ∷ s) (d ∷ t) h = ground (arith, bytes_less_asym s t)

bytes_less_trans :
    (a b c : List ℕ) → bytes_less b a ≡ false → bytes_less c b ≡ false → bytes_less c a ≡ false
unfolding bytes_less
bytes_less_trans [] [] [] h k = refl
bytes_less_trans [] [] (z ∷ c) h k = refl
bytes_less_trans [] (y ∷ b) [] h k = cc
bytes_less_trans [] (y ∷ b) (z ∷ c) h k = refl
bytes_less_trans (x ∷ a) [] [] h k = cc
bytes_less_trans (x ∷ a) [] (z ∷ c) h k = cc
bytes_less_trans (x ∷ a) (y ∷ b) [] h k = cc
bytes_less_trans (x ∷ a) (y ∷ b) (z ∷ c) h k = ground (arith, bytes_less_trans a b c)

pub text_less-IsOrder : IsOrder text_less
unfolding text_less
text_less-IsOrder = record {
  asym = λ s t. bytes_less_asym (bytes s) (bytes t);
  trans = λ s t v. bytes_less_trans (bytes s) (bytes t) (bytes v);
}
