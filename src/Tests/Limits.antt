-- ===== src/Tests/Limits.antt =====
-- The limiter at concrete attempts.
use hubabox.Base.{◌≤◌, true, false, List, [], ◌∷◌, ◌≡◌, refl, length, keep, arith}
use hubabox.Text.{Text, codes}
use hubabox.RateLimit.{Limiter, new_limiter, is_live}
use hubabox.RateLimit.Refines.{Attempt, times, InOrder, answers, promised, answers-promised}
use hubabox.RateLimit.Window.{granted, granted-le}

limits : Unit {0}
unfolding answers promised granted hubabox.RateLimit.allow hubabox.Text.Assoc.find
    hubabox.Text.Assoc.put hubabox.Text.text_eq
limits = tt

abbrev anna : Text
anna = codes "login|10.0.0.7"

abbrev bob : Text
bob = codes "login|10.0.0.8"

-- Two attempts per ten units of time: the third of one client is refused, the other client is not
-- concerned, and the first client's window is open again later.
abbrev attempts : List Attempt
attempts = (1, anna) ∷ (2, anna) ∷ (3, anna) ∷ (3, bob) ∷ (11, anna) ∷ []

attempts-InOrder : InOrder 0 attempts
attempts-InOrder = (omega arith, (omega arith, (omega arith, (omega arith, (omega arith, tt)))))

answers_test : answers (new_limiter 2 10) attempts ≡ true ∷ true ∷ false ∷ true ∷ true ∷ []
unfolding limits
answers_test = refl

answers-promised_example : answers (new_limiter 2 10) attempts ≡ promised 2 10 [] attempts
answers-promised_example = answers-promised 2 10 0 attempts attempts-InOrder

granted-le_example :
    length (keep (is_live 10 11) (times anna (granted (new_limiter 2 10) attempts))) ≤ 2
granted-le_example =
    granted-le 2 10 0 11 attempts anna attempts-InOrder
      (omega arith, (omega arith, (omega arith, (omega arith, (omega arith, tt)))))
