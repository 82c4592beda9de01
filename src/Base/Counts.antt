-- ===== src/Base/Counts.antt =====
-- How many items of a loop went well, and how many did not.
use Prim.Native.Nat.{ℕ, suc, ◌+◌}
use mathlib.Core.Path.{◌≡◌}
use mathlib.Core.Bool.{Bool, true, false}
use native.Mathlib.Omega.{arith}

abbrev pub Tally : Type 0
Tally = ℕ × ℕ

abbrev pub count : Bool → Tally → Tally
count true (good, bad) = (suc good, bad)
count false (good, bad) = (good, suc bad)

pub count_sum : (b : Bool) (t : Tally) → (count b t).0 + (count b t).1 ≡ suc (t.0 + t.1)
count_sum true t = omega arith
count_sum false t = omega arith
