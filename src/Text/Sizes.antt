-- ===== src/Text/Sizes.antt =====
-- Sizes with one decimal, as `fmt.Sprintf("%.1f", …)` prints them.
use hubabox.Base.{ℕ, ◌+◌, ◌*◌, ◌/◌, ◌%◌, ◌≤◌, ◌++◌, ltb, if◌then◌else◌, arith}
use hubabox.Text.{Text, codes}
use hubabox.Text.Decimal.{itoa}

-- The nearest number of tenths of a unit, the even one if two are nearest; the quotient by a power
-- of two is exact in a float64 for sizes below 2^53.
unfoldable pub tenths : ℕ → ℕ → ℕ
tenths n unit =
    let q = n * 10 / unit in
    let r = n * 10 % unit in
    if ltb (r * 2) unit then q else if ltb unit (r * 2) then q + 1 else q + q % 2

unfoldable pub one_decimal : ℕ → ℕ → Text
one_decimal n unit = itoa (tenths n unit / 10) ++ codes "." ++ itoa (tenths n unit % 10)

-- The size with one of four suffixes.
abbrev pub size_text : Text → Text → Text → Text → ℕ → Text
size_text b k m g n =
    if ltb n 1024
    then itoa n ++ b
    else if ltb n 1_048_576
    then one_decimal n 1024 ++ k
    else if ltb n 1_073_741_824
    then one_decimal n 1_048_576 ++ m
    else one_decimal n 1_073_741_824 ++ g

-- A size in KiB, MiB or GiB is printed within half a tenth of its unit.
pub tenths_near :
    (n : ℕ)
    → (tenths n 1024 * 1024 * 2 ≤ n * 20 + 1024)
      × (n * 20 ≤ tenths n 1024 * 1024 * 2 + 1024)
      × (tenths n 1_048_576 * 1_048_576 * 2 ≤ n * 20 + 1_048_576)
      × (n * 20 ≤ tenths n 1_048_576 * 1_048_576 * 2 + 1_048_576)
      × (tenths n 1_073_741_824 * 1_073_741_824 * 2 ≤ n * 20 + 1_073_741_824)
      × (n * 20 ≤ tenths n 1_073_741_824 * 1_073_741_824 * 2 + 1_073_741_824)
unfolding tenths
tenths_near n = (ground arith, ground arith, ground arith, ground arith, ground arith, ground arith)
