-- ===== src/Text/Bytes.antt =====
-- The bytes of a Go string, and the string of bytes, as `range` reads them.
use hubabox.Base.{
  ℕ, zero, suc, ◌+◌, ◌-◌, ◌*◌, ◌/◌, ◌%◌, ◌<◌, ◌≤◌, Bool, true, ◌&&◌, ◌||◌, List, [], ◌∷◌, ◌++◌, ◌≡◌,
  refl, ap, ◌∙◌, ltb, leb, ◌==◌, if◌then◌else◌, arith, All, Bool-cases, inl, inr,
}
use hubabox.Text.{Text}

-- The bytes of one unit: UTF-8, or the byte that it stands for.
abbrev pub utf8 : ℕ → List ℕ
utf8 c =
    if ltb c 0x80
    then c ∷ []
    else if ltb c 0x800
    then (0xC0 + c / 64) ∷ (0x80 + c % 64) ∷ []
    else if ltb c 0x10000
    then (0xE0 + c / 4096) ∷ (0x80 + c / 64 % 64) ∷ (0x80 + c % 64) ∷ []
    else if ltb c 0x110000
    then (0xF0 + c / 262_144) ∷ (0x80 + c / 4096 % 64) ∷ (0x80 + c / 64 % 64) ∷ (0x80 + c % 64) ∷ []
    else (c - 0x110000) ∷ []

unfoldable pub bytes : Text → List ℕ
bytes [] = []
bytes (c ∷ s) = utf8 c ++ bytes s

abbrev within : ℕ → ℕ → ℕ → Bool
within low high b = leb low b && leb b high

abbrev stray : ℕ → ℕ × ℕ
stray b = (0x110000 + b, 0)

-- The ranges that `utf8.DecodeRune` accepts for the second byte.
abbrev second_three : ℕ → ℕ → Bool
second_three a b =
    if a == 0xE0
    then within 0xA0 0xBF b
    else if a == 0xED
    then within 0x80 0x9F b
    else within 0x80 0xBF b

abbrev second_four : ℕ → ℕ → Bool
second_four a b =
    if a == 0xF0
    then within 0x90 0xBF b
    else if a == 0xF4
    then within 0x80 0x8F b
    else within 0x80 0xBF b

abbrev two : ℕ → List ℕ → ℕ × ℕ
two a [] = stray a
two a (b ∷ r) = if within 0x80 0xBF b then ((a - 0xC0) * 64 + (b - 0x80), 1) else stray a

abbrev three : ℕ → List ℕ → ℕ × ℕ
three a [] = stray a
three a (b ∷ []) = stray a
three a (b ∷ c ∷ r) =
    if second_three a b && within 0x80 0xBF c
    then ((a - 0xE0) * 4096 + (b - 0x80) * 64 + (c - 0x80), 2)
    else stray a

abbrev four : ℕ → List ℕ → ℕ × ℕ
four a [] = stray a
four a (b ∷ []) = stray a
four a (b ∷ c ∷ []) = stray a
four a (b ∷ c ∷ d ∷ r) =
    if second_four a b && within 0x80 0xBF c && within 0x80 0xBF d
    then ((a - 0xF0) * 262_144 + (b - 0x80) * 4096 + (c - 0x80) * 64 + (d - 0x80), 3)
    else stray a

-- `utf8.DecodeRune`: the first unit, and how many bytes of the rest belong to it.
abbrev first_unit : ℕ → List ℕ → ℕ × ℕ
first_unit a r =
    if ltb a 0x80
    then (a, 0)
    else if within 0xC2 0xDF a
    then two a r
    else if within 0xE0 0xEF a
    then three a r
    else if within 0xF0 0xF4 a
    then four a r
    else stray a

-- The first number tells how many bytes still belong to the unit before.
unfoldable pub decode_from : ℕ → List ℕ → Text
decode_from skip [] = []
decode_from (suc skip) (a ∷ r) = decode_from skip r
decode_from zero (a ∷ r) = let (c, n) = first_unit a r in c ∷ decode_from n r

-- `string(bs)`
unfoldable pub text_of_bytes : List ℕ → Text
text_of_bytes bs = decode_from 0 bs

-- A code point that UTF-8 encodes: no surrogate, and none beyond U+10FFFF.
abbrev pub IsScalar : ℕ → Type 0
IsScalar c = (ltb c 0xD800 || (leb 0xE000 c && ltb c 0x110000)) ≡ true

two_lem :
    (q m : ℕ) (r : List ℕ)
    → 2 ≤ q
    → q < 32
    → m < 64
    → first_unit (0xC0 + q) ((0x80 + m) ∷ r) ≡ (q * 64 + m, 1)
two_lem q m r a b c = ground arith

three_lem :
    (q m n : ℕ) (r : List ℕ)
    → q < 16
    → m < 64
    → n < 64
    → 32 ≤ q * 64 + m
    → (ltb (q * 64 + m) 864 || leb 896 (q * 64 + m)) ≡ true
    → first_unit (0xE0 + q) ((0x80 + m) ∷ (0x80 + n) ∷ r) ≡ (q * 4096 + m * 64 + n, 2)
three_lem q m n r a b c d e = ground arith

four_lem :
    (q m n k : ℕ) (r : List ℕ)
    → m < 64
    → n < 64
    → k < 64
    → 16 ≤ q * 64 + m
    → q * 64 + m < 272
    → first_unit (0xF0 + q) ((0x80 + m) ∷ (0x80 + n) ∷ (0x80 + k) ∷ r)
      ≡ (q * 262_144 + m * 4096 + n * 64 + k, 3)
four_lem q m n k r a b c d e = ground arith

decode_unit :
    (a c n : ℕ) (tail : List ℕ)
    → first_unit a tail ≡ (c, n)
    → decode_from 0 (a ∷ tail) ≡ c ∷ decode_from n tail
unfolding decode_from
decode_unit a c n tail e = rw e refl

scalar_head : (c : ℕ) → IsScalar c → leb 0x10000 c ≡ true → 16 ≤ c / 262_144 * 64 + c / 4096 % 64
scalar_head c h k = ground arith

scalar_bound : (c : ℕ) → IsScalar c → c / 262_144 * 64 + c / 4096 % 64 < 272
scalar_bound c h = ground arith

scalar_range :
    (c : ℕ)
    → IsScalar c
    → ltb c 0x10000 ≡ true
    → (ltb (c / 4096 * 64 + c / 64 % 64) 864 || leb 896 (c / 4096 * 64 + c / 64 % 64)) ≡ true
scalar_range c h k = ground arith

decode_from-utf8 :
    (c : ℕ) (r : List ℕ) → IsScalar c → decode_from 0 (utf8 c ++ r) ≡ c ∷ decode_from 0 r
unfolding decode_from
decode_from-utf8 c r h = elim (Bool-cases (ltb c 0x80)) [
  | inl a ↦ rw a (decode_unit c c 0 r (rw a refl))
  | inr a ↦ elim (Bool-cases (ltb c 0x800)) [
    | inl b ↦
        rw (a, b)
          (decode_unit (0xC0 + c / 64) (c / 64 * 64 + c % 64) 1 ((0x80 + c % 64) ∷ r)
              (two_lem (c / 64) (c % 64) r (ground arith) (ground arith) (omega arith))
            ∙ ap (λ x. x ∷ decode_from 0 r) (omega arith))
    | inr b ↦ elim (Bool-cases (ltb c 0x10000)) [
      | inl d ↦
          rw (a, b, d)
            (decode_unit (0xE0 + c / 4096) (c / 4096 * 4096 + c / 64 % 64 * 64 + c % 64) 2
                ((0x80 + c / 64 % 64) ∷ (0x80 + c % 64) ∷ r)
                (three_lem (c / 4096) (c / 64 % 64) (c % 64) r (ground arith) (omega arith)
                  (omega arith) (ground arith) (scalar_range c h d))
              ∙ ap (λ x. x ∷ decode_from 0 r) (omega arith))
      | inr d ↦
          let fits : ltb c 0x110000 ≡ true = ground arith in
          let q = c / 262_144 in
          rw (a, b, d, fits)
            (decode_unit (0xF0 + q) (q * 262_144 + c / 4096 % 64 * 4096 + c / 64 % 64 * 64 + c % 64)
                3 ((0x80 + c / 4096 % 64) ∷ (0x80 + c / 64 % 64) ∷ (0x80 + c % 64) ∷ r)
                (four_lem q (c / 4096 % 64) (c / 64 % 64) (c % 64) r (omega arith) (omega arith)
                  (omega arith) (scalar_head c h (ground arith)) (scalar_bound c h))
              ∙ ap (λ x. x ∷ decode_from 0 r) (omega arith))
    ]
  ]
]

-- The bytes of a valid string are read as that string.
pub text_of_bytes-bytes : (s : Text) → All IsScalar s → text_of_bytes (bytes s) ≡ s
unfolding text_of_bytes bytes decode_from
text_of_bytes-bytes [] h = refl
text_of_bytes-bytes (c ∷ s) (h, k) =
    decode_from-utf8 c (bytes s) h
    ∙ ap (λ l. c ∷ l) (unfold text_of_bytes in text_of_bytes-bytes s k)
