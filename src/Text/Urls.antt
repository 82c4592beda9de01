-- ===== src/Text/Urls.antt =====
-- `url.PathEscape`, `url.PathUnescape` and `url.QueryEscape`, which work on bytes.
use hubabox.Base.{
  ℕ, zero, suc, ◌+◌, ◌-◌, ◌*◌, ◌/◌, ◌%◌, ◌<◌, Bool, true, false, ◌&&◌, ◌||◌, List, [], ◌∷◌, ◌≡◌,
  refl, ap, ltb, leb, ◌==◌, if◌then◌else◌, any, arith, All, All-append, Bool-cases, inl, inr,
  Result, ok, err, bad_path, ◌>>=◌, Option, none, some,
}
use hubabox.Text.{Text, codes}
use hubabox.Text.Split.{Lacks}
use hubabox.Text.Bytes.{bytes, utf8, text_of_bytes, text_of_bytes-bytes, IsScalar}

abbrev between : ℕ → ℕ → ℕ → Bool
between low high c = leb low c && leb c high

-- The bytes that `PathEscape` leaves alone.
abbrev pub is_unescaped : ℕ → Bool
is_unescaped c =
    between b'a' b'z' c
    || between b'A' b'Z' c
    || between b'0' b'9' c
    || any (λ d. c == d) (codes "-_.~$&+=:@")

abbrev pub upper_hex : ℕ → ℕ
upper_hex n = if ltb n 10 then b'0' + n else b'A' + (n - 10)

unfoldable pub escape : List ℕ → Text
escape [] = []
escape (b ∷ bs) =
    let rest = escape bs in
    if is_unescaped b then b ∷ rest else b'%' ∷ upper_hex (b / 16) ∷ upper_hex (b % 16) ∷ rest

-- `url.PathEscape`
unfoldable pub path_escape : Text → Text
path_escape s = escape (bytes s)

abbrev is_query_unescaped : ℕ → Bool
is_query_unescaped c =
    between b'a' b'z' c
    || between b'A' b'Z' c
    || between b'0' b'9' c
    || any (λ d. c == d) (codes "-_.~")

unfoldable pub query_escape_bytes : List ℕ → Text
query_escape_bytes [] = []
query_escape_bytes (b ∷ bs) =
    let rest = query_escape_bytes bs in
    if is_query_unescaped b
    then b ∷ rest
    else if b == b' '
    then b'+' ∷ rest
    else b'%' ∷ upper_hex (b / 16) ∷ upper_hex (b % 16) ∷ rest

-- `url.QueryEscape`
unfoldable pub query_escape : Text → Text
query_escape s = query_escape_bytes (bytes s)

abbrev hex_value : ℕ → Option ℕ
hex_value c =
    if between b'0' b'9' c
    then some (c - b'0')
    else if between b'a' b'f' c
    then some (c - b'a' + 10)
    else if between b'A' b'F' c
    then some (c - b'A' + 10)
    else none

abbrev pair : Option ℕ → Option ℕ → Option ℕ
pair none low = none
pair (some high) none = none
pair (some high) (some low) = some (high * 16 + low)

abbrev hex_pair : List ℕ → Option ℕ
hex_pair [] = none
hex_pair (a ∷ []) = none
hex_pair (a ∷ b ∷ r) = pair (hex_value a) (hex_value b)

-- The next byte, if there is one, and how many of the bytes behind belong to it.
abbrev next_byte : ℕ → List ℕ → Option ℕ × ℕ
next_byte c r = if c == b'%' then (hex_pair r, 2) else (some c, 0)

abbrev prepend : Option ℕ → Result (List ℕ) → Result (List ℕ)
prepend none rest = err bad_path
prepend (some b) (err e) = err e
prepend (some b) (ok bs) = ok (b ∷ bs)

unfoldable pub unescape_from : ℕ → List ℕ → Result (List ℕ)
unescape_from skip [] = ok []
unescape_from (suc skip) (c ∷ r) = unescape_from skip r
unescape_from zero (c ∷ r) = let (b, n) = next_byte c r in prepend b (unescape_from n r)

-- `url.PathUnescape`
unfoldable pub path_unescape : Text → Result Text
path_unescape s = unescape_from 0 (bytes s) >>= λ bs. ok (text_of_bytes bs)

hex_value-upper_hex : (n : ℕ) → n < 16 → hex_value (upper_hex n) ≡ some n
hex_value-upper_hex n h = ground arith

escape_hex :
    (b : ℕ) (r : List ℕ) → b < 256 → hex_pair (upper_hex (b / 16) ∷ upper_hex (b % 16) ∷ r) ≡ some b
escape_hex b r h =
    rw (hex_value-upper_hex (b / 16) (omega arith), hex_value-upper_hex (b % 16) (omega arith))
      (ap some (omega arith))

unescape_from-escape : (bs : List ℕ) → All (λ b. b < 256) bs → unescape_from 0 (escape bs) ≡ ok bs
unfolding escape unescape_from
unescape_from-escape [] h = refl
unescape_from-escape (b ∷ bs) (h, k) = elim (Bool-cases (is_unescaped b)) [
  | inl p ↦
      let plain : (b == b'%') ≡ false = ground arith in
      rw (p, plain, unescape_from-escape bs k) refl
  | inr p ↦ rw (p, escape_hex b (escape bs) h, unescape_from-escape bs k) refl
]

escape-bytes : (bs : List ℕ) → All (λ b. b < 256) bs → bytes (escape bs) ≡ escape bs
unfolding escape bytes
escape-bytes [] h = refl
escape-bytes (b ∷ bs) (h, k) = elim (Bool-cases (is_unescaped b)) [
  | inl p ↦ let low : ltb b 0x80 ≡ true = ground arith in rw (p, low, escape-bytes bs k) refl
  | inr p ↦
      let high : ltb (upper_hex (b / 16)) 0x80 ≡ true = ground arith in
      let less : ltb (upper_hex (b % 16)) 0x80 ≡ true = ground arith in
      rw (p, high, less, escape-bytes bs k) refl
]

utf8-All : (c : ℕ) → IsScalar c → All (λ b. b < 256) (utf8 c)
utf8-All c h = ground arith

pub bytes-All : (s : Text) → All IsScalar s → All (λ b. b < 256) (bytes s)
unfolding bytes
bytes-All [] h = tt
bytes-All (c ∷ s) (h, k) =
    All-append (λ b. b < 256) (utf8 c) (bytes s) (utf8-All c h) (bytes-All s k)

-- What `PathEscape` makes of a valid string, `PathUnescape` reads as that string.
pub path_unescape-path_escape : (s : Text) → All IsScalar s → path_unescape (path_escape s) ≡ ok s
unfolding path_unescape path_escape
path_unescape-path_escape s h =
    let small = bytes-All s h in
    rw (escape-bytes (bytes s) small, unescape_from-escape (bytes s) small)
      (ap ok (text_of_bytes-bytes s h))

utf8-Lacks : (c : ℕ) → IsScalar c → (c == b'%') ≡ false → All (λ b. (b == b'%') ≡ false) (utf8 c)
utf8-Lacks c h k = ground arith

bytes-Lacks : (s : Text) → All IsScalar s → Lacks b'%' s → All (λ b. (b == b'%') ≡ false) (bytes s)
unfolding bytes
bytes-Lacks [] h k = tt
bytes-Lacks (c ∷ s) (h, hs) (k, ks) =
    All-append (λ b. (b == b'%') ≡ false) (utf8 c) (bytes s) (utf8-Lacks c h k)
      (bytes-Lacks s hs ks)

unescape_from_plain : (bs : List ℕ) → All (λ b. (b == b'%') ≡ false) bs → unescape_from 0 bs ≡ ok bs
unfolding unescape_from
unescape_from_plain [] h = refl
unescape_from_plain (b ∷ bs) (p, h) = rw (p, unescape_from_plain bs h) refl

-- `PathUnescape` leaves a valid string without a percent sign alone.
pub path_unescape_plain : (s : Text) → All IsScalar s → Lacks b'%' s → path_unescape s ≡ ok s
unfolding path_unescape
path_unescape_plain s h k =
    rw (unescape_from_plain (bytes s) (bytes-Lacks s h k)) (ap ok (text_of_bytes-bytes s h))
