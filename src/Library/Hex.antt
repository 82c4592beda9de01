-- ===== src/Library/Hex.antt =====
-- The codes that `Enable` makes: sixty-four hexadecimal digits, which the comparison leaves alone.
use hubabox.Base.{
  ℕ, ◌*◌, ◌/◌, ◌%◌, ◌≤◌, ◌<◌, true, false, not, List, [], ◌∷◌, ◌≡◌, refl, ap₂, leb, ok, some, arith,
  Bool-cases, inl, inr, All, length, any,
}
use hubabox.Text.{
  Text, Unicode, codes, text_eq, text_eq_refl, to_lower, byte_len, is_space, ascii_lower,
}
use hubabox.Text.Trim.{trim_space_of_IsTrimmed, no_space-IsTrimmed}
use hubabox.Text.Assoc.{find}
use hubabox.World.{World}
use hubabox.Auth.Base64.{hex_encode, hex_digit}
use hubabox.Library.{
  kv_enabled, kv_token, library_short_suffix_len, enable, is_lower_hex, is_hex_unit, byte_suffix,
  code_matches, match_library_code,
}
use hubabox.Library.Codes.{normal, enable_lem, match_library_code_complete}

-- The tables of `unicode` agree with ASCII on lower case.
abbrev pub LowersAscii : Unicode → Type 0
LowersAscii u = (c : ℕ) → c < 128 → u.lower c ≡ ascii_lower c

-- A lower-case hexadecimal digit.
abbrev pub IsHex : ℕ → Type 0
IsHex c = is_hex_unit c ≡ true

hex_digit-IsHex : (n : ℕ) → n < 16 → IsHex (hex_digit n)
hex_digit-IsHex n h = ground arith

pub hex_encode-IsHex : (bytes : List ℕ) → All (λ b. b < 256) bytes → All IsHex (hex_encode bytes)
unfolding hex_encode
hex_encode-IsHex [] h = tt
hex_encode-IsHex (b ∷ bytes) h = (
  hex_digit-IsHex (b / 16) (omega (arith, h.0)),
  (hex_digit-IsHex (b % 16) (omega arith), hex_encode-IsHex bytes h.1),
)

pub IsHex_lem : (c : ℕ) → IsHex c → (c < 128) × (is_space c ≡ false) × (ascii_lower c ≡ c)
unfolding is_space
IsHex_lem c h = ground arith

pub IsHex-not_space : (s : Text) → All IsHex s → All (λ c. is_space c ≡ false) s
IsHex-not_space [] h = tt
IsHex-not_space (c ∷ s) h = ((IsHex_lem c h.0).1, IsHex-not_space s h.1)

to_lower_hex : (u : Unicode) (s : Text) → LowersAscii u → All IsHex s → to_lower u s ≡ s
unfolding to_lower
to_lower_hex u [] a h = refl
to_lower_hex u (c ∷ s) a h =
    let (small, _, same) = IsHex_lem c h.0 in
    ap₂ (λ x y. x ∷ y) (ground (arith, a c small)) (to_lower_hex u s a h.1)

normal_hex : (u : Unicode) (s : Text) → LowersAscii u → All IsHex s → normal u s ≡ s
normal_hex u s a h =
    rw (trim_space_of_IsTrimmed s (no_space-IsTrimmed s (IsHex-not_space s h)))
      (to_lower_hex u s a h)

byte_len_hex : (s : Text) → All IsHex s → byte_len s ≡ length s
byte_len_hex [] h = refl
byte_len_hex (c ∷ s) h = let (small, _, _) = IsHex_lem c h.0 in ground (arith, byte_len_hex s h.1)

pub length-hex_encode : (bytes : List ℕ) → length (hex_encode bytes) ≡ 2 * length bytes
unfolding hex_encode
length-hex_encode [] = refl
length-hex_encode (b ∷ bytes) = omega (arith, length-hex_encode bytes)

byte_suffix-IsHex :
    (n : ℕ) (s : Text)
    → All IsHex s
    → n ≤ length s
    → All IsHex (byte_suffix n s) × (length (byte_suffix n s) ≡ n)
unfolding byte_suffix
byte_suffix-IsHex n [] h le = (tt, omega arith)
byte_suffix-IsHex n (c ∷ s) h le = elim (Bool-cases (leb (byte_len (c ∷ s)) n)) [
  | inl e ↦ rw e (h, let len = byte_len_hex (c ∷ s) h in ground arith)
  | inr e ↦ rw e (byte_suffix-IsHex n s h.1 (let len = byte_len_hex (c ∷ s) h in ground arith))
]

pub any-not_hex : (s : Text) → All IsHex s → any (λ c. not (is_hex_unit c)) s ≡ false
any-not_hex [] h = refl
any-not_hex (c ∷ s) h = rw (h.0, any-not_hex s h.1)

is_lower_hex_of_IsHex : (s : Text) → All IsHex s → 0 < length s → is_lower_hex s ≡ true
unfolding is_lower_hex
is_lower_hex_of_IsHex [] h n = elim n [ ]
is_lower_hex_of_IsHex (c ∷ s) h n = rw (any-not_hex (c ∷ s) h)

pub text_eq_nil_of_length : (s : Text) → 0 < length s → text_eq s [] ≡ false
unfolding text_eq
text_eq_nil_of_length [] n = elim n [ ]
text_eq_nil_of_length (c ∷ s) n = refl

whole_matches : (want : Text) → 0 < length want → code_matches want want ≡ true
unfolding code_matches
whole_matches want n = ground (arith, text_eq_nil_of_length want n, text_eq_refl want)

suffix_matches :
    (want : Text)
    → All IsHex want
    → 6 < length want
    → code_matches want (byte_suffix library_short_suffix_len want) ≡ true
unfolding code_matches
suffix_matches want h n =
    let sfx = byte_suffix library_short_suffix_len want in
    let (sfx_hex, sfx_len) = byte_suffix-IsHex library_short_suffix_len want h (omega arith) in
    ground (
      arith,
      text_eq_nil_of_length sfx,
      text_eq_refl sfx,
      byte_len_hex sfx sfx_hex,
      byte_len_hex want h,
      is_lower_hex_of_IsHex sfx sfx_hex,
    )

-- If the tables of `unicode` agree with ASCII on lower case: once `Enable` has succeeded with 32
-- random bytes, and while nothing fails, its code of 64 digits opens the library, and so do its
-- last six digits; both hand out the whole code.
pub enable-opens :
    (u : Unicode) (bytes : List ℕ) (w v : World) {tok : Text}
    → LowersAscii u
    → All (λ b. b < 256) bytes
    → length bytes ≡ 32
    → (enable (ok bytes) w).0 ≡ ok tok
    → v.kv ≡ (enable (ok bytes) w).1.kv
    → v.faults ≡ []
    → ((match_library_code u tok v).0 ≡ ok (tok, true))
      × ((match_library_code u (byte_suffix library_short_suffix_len tok) v).0 ≡ ok (tok, true))
      × (length tok ≡ 64)
enable-opens u bytes w v {tok} ascii_law small count e s f =
    let (same, on, stored) = enable_lem bytes w e in
    let hex : All IsHex tok = rw same (hex_encode-IsHex bytes small) in
    let len : length tok ≡ 64 = rw same (omega (arith, length-hex_encode bytes)) in
    let on' : find kv_enabled v.kv ≡ some (codes "1") = rw s on in
    let stored' : find kv_token v.kv ≡ some tok = rw (s, same) stored in
    let not_empty = text_eq_nil_of_length tok (omega arith) in
    let sfx = byte_suffix library_short_suffix_len tok in
    let sfx_hex = (byte_suffix-IsHex library_short_suffix_len tok hex (omega arith)).0 in
    (
      match_library_code_complete u tok tok v f on' stored' not_empty
          (rw (normal_hex u tok ascii_law hex) (whole_matches tok (omega arith))),
      match_library_code_complete u sfx tok v f on' stored' not_empty
          (rw (normal_hex u sfx ascii_law sfx_hex) (suffix_matches tok hex (omega arith))),
      len,
    )
