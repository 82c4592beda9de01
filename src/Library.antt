-- ===== src/Library.antt =====
-- hubabox-proj/internal/library/library.go and nick.go: the switch and the access code of the
-- read-only library, and the names that guests choose.
pub mod Codes
pub mod Hex
pub mod Nicks
use hubabox.Base.{
  ℕ, ◌+◌, Bool, true, false, not, ◌&&◌, ◌||◌, List, [], ◌∷◌, ◌≡◌, ltb, leb, ◌==◌, if◌then◌else◌,
  Result, ok, err, Error, no_rows, invalid_nick, Option, none, some, length, any, is_empty,
}
use hubabox.Text.{Text, Unicode, codes, text_eq, trim_space, to_lower, byte_len, is_space}
use hubabox.World.{World, Act, continue, ◌>>=◌, ◌>>◌, return, raise, attempt, lift}
use hubabox.World.Db.{select_kv, upsert_kv, delete_kv}
use hubabox.Auth.{or_default}
use hubabox.Auth.Base64.{hex_encode}

abbrev pub kv_enabled : Text
kv_enabled = codes "library_enabled"

abbrev pub kv_token : Text
kv_token = codes "library_token"

abbrev pub library_short_suffix_len : ℕ
library_short_suffix_len = 6

-- `IsEnabled`
unfoldable pub is_enabled : Act Bool
is_enabled = do
  r ← attempt (select_kv kv_enabled)
  v ← or_default [] r
  return (text_eq v (codes "1"))

-- `Token`
unfoldable pub token : Act Text
token = do r ← attempt (select_kv kv_token); or_default [] r

-- `Enable`: `random` is what `rand.Read` leaves in the 32 bytes.
unfoldable pub enable : Result (List ℕ) → Act Text
enable random = do
  bytes ← lift random
  upsert_kv kv_enabled (codes "1")
  upsert_kv kv_token (hex_encode bytes)
  return (hex_encode bytes)

-- `Disable`; an error of the second statement is dropped.
unfoldable pub disable : Act (Unit {0})
disable = do upsert_kv kv_enabled (codes "0"); attempt (delete_kv kv_token); return tt

abbrev pub is_hex_unit : ℕ → Bool
is_hex_unit c = (leb b'0' c && leb c b'9') || (leb b'a' c && leb c b'f')

-- `isLowerHex`
unfoldable pub is_lower_hex : Text → Bool
is_lower_hex s = not (is_empty s) && not (any (λ c. not (is_hex_unit c)) s)

-- `want[len(want)-n:]`. Where Go would cut a code point in two, this drops the rest of it: such a
-- suffix begins with a byte that no hexadecimal text has.
unfoldable pub byte_suffix : ℕ → Text → Text
byte_suffix n [] = []
byte_suffix n (c ∷ s) =
    let rest = byte_suffix n s in if leb (byte_len (c ∷ s)) n then c ∷ s else rest

-- The comparison in `MatchLibraryCode`; `ConstantTimeCompare` is equality.
unfoldable pub code_matches : Text → Text → Bool
code_matches want sub =
    if text_eq sub []
    then false
    else if byte_len sub == byte_len want
    then text_eq sub want
    else byte_len sub == library_short_suffix_len
      && leb library_short_suffix_len (byte_len want)
      && is_lower_hex sub
      && text_eq (byte_suffix library_short_suffix_len want) sub

module _ (u : Unicode) where
  -- `MatchLibraryCode` behind the queries: the stored token and whether the submission matches it.
  abbrev pub answer : Text → Text → Text × Bool
  answer want submitted =
      if text_eq want []
      then ([], false)
      else if code_matches want (to_lower u (trim_space submitted))
      then (want, true)
      else ([], false)

  -- `MatchLibraryCode`
  unfoldable pub match_library_code : Text → Act (Text × Bool)
  match_library_code submitted = do
    on ← is_enabled
    if not on then return ([], false) else do want ← token; return (answer want submitted)

  -- `ValidPlain`
  unfoldable pub valid_plain : Text → Act Bool
  valid_plain submitted = do m ← match_library_code submitted; return m.1

  -- `ValidGuest`
  unfoldable pub valid_guest : Text → Act Bool
  valid_guest cookie_token = valid_plain cookie_token

abbrev pub display_nick_min_runes : ℕ
display_nick_min_runes = 1

abbrev pub display_nick_max_runes : ℕ
display_nick_max_runes = 32

-- What `range` yields for a unit: U+FFFD for an invalid byte.
abbrev pub rune_of : ℕ → ℕ
rune_of c = if ltb c 0x110000 then c else 0xFFFD

unfoldable pub nick_rune : Unicode → ℕ → Bool
nick_rune u r =
    u.is_letter r
    || u.is_digit r
    || is_space r
    || r == b'-'
    || r == b'_'
    || r == b'.'
    || r == b'\''
    || r == b','

-- `NormalizeDisplayNick`
unfoldable pub normalize_display_nick : Unicode → Text → Result Text
normalize_display_nick u raw =
    let s = trim_space raw in
    let n = length s in
    if ltb n display_nick_min_runes || ltb display_nick_max_runes n
    then err invalid_nick
    else if any (λ c. not (nick_rune u (rune_of c))) s
    then err invalid_nick
    else ok s
