-- ===== src/Tests/Access.antt =====
-- Passwords, sessions, access codes and display names at concrete inputs.
use hubabox.Base.{
  ℕ, ◌*◌, ◌+◌, ◌<◌, zero, suc, true, ◌∷◌, List, [], ◌≡◌, ◌≢◌, ◌↔◌, refl, ok, err, invalid_password,
  some, length, All, arith, if◌then◌else◌, ok-injective,
}
use hubabox.Text.{Text, codes, text_eq, text_eq_refl, ascii, ascii_lower, trim_space}
use hubabox.Text.Assoc.{find}
use hubabox.World.{World, second, now_seconds, fails}
use hubabox.Auth.{
  Bcrypt, session_lifetime, set_admin_password, check_admin_password, has_admin_password,
  create_session, validate_session, delete_session, delete_expired_sessions,
}
use hubabox.Auth.Base64.{base64_raw_url}
use hubabox.Auth.Sessions.{IsLive, validate_session_iff, create_session-lifetime}
use hubabox.Auth.Passwords.{BcryptLaws, set_admin_password-check}
use hubabox.Library.{
  kv_enabled, kv_token, library_short_suffix_len, enable, disable, match_library_code, byte_suffix,
  normalize_display_nick, display_nick_min_runes, display_nick_max_runes, nick_rune, rune_of,
}
use hubabox.Library.Codes.{IsCode, normal, match_library_code_sound}
use hubabox.Library.Hex.{LowersAscii, enable-opens}

access : Unit {0}
unfolding set_admin_password check_admin_password has_admin_password create_session validate_session
    delete_session delete_expired_sessions enable disable match_library_code byte_suffix
    normalize_display_nick hubabox.Library.is_enabled hubabox.Library.token
    hubabox.Library.code_matches hubabox.Library.is_lower_hex nick_rune trim_space
    hubabox.Text.to_lower hubabox.Auth.check_session base64_raw_url hubabox.Auth.Base64.hex_encode
    fails hubabox.World.later find hubabox.Text.Assoc.put hubabox.Text.Assoc.del text_eq
access = tt

abbrev empty : World
empty = record {
  kv = [];
  sessions = [];
  messages = [];
  next_id = 1;
  disk = [];
  now = 5 * second;
  faults = [];
}

-- A function that satisfies what the code relies on: the hash keeps the password.
abbrev plain_hash : Bcrypt
plain_hash = record {
  generate = λ plain salt. ok (b'$' ∷ plain);
  compare = λ hash other. text_eq hash (b'$' ∷ other);
}

plain_hash-Laws : BcryptLaws plain_hash
unfolding text_eq
plain_hash-Laws = record {
  matches = λ plain salt {hash} e. rw (← ok-injective e) (text_eq_refl (b'$' ∷ plain));
  not_empty = λ plain salt {hash} e. rw (← ok-injective e) refl;
}

abbrev password : Text
password = codes "open"

abbrev set_up : World
set_up = (set_admin_password plain_hash [] password empty).1

set_admin_password-check_example :
    (hash : Text) × (plain_hash.generate password [] ≡ ok hash)
    × ((has_admin_password set_up).0 ≡ ok true)
    × ((check_admin_password plain_hash password set_up).0 ≡ ok tt)
    × ((check_admin_password plain_hash (codes "shut") set_up).0
        ≡ (if plain_hash.compare hash (codes "shut") then ok tt else err invalid_password))
unfolding access
set_admin_password-check_example =
    set_admin_password-check plain_hash [] password (codes "shut") empty set_up plain_hash-Laws refl
      refl refl

abbrev made : World
made = (create_session (ok (1 ∷ 2 ∷ 3 ∷ [])) empty).1

abbrev session : Text
session = codes "AQID"

create_session_test :
    (create_session (ok (1 ∷ 2 ∷ 3 ∷ [])) empty).0 ≡ ok (session, 5 * second + session_lifetime)
unfolding access
create_session_test = refl

made-IsLive : IsLive made session
unfolding access
made-IsLive =
    (create_session-lifetime 1 (2 ∷ 3 ∷ []) empty made create_session_test refl).1 (omega arith)

validate_session_iff_example : ((validate_session session made).0 ≡ ok true) ↔ IsLive made session
unfolding access
validate_session_iff_example = validate_session_iff session made refl

abbrev repeat : ℕ → ℕ → List ℕ
repeat zero b = []
repeat (suc n) b = b ∷ repeat n b

abbrev bytes : List ℕ
bytes = repeat 32 171

bytes_small : All (λ b. b < 256) bytes
bytes_small = ground arith

abbrev opened : World
opened = (enable (ok bytes) empty).1

abbrev code : Text
code = codes "abababababababababababababababababababababababababababababababab"

enable_test : (enable (ok bytes) empty).0 ≡ ok code
unfolding access
enable_test = refl

ascii-LowersAscii : LowersAscii ascii
ascii-LowersAscii c h = refl

enable-opens_example :
    ((match_library_code ascii code opened).0 ≡ ok (code, true))
    × ((match_library_code ascii (byte_suffix library_short_suffix_len code) opened).0
        ≡ ok (code, true))
    × (length code ≡ 64)
unfolding access
enable-opens_example =
    enable-opens ascii bytes empty opened ascii-LowersAscii bytes_small refl enable_test refl refl

match_library_code_sound_example :
    (find kv_enabled opened.kv ≡ some (codes "1"))
    × (find kv_token opened.kv ≡ some code)
    × (code ≢ [])
    × IsCode code (normal ascii (codes " ABABAB "))
unfolding access
match_library_code_sound_example = match_library_code_sound ascii (codes " ABABAB ") opened refl

abbrev nick : Text
nick = codes " Anna-Lena B. "
