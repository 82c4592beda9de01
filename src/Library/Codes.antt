-- ===== src/Library/Codes.antt =====
-- Who gets into the library.
use hubabox.Base.{
  ℕ, Bool, true, false, not, List, [], ◌≡◌, ◌≢◌, ◌⊎◌, refl, sym, ap, ◌∙◌, if◌then◌else◌, ok, some,
  arith, inl, inr, Option-cases,
}
use hubabox.Text.{
  Text, Unicode, codes, text_eq, text_eq_refl, text_eq_sound, trim_space, to_lower, byte_len,
}
use hubabox.Text.Assoc.{find, put, find-put, find-del}
use hubabox.World.{World, Act, continue-eq-ok, return, fails, later}
use hubabox.Auth.Base64.{hex_encode}
use hubabox.Library.{
  kv_enabled, kv_token, library_short_suffix_len, is_enabled, token, enable, disable, is_lower_hex,
  byte_suffix, code_matches, answer, match_library_code,
}

-- A submission in the form that is compared.
abbrev pub normal : Unicode → Text → Text
normal u s = to_lower u (trim_space s)

-- The submission is the whole code, or its last six hexadecimal digits.
abbrev pub IsCode : Text → Text → Type 0
IsCode want sub =
    (sub ≡ want)
    ⊎ ((byte_len sub ≡ library_short_suffix_len)
        × (is_lower_hex sub ≡ true)
        × (byte_suffix library_short_suffix_len want ≡ sub))

code_matches_sound : (want sub : Text) → code_matches want sub ≡ true → IsCode want sub
unfolding code_matches
code_matches_sound want sub h =
    ground
      (arith, text_eq_sound sub want, text_eq_sound (byte_suffix library_short_suffix_len want) sub)

pub is_enabled_lem :
    (w : World)
    → ((is_enabled w).1.kv ≡ w.kv)
      × ((is_enabled w).0 ≡ ok true → find kv_enabled w.kv ≡ some (codes "1"))
unfolding is_enabled
is_enabled_lem w = elim (Option-cases (find kv_enabled w.kv)) [
  | inl q ↦ (
    ground arith,
    λ e. let n : text_eq [] (codes "1") ≡ false = unfold text_eq in refl in ground arith,
  )
  | inr (v, q) ↦ (ground arith, λ e. rw q (ap some (text_eq_sound v (codes "1") (ground arith))))
]

token_lem :
    (w : World) (t : Text) → (token w).0 ≡ ok t → text_eq t [] ≡ false → find kv_token w.kv ≡ some t
unfolding token text_eq
token_lem w t e n = ground arith

-- `MatchLibraryCode` says yes only while the library is on, and only to the whole stored code or
-- its last six hexadecimal digits, after trimming and lower-casing; the token that it hands to the
-- caller is then the stored one, which is not empty.
pub match_library_code_sound :
    (u : Unicode) (submitted : Text) (w : World) {tok : Text}
    → (match_library_code u submitted w).0 ≡ ok (tok, true)
    → (find kv_enabled w.kv ≡ some (codes "1"))
      × (find kv_token w.kv ≡ some tok)
      × (tok ≢ [])
      × IsCode tok (normal u submitted)
unfolding match_library_code
match_library_code_sound u submitted w {tok} e =
    let (on, e₁, e₂) = continue-eq-ok (is_enabled w) _ e in
    let (is_on, e₃) = switched on _ (is_enabled w).1 e₂ in
    let (want, e₄, e₅) = continue-eq-ok (token (is_enabled w).1) _ e₃ in
    let (n, m, same) = compared want e₅ in
    let (kept, found) = is_enabled_lem w in
    let e₁' : (is_enabled w).0 ≡ ok true = e₁ ∙ ap ok is_on in
    let here : find kv_token (is_enabled w).1.kv ≡ some want = token_lem _ want e₄ n in
    (
      found e₁',
      rw (← kept) (here ∙ ap some same),
      λ q. let n' : text_eq tok [] ≡ false = rw (← same) n in false_not_true (rw q at n'),
      rw (← same) (code_matches_sound want (normal u submitted) m),
    )
  where
    switched :
        (on : Bool) (k : Act (Text × Bool)) (v : World)
        → ((if not on then return ([], false) else k) v).0 ≡ ok (tok, true)
        → (on ≡ true) × ((k v).0 ≡ ok (tok, true))
    switched true k v e = (refl, e)
    switched false k v e = cc

    compared :
        (want : Text)
        → ok (answer u want submitted) ≡ ok (tok, true)
        → (text_eq want [] ≡ false)
          × (code_matches want (to_lower u (trim_space submitted)) ≡ true)
          × (want ≡ tok)
    compared want e = (ground arith, ground arith, ground arith)

    false_not_true : {P : Type 0} → text_eq [] [] ≡ false → P
    false_not_true e = unfold text_eq in cc

-- With the library on, a code that is stored opens it: the whole code, and its last six digits.
pub match_library_code_complete :
    (u : Unicode) (submitted want : Text) (w : World)
    → w.faults ≡ []
    → find kv_enabled w.kv ≡ some (codes "1")
    → find kv_token w.kv ≡ some want
    → text_eq want [] ≡ false
    → code_matches want (normal u submitted) ≡ true
    → (match_library_code u submitted w).0 ≡ ok (want, true)
unfolding match_library_code is_enabled token fails later text_eq
match_library_code_complete u submitted want w f on stored n m =
    rw (f, on, stored, text_eq_refl (codes "1"), n, m)

keys_differ : text_eq kv_token kv_enabled ≡ false
unfolding text_eq
keys_differ = refl

off_ne_on : some (codes "0") ≢ some (codes "1")
off_ne_on h = ground arith

disable_lem :
    (w : World) → (disable w).0 ≡ ok tt → find kv_enabled (disable w).1.kv ≡ some (codes "0")
unfolding disable
disable_lem w d = ground (
  arith,
  find-put kv_enabled kv_enabled (codes "0") w.kv,
  text_eq_refl kv_enabled,
  keys_differ,
  find-del kv_token kv_enabled (put kv_enabled (codes "0") w.kv),
)

-- After `Disable`, if its first statement did not fail, no submission gets in, even where the
-- deletion of the token failed.
pub disable-locked :
    (u : Unicode) (submitted : Text) (w v : World) (tok : Text)
    → (disable w).0 ≡ ok tt
    → v.kv ≡ (disable w).1.kv
    → (match_library_code u submitted v).0 ≢ ok (tok, true)
disable-locked u submitted w v tok d s e =
    let (on, found, some_token, matching) = match_library_code_sound u submitted v e in
    let off : find kv_enabled v.kv ≡ some (codes "0") = rw s (disable_lem w d) in
    off_ne_on (sym off ∙ on)

-- `Enable` leaves the library on, with the new code stored.
pub enable_lem :
    (bytes : List ℕ) (w : World) {tok : Text}
    → (enable (ok bytes) w).0 ≡ ok tok
    → (tok ≡ hex_encode bytes)
      × (find kv_enabled (enable (ok bytes) w).1.kv ≡ some (codes "1"))
      × (find kv_token (enable (ok bytes) w).1.kv ≡ some (hex_encode bytes))
unfolding enable
enable_lem bytes w e =
    let m = put kv_enabled (codes "1") w.kv in
    let on = find-put kv_enabled kv_enabled (codes "1") w.kv in
    let other = find-put kv_token kv_enabled (hex_encode bytes) m in
    let here = find-put kv_token kv_token (hex_encode bytes) m in
    (
      ground arith,
      ground (arith, on, other, text_eq_refl kv_enabled, keys_differ),
      ground (arith, here, text_eq_refl kv_token),
    )
