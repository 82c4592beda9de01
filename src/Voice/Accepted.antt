-- ===== src/Voice/Accepted.antt =====
-- Every extension that is recognised is one that the chat stores and serves.
use hubabox.Base.{
  ℕ, zero, suc, Bool, true, false, not, ◌≡◌, refl, ap, List, [], ◌∷◌, ◌++◌, any, take, drop, length,
  ltb, All, arith, Bool-cases, inl, inr,
}
use hubabox.Text.{Text, codes, text_eq}
use hubabox.Library.{is_hex_unit}
use hubabox.Chat.{is_voice_basename, voice_extensions}
use hubabox.Voice.{
  switch, sniff_cases, riff_extension, sniff_voice_extension, voice_content_type_for_ext,
}

-- An extension of the pattern for voice files that has a content type.
abbrev pub IsServed : Text → Type 0
IsServed e =
    (any (text_eq e) voice_extensions ≡ true) × (text_eq (voice_content_type_for_ext e) [] ≡ false)

abbrev pub Known : Text → Type 0
Known e = text_eq e [] ≡ false → IsServed e

pub empty-Known : Known []
unfolding text_eq
empty-Known e = cc

pub literals :
    IsServed (codes ".flac")
    × IsServed (codes ".ogg")
    × IsServed (codes ".mp3")
    × IsServed (codes ".caf")
    × IsServed (codes ".webm")
    × IsServed (codes ".wav")
    × IsServed (codes ".m4a")
    × IsServed (codes ".aac")
    × IsServed (codes ".amr")
unfolding text_eq voice_content_type_for_ext
literals = (
  (refl, refl),
  (refl, refl),
  (refl, refl),
  (refl, refl),
  (refl, refl),
  (refl, refl),
  (refl, refl),
  (refl, refl),
  (refl, refl),
)

pub switch-Known : (cases : List (Bool × Text)) → All (λ c. Known c.1) cases → Known (switch cases)
switch-Known [] h = empty-Known
switch-Known ((true, e) ∷ cases) h = h.0
switch-Known ((false, e) ∷ cases) h = switch-Known cases h.1

riff_extension-Known : (bytes : List ℕ) → Known (riff_extension bytes)
riff_extension-Known bytes =
    let (flac, ogg, mp3, caf, webm, wav, m4a, aac, amr) = literals in
    elim (Bool-cases (text_eq (take 4 (drop 8 bytes)) (codes "WAVE"))) [
      | inl w ↦ rw w (λ _. wav)
      | inr w ↦ elim (Bool-cases (text_eq (take 4 (drop 8 bytes)) (codes "WEBM"))) [
        | inl v ↦ rw (w, v) (λ _. webm)
        | inr v ↦ rw (w, v) empty-Known
      ]
    ]

pub sniff_voice_extension-Known : (bytes : List ℕ) → Known (sniff_voice_extension bytes)
unfolding sniff_voice_extension
sniff_voice_extension-Known bytes =
    let (flac, ogg, mp3, caf, webm, wav, m4a, aac, amr) = literals in
    let known = switch-Known (sniff_cases bytes) (
      λ _. flac,
      (
        λ _. ogg,
        (
          λ _. mp3,
          (
            λ _. caf,
            (
              λ _. webm,
              (riff_extension-Known bytes, (λ _. m4a, (λ _. aac, (λ _. mp3, (λ _. amr, tt))))),
            ),
          ),
        ),
      ),
    ) in
    elim (Bool-cases (ltb (length bytes) 4)) [
      | inl short ↦ rw short empty-Known
      | inr long ↦ rw long known
    ]

pub take-append : (n : ℕ) (s t : Text) → length s ≡ n → take n (s ++ t) ≡ s
take-append zero [] t h = refl
take-append zero (c ∷ s) t h = absurd (omega arith)
take-append (suc n) [] t h = absurd (omega arith)
take-append (suc n) (c ∷ s) t h = ap (λ r. c ∷ r) (take-append n s t (omega arith))

pub drop-append : (n : ℕ) (s t : Text) → length s ≡ n → drop n (s ++ t) ≡ t
drop-append zero [] t h = refl
drop-append zero (c ∷ s) t h = absurd (omega arith)
drop-append (suc n) [] t h = absurd (omega arith)
drop-append (suc n) (c ∷ s) t h = drop-append n s t (omega arith)

-- Whatever the clip, an extension that is recognised makes a name of 32 hexadecimal digits one that
-- the chat accepts for a voice file, and it has a content type to be served with.
sniff_voice_extension-IsServed :
    (stem : Text) (bytes : List ℕ)
    → length stem ≡ 32
    → any (λ c. not (is_hex_unit c)) stem ≡ false
    → text_eq (sniff_voice_extension bytes) [] ≡ false
    → (is_voice_basename (stem ++ sniff_voice_extension bytes) ≡ true)
      × (text_eq (voice_content_type_for_ext (sniff_voice_extension bytes)) [] ≡ false)
unfolding is_voice_basename
sniff_voice_extension-IsServed stem bytes n h k =
    let e = sniff_voice_extension bytes in
    let (fits, served) = sniff_voice_extension-Known bytes k in
    (rw (take-append 32 stem e n, drop-append 32 stem e n, n, h, fits) refl, served)
