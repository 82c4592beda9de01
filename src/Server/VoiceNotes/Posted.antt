-- ===== src/Server/VoiceNotes/Posted.antt =====
-- The names that voice clips are stored under.
use hubabox.Base.{
  ℕ, ◌<◌, Bool, true, false, ◌&&◌, List, [], ◌∷◌, ◌++◌, ◌≡◌, refl, sym, ap, ◌∙◌, subst, any, take,
  length, length-append, ltb, ◌==◌, arith, All, All-append, Bool-cases, Result-cases, inl, inr,
  Result, ok, err, err-ne-ok, ok-injective, Option, none, some, Error,
}
use hubabox.Text.{Text, Unicode, text_eq, text_eq_sound, is_space, to_lower}
use hubabox.Text.Trim.{no_space-IsTrimmed, trim_space_of_IsTrimmed}
use hubabox.Text.Split.{Lacks}
use hubabox.FilePath.{slash, base}
use hubabox.Files.Names.{base_of_Lacks}
use hubabox.Import.Candidates.{IsLeaf, sanitize_rel_path_of_IsLeaf}
use hubabox.World.{World}
use hubabox.World.Disk.{Reader}
use hubabox.Auth.Base64.{hex_encode}
use hubabox.Library.Hex.{
  IsHex, hex_encode-IsHex, length-hex_encode, IsHex_lem, any-not_hex, text_eq_nil_of_length,
}
use hubabox.Upload.{save_upload_limited, save_upload_with_limit}
use hubabox.Upload.Saved.{save_upload_with_limit-IsStored}
use hubabox.Chat.{
  audio_dir, voice_extensions, is_voice_basename, sanitize_voice_basename, stored_audio,
}
use hubabox.Voice.{switch, sniff_voice_extension}
use hubabox.Voice.Accepted.{sniff_voice_extension-Known, take-append, drop-append}
use hubabox.Server.VoiceNotes.{
  VoicePart, note_cases, voice_note_ext, sniffed_ext, random_voice_basename, save_voice, read_voice,
  store_voice, max_voice_bytes, sniff_prefix_bytes,
}

abbrev IsExtension : Text → Type 0
IsExtension e = any (text_eq e) voice_extensions ≡ true

any-text_eq :
    (P : Text → Type 0) (e : Text) (xs : List Text) → All P xs → any (text_eq e) xs ≡ true → P e
any-text_eq P e [] h a = cc
any-text_eq P e (x ∷ xs) (p, h) a = elim (Bool-cases (text_eq e x)) [
  | inl q ↦ subst P (sym (text_eq_sound e x q)) p
  | inr q ↦ any-text_eq P e xs h (rw q at a)
]

-- A unit that neither `TrimSpace` nor `Base` looks at.
abbrev IsInner : ℕ → Type 0
IsInner c = (is_space c ≡ false) × ((c == slash) ≡ false)

extensions-IsInner : All (All IsInner) voice_extensions
unfolding is_space
extensions-IsInner = search

-- The last of at least one case holds anyway.
abbrev HasDefault : List (Bool × Text) → Type 0
HasDefault [] = ⊥
HasDefault ((test, e) ∷ []) = test ≡ true
HasDefault ((test, e) ∷ c ∷ cases) = HasDefault (c ∷ cases)

switch-IsExtension :
    (cases : List (Bool × Text))
    → All (λ c. IsExtension c.1) cases
    → HasDefault cases
    → IsExtension (switch cases)
switch-IsExtension [] h d = absurd d
switch-IsExtension ((true, e) ∷ cases) (p, h) d = p
switch-IsExtension ((false, e) ∷ []) (p, h) d = cc
switch-IsExtension ((false, e) ∷ c ∷ cases) (p, h) d = switch-IsExtension (c ∷ cases) h d

voice_note_ext-IsExtension : (u : Unicode) (p : VoicePart) → IsExtension (voice_note_ext u p)
unfolding voice_note_ext text_eq
voice_note_ext-IsExtension u p =
    switch-IsExtension (note_cases (to_lower u (base p.filename)) (to_lower u p.content_type))
      (search) refl

sniffed_ext-IsExtension :
    (u : Unicode) (p : VoicePart) (prefix : List ℕ) → IsExtension (sniffed_ext u p prefix)
sniffed_ext-IsExtension u p prefix = elim (Bool-cases (text_eq (sniff_voice_extension prefix) [])) [
  | inl e ↦ rw e (voice_note_ext-IsExtension u p)
  | inr e ↦ rw e (sniff_voice_extension-Known prefix e).0
]

IsHex-IsInner : (s : Text) → All IsHex s → All IsInner s
IsHex-IsInner [] h = tt
IsHex-IsInner (c ∷ s) (h, k) =
    let (small, no_space, same) = IsHex_lem c h in ((no_space, not_slash c h), IsHex-IsInner s k)
  where
    not_slash : (d : ℕ) → IsHex d → (d == slash) ≡ false
    not_slash d h = ground arith

IsInner-IsLeaf : (s : Text) → All IsInner s → IsLeaf s
IsInner-IsLeaf s h = (no_space-IsTrimmed s (spaces s h), slashes s h)
  where
    spaces : (t : Text) → All IsInner t → All (λ c. is_space c ≡ false) t
    spaces [] h = tt
    spaces (c ∷ t) (p, h) = (p.0, spaces t h)

    slashes : (t : Text) → All IsInner t → Lacks slash t
    slashes [] h = tt
    slashes (c ∷ t) (p, h) = (p.1, slashes t h)

-- A name that the chat makes from sixteen random bytes and an extension of its own.
module _ (random : List ℕ) (small : All (λ b. b < 256) random) (count : length random ≡ 16)
    (e : Text) (extension : IsExtension e) where
  made-IsLeaf : IsLeaf (hex_encode random ++ e)
  made-IsLeaf = IsInner-IsLeaf (hex_encode random ++ e) (
      All-append IsInner (hex_encode random) e
        (IsHex-IsInner (hex_encode random) (hex_encode-IsHex random small))
        (any-text_eq (All IsInner) e voice_extensions extensions-IsInner extension))

  made-length : length (hex_encode random) ≡ 32
  made-length = omega (arith, length-hex_encode random, count)

  made_not_empty : text_eq (hex_encode random ++ e) [] ≡ false
  made_not_empty =
      text_eq_nil_of_length (hex_encode random ++ e)
        (omega (arith, length-append (hex_encode random) e, made-length))

  made-is_voice_basename : is_voice_basename (hex_encode random ++ e) ≡ true
  unfolding is_voice_basename
  made-is_voice_basename =
      rw
        (
          take-append 32 (hex_encode random) e made-length,
          drop-append 32 (hex_encode random) e made-length,
          made-length,
          any-not_hex (hex_encode random) (hex_encode-IsHex random small),
          extension,
        )
        refl

  made-accepted : sanitize_voice_basename (hex_encode random ++ e) ≡ ok (hex_encode random ++ e)
  unfolding sanitize_voice_basename
  made-accepted =
      let (trimmed, lacks) = made-IsLeaf in
      rw
        (
          trim_space_of_IsTrimmed (hex_encode random ++ e) trimmed,
          base_of_Lacks (hex_encode random ++ e) made_not_empty lacks,
          made-is_voice_basename,
        )
        refl

stored_audio_lem :
    (name : Text)
    → text_eq name [] ≡ false
    → sanitize_voice_basename name ≡ ok name
    → stored_audio name ≡ ok (some name)
unfolding text_eq
stored_audio_lem [] n h = cc
stored_audio_lem (c ∷ name) n h = rw h refl

-- What a post stores of its voice clip: nothing, or a name that `Insert` accepts as it is.
abbrev pub IsNote : Option VoicePart → Text → Type 0
IsNote none stored = stored ≡ []
IsNote (some p) stored = stored_audio stored ≡ ok (some stored)

module _ (u : Unicode) (cwd : Result Text) (data_dir : Text) where
  save_voice-stored :
      (r : Reader) (name : Text) (w : World) {stored : Text}
      → IsLeaf name
      → (save_voice u cwd data_dir r (ok name) w).0.0 ≡ ok stored
      → stored ≡ name
  unfolding save_upload_limited
  save_voice-stored r name w {stored} leaf h =
      elim (Result-cases
        (save_upload_with_limit cwd (audio_dir data_dir) name r max_voice_bytes w).0) [
          | inr (x, e) ↦ absurd (err-ne-ok x stored (rw e at h))
          | inl ((safe, n), e) ↦
              let (out, full, (s, j), (answer, fits, node)) =
                save_upload_with_limit-IsStored cwd (audio_dir data_dir) name r max_voice_bytes
                  (safe, n) w e in
              let same : safe ≡ stored = ok-injective (rw e at h) in
              sym same ∙ ap (λ p. p.0) answer ∙ sanitize_rel_path_of_IsLeaf name leaf s
        ]

  -- If sixteen random bytes were drawn, a post with a voice clip that is stored has stored it under
  -- a name that `Insert` accepts as it is, whatever the clip's content, file name and type; a post
  -- without a clip stores none.
  pub store_voice-IsNote :
      (voice : Option VoicePart) (random : List ℕ) (w : World) {stored : Text}
      → All (λ b. b < 256) random
      → length random ≡ 16
      → (store_voice u cwd data_dir voice (ok random) w).0.0 ≡ ok stored
      → IsNote voice stored
  unfolding random_voice_basename
  store_voice-IsNote none random w {stored} small count h = sym (ok-injective h)
  store_voice-IsNote (some p) random w {stored} small count h = from p.content h
    where
      from :
          (c : Result Reader)
          → (read_voice u cwd data_dir p (ok random) c w).0.0 ≡ ok stored
          → stored_audio stored ≡ ok (some stored)
      from (err x) k = absurd (err-ne-ok x stored k)
      from (ok r) k = elim (Bool-cases (r.broken && ltb (length r.bytes) sniff_prefix_bytes)) [
        | inl b ↦ absurd (err-ne-ok Error.system stored (rw b at k))
        | inr b ↦
            let e = sniffed_ext u p (take sniff_prefix_bytes r.bytes) in
            let extension = sniffed_ext-IsExtension u p (take sniff_prefix_bytes r.bytes) in
            let name = hex_encode random ++ e in
            let same : stored ≡ name =
              save_voice-stored r name w (made-IsLeaf random small count e extension) (rw b at k) in
            subst (λ s. stored_audio s ≡ ok (some s)) (sym same)
              (stored_audio_lem name (made_not_empty random small count e extension)
                (made-accepted random small count e extension))
      ]
