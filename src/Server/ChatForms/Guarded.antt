-- ===== src/Server/ChatForms/Guarded.antt =====
-- Who hears a voice clip, and what is served as one.
use hubabox.Base.{
  ℕ, Bool, true, false, List, [], ◌≡◌, refl, sym, take, Bool-cases, inl, inr, Result, ok, err,
  arith, ◌||◌,
}
use hubabox.Text.{Text, Unicode, codes, text_eq, has_prefix, to_lower, equal_fold}
use hubabox.FilePath.{ext}
use hubabox.World.{World, query}
use hubabox.Library.{valid_guest}
use hubabox.Chat.{audio_dir, sanitize_voice_basename}
use hubabox.Upload.{Opened, open_read}
use hubabox.Voice.{
  voice_content_type_for_ext, voice_content_type_for_filename, voice_content_type_for_m4a_file,
  ftyp_major_brand, is_3gp,
}
use hubabox.Server.{Request, Answer, library_token}
use hubabox.Server.Downloads.Stored.{IsOpened, open_read-IsOpened}
use hubabox.Server.ChatForms.{
  clip_answer, clip, clip_of, clip_opened, clip_named, clip_stated, guest_clip, library_guest_nick,
  library_chat_audio_get, or_octets,
}
use hubabox.Server.VoiceNotes.{m4a}

-- A content type that a browser plays or saves, and does not show as a page.
abbrev pub IsClipType : Text → Type 0
IsClipType t =
    (has_prefix t (codes "audio/") || text_eq t (codes "application/octet-stream")) ≡ true

voice_type_for_ext-IsClipType : (e : Text) → IsClipType (or_octets (voice_content_type_for_ext e))
unfolding voice_content_type_for_ext has_prefix text_eq
voice_type_for_ext-IsClipType e = ground arith

voice_type_for_filename-IsClipType :
    (u : Unicode) (name : Text) → IsClipType (or_octets (voice_content_type_for_filename u name))
unfolding voice_content_type_for_filename
voice_type_for_filename-IsClipType u name = voice_type_for_ext-IsClipType (to_lower u (ext name))

voice_type_for_m4a-IsClipType :
    (bytes : List ℕ) → IsClipType (voice_content_type_for_m4a_file bytes)
unfolding voice_content_type_for_m4a_file has_prefix
voice_type_for_m4a-IsClipType bytes = elim (Bool-cases (text_eq (ftyp_major_brand bytes) [])) [
  | inl e ↦ rw e refl
  | inr e ↦ elim (Bool-cases (is_3gp (ftyp_major_brand bytes))) [
    | inl b ↦ rw (e, b) refl
    | inr b ↦ rw (e, b) refl
  ]
]

clip-ne-answer : (a : Answer) (ct : Text) (bytes : List ℕ) → ¬ (clip_answer a ≡ clip ct bytes)
clip-ne-answer a ct bytes h = cc

clip-injective : {a b : Text} {s t : List ℕ} → clip a s ≡ clip b t → (a ≡ b) × (s ≡ t)
clip-injective h = (cc, cc)

module _ (u : Unicode) (cwd : Result Text) (data_dir : Text) where
  -- A clip that is served: the stored file of a valid name in the folder of the clips.
  abbrev pub IsStoredClip : Text → World → Text → List ℕ → Type 0
  IsStoredClip fn w ct bytes =
      (safe : Text) × (f : Opened) × (sanitize_voice_basename fn ≡ ok safe)
      × IsOpened cwd (audio_dir data_dir) safe w f
      × (bytes ≡ f.bytes)
      × IsClipType ct

  clip_of-IsClipType :
      (safe ct : Text) (stored bytes : List ℕ)
      → clip_of u cwd data_dir safe stored ≡ clip ct bytes
      → (bytes ≡ stored) × IsClipType ct
  clip_of-IsClipType safe ct stored bytes h = elim (Bool-cases (equal_fold u (ext safe) m4a)) [
    | inl e ↦
        let (same, content) = clip-injective (rw e at h) in
        (sym content, rw (← same) (voice_type_for_m4a-IsClipType (take 128 stored)))
    | inr e ↦
        let (same, content) = clip-injective (rw e at h) in
        (sym content, rw (← same) (voice_type_for_filename-IsClipType u safe))
  ]

  clip_stated_lem :
      (safe ct : Text) (f : Opened) (r : Result (Unit {0})) (bytes : List ℕ)
      → clip_stated u cwd data_dir safe f r ≡ clip ct bytes
      → (bytes ≡ f.bytes) × IsClipType ct
  clip_stated_lem safe ct f (err e) bytes h = absurd (clip-ne-answer _ ct bytes h)
  clip_stated_lem safe ct f (ok _) bytes h = clip_of-IsClipType safe ct f.bytes bytes h

  clip_opened_lem :
      (safe ct : Text) (r : Result Opened) (w : World) (bytes : List ℕ)
      → (clip_opened u cwd data_dir safe r w).0 ≡ clip ct bytes
      → (f : Opened) × (r ≡ ok f) × (bytes ≡ f.bytes) × IsClipType ct
  clip_opened_lem safe ct (err e) w bytes h = absurd (clip-ne-answer _ ct bytes h)
  clip_opened_lem safe ct (ok f) w bytes h =
      let (same, kind) = clip_stated_lem safe ct f (query (λ v. ok tt) w).0 bytes h in
      (f, refl, same, kind)

  clip_named-IsStoredClip :
      (fn ct : Text) (r : Result Text) (w : World) (bytes : List ℕ)
      → sanitize_voice_basename fn ≡ r
      → (clip_named u cwd data_dir r w).0 ≡ clip ct bytes
      → IsStoredClip fn w ct bytes
  clip_named-IsStoredClip fn ct (err e) w bytes s h = absurd (clip-ne-answer _ ct bytes h)
  clip_named-IsStoredClip fn ct (ok safe) w bytes s h =
      let (r, w') = open_read cwd (audio_dir data_dir) safe w in
      let (f, o, same, kind) = clip_opened_lem safe ct r w' bytes h in
      (safe, f, s, open_read-IsOpened cwd (audio_dir data_dir) safe w f o, same, kind)

  guest_clip-IsStoredClip :
      (fn ct : Text) (r : Result Bool) (w : World) (bytes : List ℕ)
      → (guest_clip u cwd data_dir fn r w).0 ≡ clip ct bytes
      → (r ≡ ok true) × IsStoredClip fn w ct bytes
  guest_clip-IsStoredClip fn ct (err e) w bytes h = absurd (clip-ne-answer _ ct bytes h)
  guest_clip-IsStoredClip fn ct (ok false) w bytes h = absurd (clip-ne-answer _ ct bytes h)
  guest_clip-IsStoredClip fn ct (ok true) w bytes h =
      (refl, clip_named-IsStoredClip fn ct (sanitize_voice_basename fn) w bytes refl h)

  -- A voice clip is served only to a guest with a display name and a valid code; it is the stored
  -- file of a name that the chat's pattern accepts, at its place in the folder of the clips, and it
  -- is sent as audio or as a plain download.
  pub library_chat_audio_get-IsStoredClip :
      (fn ct : Text) (req : Request) (w : World) (bytes : List ℕ)
      → (library_chat_audio_get u cwd data_dir fn req w).0 ≡ clip ct bytes
      → (text_eq (library_guest_nick u req) [] ≡ false)
        × ((valid_guest u (library_token req) w).0 ≡ ok true)
        × IsStoredClip fn (valid_guest u (library_token req) w).1 ct bytes
  unfolding library_chat_audio_get
  library_chat_audio_get-IsStoredClip fn ct req w bytes h =
      elim (Bool-cases (text_eq (library_guest_nick u req) [])) [
        | inl n ↦ absurd (clip-ne-answer _ ct bytes (rw n at h))
        | inr n ↦
            let (r, w') = valid_guest u (library_token req) w in
            let (valid, stored) = guest_clip-IsStoredClip fn ct r w' bytes (rw n at h) in
            (n, valid, stored)
      ]
