-- ===== src/Chat/Expired.antt =====
-- What pruning removes, by the age of the rows in days: an account that uses neither the code's
-- cutoff nor its list of files.
use hubabox.Base.{
  ℕ, zero, suc, ◌+◌, ◌-◌, ◌*◌, ◌/◌, min, Bool, true, false, not, ◌&&◌, ◌||◌, ◌≡◌, refl, sym, ap,
  ◌∙◌, List, [], ◌∷◌, ◌++◌, any, take, drop, length, ltb, leb, ◌==◌, Result, ok, err, arith, keep,
  All, Bool-cases, inl, inr, ◌⊎◌, err-ne-ok, ok-injective, invalid_audio_name, Option, none, some,
}
use hubabox.Text.{Text, text_eq, text_eq_sound, trim_space}
use hubabox.Text.Assoc.{find}
use hubabox.FilePath.{base, join_path}
use hubabox.Library.{is_hex_unit}
use hubabox.World.{World, Message, second}
use hubabox.Chat.{
  clip_folder, prune_older_than, cutoff, clamp_days, old_audio, audio_of, is_blank, valid_names,
  valid_name, sanitize_voice_basename, is_voice_basename, voice_extensions,
}
use hubabox.Chat.Pruned.{leads_to, prune_before_messages, prune_before_disk}

-- At least one day and at most a year.
abbrev pub within_year : ℕ → ℕ
within_year days = min 365 (suc (days - 1))

-- The row is not older than so many days of 24 hours, on the clock in nanoseconds.
abbrev pub is_within : ℕ → World → Message → Bool
is_within days w m = leb (w.now / 1_000_000_000) (m.created_at + within_year days * (24 * 60 * 60))

is_within_lem :
    (days n created : ℕ)
    → not (ltb created (n - clamp_days days * 86_400))
      ≡ leb n (created + within_year days * (24 * 60 * 60))
is_within_lem days n created = ground arith

keep-same :
    (p q : Message → Bool) (ms : List Message) → ((m : Message) → p m ≡ q m) → keep p ms ≡ keep q ms
keep-same p q [] h = refl
keep-same p q (m ∷ ms) h = elim (Bool-cases (q m)) [
  | inl y ↦ rw (h m, y) (ap (λ l. m ∷ l) (keep-same p q ms h))
  | inr n ↦ rw (h m, n) (keep-same p q ms h)
]

-- A successful pruning has removed exactly the rows older than the given days, of 24 hours each and
-- taken as at least one and at most 365; every other row stands as before, in the same order.
pub prune_older_than-messages :
    (cwd : Result Text) (data_dir : Text) (days : ℕ) (w : World)
    → (prune_older_than cwd data_dir days w).0 ≡ ok tt
    → (prune_older_than cwd data_dir days w).1.messages ≡ keep (is_within days w) w.messages
unfolding prune_older_than
prune_older_than-messages cwd data_dir days w e =
    prune_before_messages (clip_folder cwd data_dir) (cutoff w (clamp_days days)) w e
    ∙ keep-same (λ m. not (ltb m.created_at (cutoff w (clamp_days days)))) (is_within days w)
        w.messages (λ m. is_within_lem days (w.now / second) m.created_at)

-- A name of a voice clip: 32 digits of lower-case hexadecimal, and an extension of a clip.
abbrev pub IsVoiceName : Text → Type 0
IsVoiceName name =
    (digits extension : Text) × (name ≡ digits ++ extension)
    × (length digits ≡ 32)
    × All (λ c. ((leb b'0' c && leb c b'9') || (leb b'a' c && leb c b'f')) ≡ true) digits
    × (any (text_eq extension) voice_extensions ≡ true)

-- The row is one of the list.
abbrev pub IsIn : Message → List Message → Type 0
IsIn m ms = (before after : List Message) × (ms ≡ before ++ m ∷ after)

-- The path is that of a clip in the chat's folder, whose name is the last element of what a row
-- older than the days names.
abbrev pub IsOldClip : Text → ℕ → World → List Message → Text → Type 0
IsOldClip dir days w ms q =
    (m : Message) × (audio name : Text) × IsIn m ms
    × (is_within days w m ≡ false)
    × (m.audio_file ≡ some audio)
    × (base (trim_space audio) ≡ name)
    × IsVoiceName name
    × (q ≡ join_path dir name)

take-drop : (n : ℕ) (s : Text) → s ≡ take n s ++ drop n s
take-drop zero s = refl
take-drop (suc n) [] = refl
take-drop (suc n) (c ∷ s) = ap (λ t. c ∷ t) (take-drop n s)

digits-All :
    (s : Text)
    → any (λ c. not (is_hex_unit c)) s ≡ false
    → All (λ c. ((leb b'0' c && leb c b'9') || (leb b'a' c && leb c b'f')) ≡ true) s
digits-All [] h = tt
digits-All (c ∷ s) h = elim (Bool-cases (is_hex_unit c)) [
  | inl y ↦ (ground arith, digits-All s (rw y at h))
  | inr n ↦ ground arith
]

is_voice_basename-IsVoiceName : (s : Text) → is_voice_basename s ≡ true → IsVoiceName s
unfolding is_voice_basename
is_voice_basename-IsVoiceName s h =
    let (count, hex, known) =
      three (length (take 32 s)) (any (λ c. not (is_hex_unit c)) (take 32 s))
        (any (text_eq (drop 32 s)) voice_extensions) h in
    (take 32 s, drop 32 s, take-drop 32 s, count, digits-All (take 32 s) hex, known)
  where
    three :
        (n : ℕ) (a b : Bool)
        → ((n == 32) && not a && b) ≡ true
        → (n ≡ 32) × (a ≡ false) × (b ≡ true)
    three n a b h = (ground arith, ground arith, ground arith)

sanitize_voice_basename-eq-ok :
    (audio name : Text)
    → sanitize_voice_basename audio ≡ ok name
    → (base (trim_space audio) ≡ name) × IsVoiceName name
unfolding sanitize_voice_basename
sanitize_voice_basename-eq-ok audio name h =
    elim (Bool-cases (is_voice_basename (base (trim_space audio)))) [
      | inr n ↦ absurd (err-ne-ok invalid_audio_name name (rw n at h))
      | inl y ↦
          let same : base (trim_space audio) ≡ name = ok-injective (rw y at h) in
          (same, is_voice_basename-IsVoiceName name (rw same at y))
    ]

module _ (dir q : Text) (days : ℕ) (w : World) where
  IsOldClip-cons :
      (m : Message) (ms : List Message)
      → IsOldClip dir days w ms q
      → IsOldClip dir days w (m ∷ ms) q
  IsOldClip-cons m ms (x, audio, name, (before, after, e), old, file, named, voice, place) =
      (x, audio, name, (m ∷ before, after, ap (λ l. m ∷ l) e), old, file, named, voice, place)

  module _ (m : Message) (ms : List Message) (old : is_within days w m ≡ false) where
    valid-IsOldClip :
        (audio : Text) (r : Result Text) (names : List Text)
        → m.audio_file ≡ some audio
        → sanitize_voice_basename audio ≡ r
        → leads_to dir (valid_name r ++ names) q ≡ true
        → IsOldClip dir days w (m ∷ ms) q ⊎ (leads_to dir names q ≡ true)
    valid-IsOldClip audio (err e) names a s h = inr h
    valid-IsOldClip audio (ok name) names a s h =
        elim (Bool-cases (text_eq (join_path dir name) q)) [
          | inr n ↦ inr (rw n at h)
          | inl y ↦
              let (named, voice) = sanitize_voice_basename-eq-ok audio name s in
              inl (
                m,
                audio,
                name,
                ([], ms, refl),
                old,
                a,
                named,
                voice,
                sym (text_eq_sound (join_path dir name) q y),
              )
        ]

    row-IsOldClip :
        (file : Option Text) (names : List Text)
        → m.audio_file ≡ file
        → leads_to dir (valid_names (audio_of file ++ names)) q ≡ true
        → IsOldClip dir days w (m ∷ ms) q ⊎ (leads_to dir (valid_names names) q ≡ true)
    row-IsOldClip none names a h = inr h
    row-IsOldClip (some audio) names a h = elim (Bool-cases (is_blank audio)) [
      | inl b ↦ inr (rw b at h)
      | inr b ↦
          valid-IsOldClip audio (sanitize_voice_basename audio) (valid_names names) a refl
            (rw b at h)
    ]

  old_audio-IsOldClip :
      (ms : List Message)
      → leads_to dir (valid_names (old_audio (cutoff w (clamp_days days)) ms)) q ≡ true
      → IsOldClip dir days w ms q
  old_audio-IsOldClip [] h = cc
  old_audio-IsOldClip (m ∷ ms) h =
      let t = cutoff w (clamp_days days) in
      elim (Bool-cases (ltb m.created_at t)) [
        | inr n ↦ IsOldClip-cons m ms (old_audio-IsOldClip ms (rw n at h))
        | inl y ↦
            let old : is_within days w m ≡ false =
              sym (is_within_lem days (w.now / second) m.created_at) ∙ ap not y in
            elim (row-IsOldClip m ms old m.audio_file (old_audio t ms) refl (rw y at h)) [
              | inl found ↦ found
              | inr later ↦ IsOldClip-cons m ms (old_audio-IsOldClip ms later)
            ]
      ]

-- Whatever fails, a pruning leaves a path as it was, or the path is that of a voice clip in the
-- chat's folder: its name is 32 hexadecimal digits and an extension of a clip, and it is the last
-- element of the name in a row older than the given days.
pub prune_older_than-disk :
    (cwd : Result Text) (data_dir q : Text) (days : ℕ) (w : World)
    → (find q (prune_older_than cwd data_dir days w).1.disk ≡ find q w.disk)
      ⊎ IsOldClip (clip_folder cwd data_dir) days w w.messages q
unfolding prune_older_than
prune_older_than-disk cwd data_dir q days w =
    let dir = clip_folder cwd data_dir in
    let t = cutoff w (clamp_days days) in
    elim (Bool-cases (leads_to dir (valid_names (old_audio t w.messages)) q)) [
      | inl y ↦ inr (old_audio-IsOldClip dir q days w w.messages y)
      | inr n ↦ inl (prune_before_disk dir q t w n)
    ]
