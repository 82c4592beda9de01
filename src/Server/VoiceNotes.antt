-- ===== src/Server/VoiceNotes.antt =====
-- Voice clips of the chat: their names and their storing, in `libraryChatPost`, `voiceNoteExt` and
-- `randomVoiceBasename` of hubabox-proj/internal/server/library_chat_handlers.go.
pub mod Posted
use hubabox.Base.{
  ℕ, ◌*◌, ◌^◌, Bool, true, false, not, ◌&&◌, ◌||◌, List, [], ◌∷◌, ◌++◌, take, length, ltb,
  if◌then◌else◌, Result, ok, err, Error, Option, none, some,
}
use hubabox.Text.{Text, Unicode, codes, text_eq, has_suffix, contains, to_lower}
use hubabox.FilePath.{base}
use hubabox.World.{World}
use hubabox.World.Disk.{Reader}
use hubabox.Auth.Base64.{hex_encode}
use hubabox.Upload.{save_upload_limited}
use hubabox.Chat.{audio_dir}
use hubabox.Voice.{switch, sniff_voice_extension}

-- A file of the form: its name, its header Content-Type, and what opening it yields.
pub record VoicePart : Type 0 where
  pub filename : Text
  pub content_type : Text
  pub content : Result Reader

abbrev pub sniff_prefix_bytes : ℕ
sniff_prefix_bytes = 512

abbrev pub max_voice_bytes : ℕ
max_voice_bytes = 2 * 2 ^ 20

abbrev pub m4a : Text
m4a = codes ".m4a"

-- The cases of `voiceNoteExt`.
abbrev pub note_cases : Text → Text → List (Bool × Text)
note_cases fn ct =
    (has_suffix fn (codes ".wav"), codes ".wav")
    ∷ (has_suffix fn (codes ".flac"), codes ".flac")
    ∷ (has_suffix fn (codes ".caf"), codes ".caf")
    ∷ (has_suffix fn (codes ".amr"), codes ".amr")
    ∷ (has_suffix fn (codes ".ogg") || has_suffix fn (codes ".oga"), codes ".ogg")
    ∷ (has_suffix fn (codes ".mp3"), codes ".mp3")
    ∷ (has_suffix fn (codes ".aac"), codes ".aac")
    ∷ (
      has_suffix fn (codes ".m4a")
          || has_suffix fn (codes ".mp4")
          || has_suffix fn (codes ".3gp")
          || has_suffix fn (codes ".3g2"),
      m4a,
    )
    ∷ (has_suffix fn (codes ".webm"), codes ".webm")
    ∷ (contains ct (codes "wav"), codes ".wav")
    ∷ (contains ct (codes "flac"), codes ".flac")
    ∷ (contains ct (codes "caf"), codes ".caf")
    ∷ (contains ct (codes "amr") || contains ct (codes "3gpp"), codes ".amr")
    ∷ (contains ct (codes "ogg"), codes ".ogg")
    ∷ (contains ct (codes "mpeg") || contains ct (codes "mp3"), codes ".mp3")
    ∷ (contains ct (codes "audio/aac") || contains ct (codes "aac-adts"), codes ".aac")
    ∷ (contains ct (codes "mp4") || contains ct (codes "m4a") || contains ct (codes "x-m4a"), m4a)
    ∷ (true, codes ".webm")
    ∷ []

-- `randomVoiceBasename`
unfoldable pub random_voice_basename : Result (List ℕ) → Text → Result Text
random_voice_basename (err e) extension = err e
random_voice_basename (ok random) extension = ok (hex_encode random ++ extension)

module _ (u : Unicode) where
  -- `voiceNoteExt`
  unfoldable pub voice_note_ext : VoicePart → Text
  voice_note_ext p = switch (note_cases (to_lower u (base p.filename)) (to_lower u p.content_type))

  abbrev pub sniffed_ext : VoicePart → List ℕ → Text
  sniffed_ext p prefix =
      if text_eq (sniff_voice_extension prefix) []
      then voice_note_ext p
      else sniff_voice_extension prefix

  module _ (cwd : Result Text) (data_dir : Text) where
    abbrev pub saved_voice : Result (Text × ℕ) → Result Text × Text
    saved_voice (err e) = (err e, codes "audio")
    saved_voice (ok (name, n)) = (ok name, [])

    abbrev pub save_voice : Reader → Result Text → World → (Result Text × Text) × World
    save_voice r (err e) w = ((err e, codes "server"), w)
    save_voice r (ok name) w =
        let (saved, w') = save_upload_limited cwd (audio_dir data_dir) name r max_voice_bytes w in
        (saved_voice saved, w')

    -- The reading of the prefix fails if the source ends with an error before it is full.
    abbrev pub read_voice :
        VoicePart → Result (List ℕ) → Result Reader → World → (Result Text × Text) × World
    read_voice p random (err e) w = ((err e, codes "audio"), w)
    read_voice p random (ok r) w =
        let extension = sniffed_ext p (take sniff_prefix_bytes r.bytes) in
        let next = save_voice r (random_voice_basename random extension) w in
        if r.broken && ltb (length r.bytes) sniff_prefix_bytes
        then ((err Error.system, codes "audio"), w)
        else next

    -- The name under which the clip of a post is stored, "" without a clip, or the code of the
    -- redirect.
    abbrev pub store_voice :
        Option VoicePart → Result (List ℕ) → World → (Result Text × Text) × World
    store_voice none random w = ((ok [], []), w)
    store_voice (some p) random w = read_voice p random p.content w
