-- ===== src/Tests/Clips.antt =====
-- Voice clips and the form of the import folder at concrete inputs.
use hubabox.Base.{
  ℕ, Bool, ◌<◌, true, false, if◌then◌else◌, List, [], ◌∷◌, ◌≡◌, refl, Result, ok, none, some, All,
  arith,
}
use hubabox.Text.{Text, codes, text_eq, ascii, trim_space}
use hubabox.Text.Assoc.{find}
use hubabox.World.{World, regular}
use hubabox.Library.{valid_guest}
use hubabox.Chat.{stored_audio}
use hubabox.Importer.Scan.{Wording}
use hubabox.Server.{post, get, Request, redirect, form_value, library_token}
use hubabox.Server.VoiceNotes.{VoicePart, store_voice, voice_note_ext}
use hubabox.Server.ChatForms.{
  clip, library_chat_post, library_chat_audio_get, library_guest_nick, library_set_name_post,
  chat_error,
}
use hubabox.Server.VoiceNotes.Posted.{IsNote, store_voice-IsNote}
use hubabox.Server.ChatForms.Guarded.{IsStoredClip, library_chat_audio_get-IsStoredClip}
use hubabox.Server.ImportForms.{files_import_config_post, files_import_auto_post}
use hubabox.Importer.{kv_import_watch_dir, resolve_import_dir}
use hubabox.Server.ImportForms.Saved.{IsChosen, files_import_config_post-IsChosen}
use hubabox.Tests.Paths.{cwd, paths}
use hubabox.Tests.Requests.{requests, world, ask}

clips : Unit {0}
unfolding paths requests hubabox.Library.normalize_display_nick hubabox.Auth.Base64.hex_encode
    hubabox.Chat.insert hubabox.Chat.stored_body hubabox.Chat.sanitize_voice_basename
    hubabox.Chat.is_voice_basename hubabox.Chat.retention_days hubabox.Chat.prune_older_than
    hubabox.Chat.remove_all hubabox.Voice.sniff_voice_extension
    hubabox.Voice.voice_content_type_for_ext hubabox.Voice.voice_content_type_for_filename
    hubabox.Voice.voice_content_type_for_m4a_file hubabox.Voice.sniff_iso_ftyp_aligned
    hubabox.Voice.ftyp_major_brand hubabox.Voice.ftyp_from hubabox.Voice.is_aac_adts
    hubabox.Upload.save_upload_limited hubabox.Upload.save_upload_with_limit
    hubabox.Upload.store_file hubabox.Upload.open_read hubabox.Upload.remove_file
    hubabox.FilePath.join_path hubabox.FilePath.ext hubabox.Text.equal_fold hubabox.Text.has_suffix
    hubabox.Text.contains hubabox.Text.strip hubabox.Text.trim_prefix
    hubabox.Text.Decimal.atoi_clamped hubabox.Text.Decimal.atoi hubabox.Text.Decimal.itoa
    hubabox.Text.Decimal.digits voice_note_ext hubabox.Server.VoiceNotes.random_voice_basename
    library_guest_nick library_set_name_post library_chat_post library_chat_audio_get
    hubabox.Importer.validate_paths hubabox.Importer.set_import_watch_dir
    hubabox.Importer.set_import_auto_copy hubabox.Server.ImportForms.validate_import_dir_accessible
    files_import_config_post files_import_auto_post hubabox.Text.Urls.query_escape
    hubabox.Text.Urls.query_escape_bytes hubabox.Text.Bytes.bytes
clips = tt

abbrev data_dir : Text
data_dir = codes "/d"

-- A clip without a name that tells its kind, whose content begins as WebM does.
abbrev part : VoicePart
part = record {
  filename = codes "blob";
  content_type = [];
  content = ok (record { bytes = 0x1A ∷ 0x45 ∷ 0xDF ∷ 0xA3 ∷ []; broken = false });
}

abbrev random : List ℕ
random = 1 ∷ 2 ∷ 3 ∷ 4 ∷ 5 ∷ 6 ∷ 7 ∷ 8 ∷ 9 ∷ 10 ∷ 11 ∷ 12 ∷ 13 ∷ 14 ∷ 15 ∷ 255 ∷ []

abbrev stored : Text
stored = codes "0102030405060708090a0b0c0d0e0fff.webm"

abbrev place : Text
place = codes "/d/library_chat_audio/0102030405060708090a0b0c0d0e0fff.webm"

made : (store_voice ascii cwd data_dir (some part) (ok random) world).0.0 ≡ ok stored
unfolding clips
made = refl

random_small : All (λ b. b < 256) random
random_small = ground arith

store_voice-IsNote_example : IsNote (some part) stored
store_voice-IsNote_example =
    store_voice-IsNote ascii cwd data_dir (some part) random world random_small refl made

abbrev guest : Request
guest = record (ask get (codes "/library/chat/audio") [] []) {
  cookies =
      (codes "hubabox_library", codes "00abcdef")
      ∷ (codes "hubabox_library_nick", codes "Anna")
      ∷ [];
}

abbrev fields : List (Text × Text)
fields = (codes "body", codes " hi ") ∷ []

abbrev posted : World
posted = (library_chat_post ascii cwd data_dir guest (ok (fields, some part)) (ok random) world).1

-- A post with a clip, one that is too poor, one of a stranger, and the clip on its way back.
runs :
    ((library_chat_post ascii cwd data_dir guest (ok (fields, some part)) (ok random) world).0
      ≡ redirect (codes "/library"))
    × (find place posted.disk ≡ some (regular (0x1A ∷ 0x45 ∷ 0xDF ∷ 0xA3 ∷ []) world.now))
    × ((library_chat_post ascii cwd data_dir guest (ok ([], none)) (ok random) world).0
        ≡ chat_error ascii (codes "empty"))
    × ((library_chat_post ascii cwd data_dir guest
          (ok (fields, some part))
          (ok random)
          (record world { faults = false ∷ false ∷ false ∷ false ∷ false ∷ true ∷ [] })).0
        ≡ chat_error ascii (codes "server"))
    × ((library_chat_audio_get ascii cwd data_dir stored guest posted).0
        ≡ clip (codes "audio/webm") (0x1A ∷ 0x45 ∷ 0xDF ∷ 0xA3 ∷ []))
unfolding clips
runs = (refl, refl, refl, refl, refl)

library_chat_audio_get-IsStoredClip_example :
    (text_eq (library_guest_nick ascii guest) [] ≡ false)
    × ((valid_guest ascii (library_token guest) posted).0 ≡ ok true)
    × IsStoredClip ascii cwd data_dir stored
        (valid_guest ascii (library_token guest) posted).1
        (codes "audio/webm")
        (0x1A ∷ 0x45 ∷ 0xDF ∷ 0xA3 ∷ [])
library_chat_audio_get-IsStoredClip_example =
    library_chat_audio_get-IsStoredClip ascii cwd data_dir stored (codes "audio/webm") guest posted
      (0x1A ∷ 0x45 ∷ 0xDF ∷ 0xA3 ∷ []) (runs.4)

abbrev words : Wording
words = record { rfc3339 = λ s. []; error_text = λ e. codes "no" }

abbrev stat : Text → Result Bool
stat path = ok true

abbrev config : List (Text × Text)
config = (codes "import_path", codes " /m ") ∷ []

config_runs :
    ((files_import_config_post ascii cwd words [] (codes "/f") stat (ok config) world).0
      ≡ (redirect (codes "/files?msg=import_cfg_ok"), true))
    × ((files_import_config_post ascii cwd words [] (codes "/m/f") stat (ok config) world).0
        ≡ (redirect (codes "/files?msg=import_cfg_err&why=no"), false))
    × ((files_import_config_post ascii cwd words [] (codes "/f") stat (ok []) world).0
        ≡ (redirect (codes "/files?msg=import_cfg_ok&cleared=1"), true))
    × ((files_import_auto_post ascii cwd words [] (codes "/f") (ok []) world).0
        ≡ (redirect (codes "/files?msg=import_auto_off"), true))
unfolding clips
config_runs = (refl, refl, refl, refl)

is_saved :
    (files_import_config_post ascii cwd words [] (codes "/f") stat (ok config) world).0.1 ≡ true
unfolding clips
is_saved = refl

-- The state that the form leaves.
abbrev configured : World
configured = (files_import_config_post ascii cwd words [] (codes "/f") stat (ok config) world).1

files_import_config_post-IsChosen_example :
    (dir : Text) × IsChosen ascii cwd words []
      (codes "/f")
      stat
      (trim_space (form_value (codes "import_path") config))
      dir
    × (find kv_import_watch_dir configured.kv ≡ (if text_eq dir [] then none else some dir))
    × ((resolve_import_dir [] configured).0
        ≡ (if text_eq (trim_space []) [] then dir else trim_space []))
unfolding clips
files_import_config_post-IsChosen_example =
    files_import_config_post-IsChosen ascii cwd words [] (codes "/f") stat config world configured
      is_saved refl refl
