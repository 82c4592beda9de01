-- ===== src/Server/ChatForms.antt =====
-- The chat of the library: hubabox-proj/internal/server/library_chat_handlers.go.
pub mod Guarded
use hubabox.Base.{
  ℕ, ◌*◌, ◌^◌, Bool, true, false, not, ◌&&◌, ◌||◌, List, [], ◌∷◌, ◌++◌, map, take, length, ltb,
  if◌then◌else◌, Result, ok, err, Error, Option, none, some,
}
use hubabox.Text.{
  Text, Unicode, codes, text_eq, trim_space, has_suffix, contains, to_lower, equal_fold,
}
use hubabox.Text.Assoc.{find}
use hubabox.Text.Urls.{path_escape}
use hubabox.FilePath.{base, ext}
use hubabox.World.{World, Act, Message, continue, ◌>>=◌, ◌>>◌, return, raise, lift, attempt, query}
use hubabox.World.Disk.{Reader, mkdir_all}
use hubabox.Auth.Base64.{hex_encode}
use hubabox.Library.{is_enabled, valid_guest, normalize_display_nick}
use hubabox.Upload.{Opened, open_read, save_upload_limited, remove_file}
use hubabox.Chat.{
  audio_dir, list_limit, max_body_runes, list_recent, insert, retention_days, prune_older_than,
  sanitize_voice_basename,
}
use hubabox.Voice.{
  switch, sniff_voice_extension, voice_content_type_for_filename, voice_content_type_for_m4a_file,
}
use hubabox.Server.{Request, Answer, redirect, failure, internal_error, library_token, form_value}
use hubabox.Server.VoiceNotes.{
  VoicePart, sniff_prefix_bytes, max_voice_bytes, m4a, random_voice_basename, voice_note_ext,
  sniffed_ext, saved_voice, save_voice, read_voice, store_voice,
}
use hubabox.Server.Accounts.{Response, plain, keep_cookie, respond}
use hubabox.Server.LibraryForms.{library_nick_cookie, library_max_age}

-- `libraryChatMsg`
pub record ChatMsg : Type 0 where
  pub time : Text
  pub author : Text
  pub body : Text
  pub audio_url : Text
  pub audio_mime : Text
  pub audio_m4a_fallback : Bool

-- The list of the chat, or an answer.
pub data FragmentReply : Type 0 where
  fragment_answer : Answer → FragmentReply
  fragment : List ChatMsg → FragmentReply

-- A voice clip with its content type, or an answer.
pub data ClipReply : Type 0 where
  clip_answer : Answer → ClipReply
  clip : Text → List ℕ → ClipReply

-- The form of a post: its fields, and the first file "audio".
abbrev pub ChatForm : Type 0
ChatForm = List (Text × Text) × Option VoicePart

abbrev pub or_octets : Text → Text
or_octets [] = codes "application/octet-stream"
or_octets (c ∷ s) = c ∷ s

module _ (u : Unicode) where
  abbrev pub nick_of : Result Text → Text
  nick_of (err e) = []
  nick_of (ok nick) = nick

  abbrev pub cookie_nick : Option Text → Text
  cookie_nick none = []
  cookie_nick (some []) = []
  cookie_nick (some (c ∷ value)) = nick_of (normalize_display_nick u (c ∷ value))

  -- `libraryGuestNick`
  unfoldable pub library_guest_nick : Request → Text
  library_guest_nick req = cookie_nick (find library_nick_cookie req.cookies)

  -- A row of the chat; `time` is `formatLibraryChatTime` on Unix seconds.
  abbrev pub msg_of : (ℕ → Text) → Message → ChatMsg
  msg_of time m = with_audio m.audio_file
    where
      with_audio : Option Text → ChatMsg
      with_audio none = record {
        time = time m.created_at;
        author = m.author_nick;
        body = m.body;
        audio_url = [];
        audio_mime = [];
        audio_m4a_fallback = false;
      }
      with_audio (some file) = record {
        time = time m.created_at;
        author = m.author_nick;
        body = m.body;
        audio_url = codes "/library/chat/audio/" ++ path_escape file;
        audio_mime = voice_content_type_for_filename u file;
        audio_m4a_fallback = equal_fold u (ext file) m4a;
      }

  -- `libraryChatRowsFromDB`
  unfoldable pub library_chat_rows : (ℕ → Text) → Act (List ChatMsg)
  library_chat_rows time = do msgs ← list_recent list_limit; return (map (msg_of time) msgs)

  abbrev fragment_of : Result (List ChatMsg) → FragmentReply
  fragment_of (err e) = fragment_answer internal_error
  fragment_of (ok rows) = fragment rows

  abbrev pub guest_fragment : (ℕ → Text) → Result Bool → World → FragmentReply × World
  guest_fragment time (ok true) w = let (r, w') = library_chat_rows time w in (fragment_of r, w')
  guest_fragment time (ok false) w = (fragment_answer (failure 403), w)
  guest_fragment time (err e) w = (fragment_answer (failure 403), w)

  -- `libraryChatFragmentGet`
  unfoldable pub library_chat_fragment_get : (ℕ → Text) → Request → World → FragmentReply × World
  library_chat_fragment_get time req w =
      let (r, w') = valid_guest u (library_token req) w in
      if text_eq (library_guest_nick req) []
      then (fragment_answer (failure 403), w)
      else guest_fragment time r w'

  abbrev set_name : Result Text → Response
  set_name (err e) = plain (redirect (codes "/library?err=badnick"))
  set_name (ok nick) =
      (redirect (codes "/library"), keep_cookie library_nick_cookie nick library_max_age ∷ [])

  abbrev name_form : Result (List (Text × Text)) → Response
  name_form (err e) = plain (redirect (codes "/library?err=badform"))
  name_form (ok form) =
      set_name (normalize_display_nick u (trim_space (form_value (codes "display_name") form)))

  -- `librarySetNamePost`
  unfoldable pub library_set_name_post : Request → World → Response × World
  library_set_name_post req w = respond (
      (do is_on ← is_enabled; return (if is_on then name_form req.form else plain (failure 404))) w)

  -- `chat_err` in the redirect of a post that is refused.
  abbrev pub chat_error : Text → Answer
  chat_error code = redirect (codes "/library?chat_err=" ++ code)

  module _ (cwd : Result Text) (data_dir : Text) where
    abbrev pub drop_voice : Text → Act (Unit {0})
    drop_voice [] = return tt
    drop_voice (c ∷ name) = remove_file cwd (audio_dir data_dir) (c ∷ name)

    abbrev pub prune_now : World → World
    prune_now w = let (days, w') = retention_days w in (prune_older_than cwd data_dir days w').1

    abbrev pub inserted : Text → Result (Unit {0}) → World → Answer × World
    inserted stored (err e) w =
        let (r, w') = drop_voice stored w in (chat_error (codes "server"), w')
    inserted stored (ok _) w = (redirect (codes "/library"), prune_now w)

    abbrev pub insert_post : Text → Text → (Result Text × Text) × World → Answer × World
    insert_post nick body ((err e, code), w) = (chat_error code, w)
    insert_post nick body ((ok stored, code), w) =
        let (r, w') = insert nick body stored w in inserted stored r w'

    abbrev pub made_dir :
        Text
        → Text
        → Option VoicePart
        → Result (List ℕ)
        → Result (Unit {0}) × World
        → Answer × World
    made_dir nick body voice random (err e, w) = (chat_error (codes "server"), w)
    made_dir nick body voice random (ok _, w) =
        insert_post nick body (store_voice u cwd data_dir voice random w)

    abbrev pub has_voice : Option VoicePart → Bool
    has_voice none = false
    has_voice (some p) = true

    abbrev pub post_form : Text → Result ChatForm → Result (List ℕ) → World → Answer × World
    post_form nick (err e) random w = (chat_error (codes "server"), w)
    post_form nick (ok (fields, voice)) random w =
        let body = trim_space (form_value (codes "body") fields) in
        let posted = made_dir nick body voice random (mkdir_all (audio_dir data_dir) w) in
        if ltb max_body_runes (length body)
        then (chat_error (codes "long"), w)
        else if text_eq body [] && not (has_voice voice)
        then (chat_error (codes "empty"), w)
        else posted

    -- `libraryChatPost`
    unfoldable pub library_chat_post :
        Request → Result ChatForm → Result (List ℕ) → World → Answer × World
    library_chat_post req form random w =
        let nick = library_guest_nick req in
        let posted = post_form nick form random w in
        if text_eq nick [] then (redirect (codes "/library"), w) else posted

    abbrev pub clip_of : Text → List ℕ → ClipReply
    clip_of safe bytes =
        if equal_fold u (ext safe) m4a
        then clip (voice_content_type_for_m4a_file (take 128 bytes)) bytes
        else clip (or_octets (voice_content_type_for_filename u safe)) bytes

    abbrev pub clip_stated : Text → Opened → Result (Unit {0}) → ClipReply
    clip_stated safe f (err e) = clip_answer (failure 404)
    clip_stated safe f (ok _) = clip_of safe f.bytes

    abbrev pub clip_opened : Text → Result Opened → World → ClipReply × World
    clip_opened safe (err e) w = (clip_answer (failure 404), w)
    clip_opened safe (ok f) w = let (r, w') = query (λ v. ok tt) w in (clip_stated safe f r, w')

    abbrev pub clip_named : Result Text → World → ClipReply × World
    clip_named (err e) w = (clip_answer (failure 404), w)
    clip_named (ok safe) w =
        let (r, w') = open_read cwd (audio_dir data_dir) safe w in clip_opened safe r w'

    abbrev pub guest_clip : Text → Result Bool → World → ClipReply × World
    guest_clip fn (err e) w = (clip_answer (failure 403), w)
    guest_clip fn (ok false) w = (clip_answer (failure 403), w)
    guest_clip fn (ok true) w = clip_named (sanitize_voice_basename fn) w

    -- `libraryChatAudioGet`; the argument is the URL parameter "fn".
    unfoldable pub library_chat_audio_get : Text → Request → World → ClipReply × World
    library_chat_audio_get fn req w =
        let (r, w') = valid_guest u (library_token req) w in
        if text_eq (library_guest_nick req) []
        then (clip_answer (failure 403), w)
        else guest_clip fn r w'

-- `libraryChatFlashFromQuery`
unfoldable pub library_chat_flash : Text → Text
library_chat_flash code = switch (
    (text_eq code (codes "empty"), codes "Add a message or a voice note (or both).")
    ∷ (text_eq code (codes "long"), codes "Message text is too long.")
    ∷ (text_eq code (codes "audio"), codes "Voice note could not be saved (type or size).")
    ∷ (text_eq code (codes "server"), codes "Could not post right now. Try again.")
    ∷ [])
