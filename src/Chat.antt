-- ===== src/Chat.antt =====
-- The chat of the library: hubabox-proj/internal/librarychat/messages.go and cleanup.go.
pub mod Retention
pub mod Messages
pub mod Pruned
pub mod Expired
use hubabox.Base.{
  ℕ, suc, ◌+◌, ◌-◌, ◌*◌, ◌/◌, ◌^◌, Bool, true, false, not, ◌&&◌, ◌||◌, List, [], ◌∷◌, ◌++◌, map,
  ltb, leb, ◌==◌, if◌then◌else◌, any, keep, take, drop, length, Result, ok, err, invalid_audio_name,
  Option, none, some,
}
use hubabox.Text.{Text, codes, text_eq, trim_space, has_prefix, strip, contains_rune}
use hubabox.Text.Assoc.{find}
use hubabox.Text.Decimal.{itoa, atoi}
use hubabox.FilePath.{resolved_path, slash, base, join_path}
use hubabox.Library.{is_hex_unit, rune_of}
use hubabox.World.{
  World, Message, Node, regular, folder, symlink, Act, continue, ◌>>=◌, ◌>>◌, return, raise, lift,
  attempt, exec, query, now_seconds, fails, tick,
}
use hubabox.World.Db.{select_kv, upsert_kv}
use hubabox.World.Disk.{remove}

abbrev pub list_limit : ℕ
list_limit = 100

abbrev pub max_body_runes : ℕ
max_body_runes = 2000

abbrev audio_subdir : Text
audio_subdir = codes "library_chat_audio"

-- `AudioDir`
abbrev pub audio_dir : Text → Text
audio_dir data_dir = join_path data_dir audio_subdir

-- That folder on the disk, which holds absolute paths.
abbrev pub clip_folder : Result Text → Text → Text
clip_folder cwd data_dir = resolved_path cwd (audio_dir data_dir)

abbrev pub voice_extensions : List Text
voice_extensions =
    codes ".webm"
    ∷ codes ".ogg"
    ∷ codes ".oga"
    ∷ codes ".wav"
    ∷ codes ".mp3"
    ∷ codes ".m4a"
    ∷ codes ".aac"
    ∷ codes ".flac"
    ∷ codes ".caf"
    ∷ codes ".amr"
    ∷ []

-- `voiceBasenameRe`
unfoldable pub is_voice_basename : Text → Bool
is_voice_basename s =
    length (take 32 s) == 32
    && not (any (λ c. not (is_hex_unit c)) (take 32 s))
    && any (text_eq (drop 32 s)) voice_extensions

-- `SanitizeVoiceBasename`
unfoldable pub sanitize_voice_basename : Text → Result Text
sanitize_voice_basename name =
    let b = base (trim_space name) in if is_voice_basename b then ok b else err invalid_audio_name

-- `body` as it is stored: cut to the bound, where invalid bytes become U+FFFD.
unfoldable pub stored_body : Text → Text
stored_body body =
    let b = trim_space body in
    if ltb max_body_runes (length b) then map rune_of (take max_body_runes b) else b

abbrev pub stored_audio : Text → Result (Option Text)
stored_audio [] = ok none
stored_audio (c ∷ name) = checked (sanitize_voice_basename (c ∷ name))
  where
    checked : Result Text → Result (Option Text)
    checked (ok safe) = ok (some (c ∷ name))
    checked (err e) = err e

abbrev pub insert_row : Text → Text → Option Text → Act (Unit {0})
insert_row nick body audio = exec (λ w. record w {
  messages =
      w.messages
      ++ record {
        id = w.next_id;
        created_at = now_seconds w;
        author_nick = nick;
        body = body;
        audio_file = audio;
      }
        ∷ [];
  next_id = suc w.next_id;
})

-- `Insert`
unfoldable pub insert : Text → Text → Text → Act (Unit {0})
insert nick body audio_file = do
  audio ← lift (stored_audio audio_file)
  insert_row nick (stored_body body) audio

-- The limit that `ListRecent` uses; none of its callers passes a negative one.
abbrev pub row_limit : ℕ → ℕ
row_limit limit = if limit == 0 then list_limit else if ltb 200 limit then 200 else limit

-- `ListRecent`: the query takes the rows of the greatest ids, in the order of their ids.
unfoldable pub list_recent : ℕ → Act (List Message)
list_recent limit = query (λ w. ok (drop (length w.messages - row_limit limit) w.messages))

abbrev pub kv_retention_days : Text
kv_retention_days = codes "library_chat_retention_days"

abbrev pub default_retention_days : ℕ
default_retention_days = 7

abbrev pub min_retention_days : ℕ
min_retention_days = 1

abbrev pub max_retention_days : ℕ
max_retention_days = 365

abbrev pub parsed_days : Option ℕ → ℕ
parsed_days none = default_retention_days
parsed_days (some n) =
    if ltb n min_retention_days
    then default_retention_days
    else if ltb max_retention_days n
    then max_retention_days
    else n

abbrev pub days_of : Result Text → ℕ
days_of (err e) = default_retention_days
days_of (ok v) =
    if text_eq (trim_space v) [] then default_retention_days else parsed_days (atoi (trim_space v))

-- `RetentionDays`
unfoldable pub retention_days : World → ℕ × World
retention_days w = let (r, w') = select_kv kv_retention_days w in (days_of r, w')

-- The clamp of `SetRetentionDays` and `PruneOlderThan`; a negative number is clamped as 0 is.
abbrev pub clamp_days : ℕ → ℕ
clamp_days days =
    if ltb days min_retention_days
    then min_retention_days
    else if ltb max_retention_days days
    then max_retention_days
    else days

-- `SetRetentionDays`
unfoldable pub set_retention_days : ℕ → Act (Unit {0})
set_retention_days days = upsert_kv kv_retention_days (itoa (clamp_days days))

-- `DELETE FROM library_chat_messages WHERE …`, by the rows that stay.
abbrev pub delete_rows : (Message → Bool) → Act (Unit {0})
delete_rows stays = exec (λ w. record w { messages = keep stays w.messages })

-- `for … { _ = os.Remove(filepath.Join(dir, name)) }`
unfoldable pub remove_all : Text → List Text → Act (Unit {0})
remove_all dir [] = return tt
remove_all dir (name ∷ names) = do attempt (remove (join_path dir name)); remove_all dir names

abbrev is_folder : Node → Bool
is_folder folder = true
is_folder (regular bytes at) = false
is_folder symlink = false

-- The entry of a path in a listing of `dir`, if it lies there and is no folder.
abbrev listed : Text → Text × Node → List Text
listed dir (path, node) =
    let name = strip path (dir ++ slash ∷ []) in
    if has_prefix path (dir ++ slash ∷ []) && not (contains_rune name slash) && not (is_folder node)
    then name ∷ []
    else []

abbrev pub listing : Text → List (Text × Node) → List Text
listing dir [] = []
listing dir (entry ∷ disk) = listed dir entry ++ listing dir disk

-- `ClearAll`; a missing folder lists nothing.
unfoldable pub clear_all : Result Text → Text → Act (Unit {0})
clear_all cwd data_dir = do
  delete_rows (λ m. false)
  names ← query (λ w. ok (listing (clip_folder cwd data_dir) w.disk))
  remove_all (clip_folder cwd data_dir) names

-- `time.Now().UTC().AddDate(0, 0, -days)`, in whole seconds: a day in UTC has 86400 of them. Before
-- the epoch the code's cutoff is negative, and as the 0 here it has no rows before it.
abbrev pub cutoff : World → ℕ → ℕ
cutoff w days = now_seconds w - days * 86_400

abbrev pub is_blank : Text → Bool
is_blank s = not (any (λ c. not (c == b' ')) s)

abbrev pub audio_of : Option Text → List Text
audio_of none = []
audio_of (some name) = if is_blank name then [] else name ∷ []

-- The audio files of the rows before the cutoff.
abbrev pub old_audio : ℕ → List Message → List Text
old_audio t [] = []
old_audio t (m ∷ ms) =
    if ltb m.created_at t then audio_of m.audio_file ++ old_audio t ms else old_audio t ms

abbrev pub valid_name : Result Text → List Text
valid_name (ok safe) = safe ∷ []
valid_name (err e) = []

abbrev pub valid_names : List Text → List Text
valid_names [] = []
valid_names (name ∷ names) = valid_name (sanitize_voice_basename name) ++ valid_names names

abbrev pub prune_before : Text → ℕ → Act (Unit {0})
prune_before dir t = do
  names ← query (λ w. ok (old_audio t w.messages))
  delete_rows (λ m. not (ltb m.created_at t))
  remove_all dir (valid_names names)

-- `PruneOlderThan`
unfoldable pub prune_older_than : Result Text → Text → ℕ → Act (Unit {0})
prune_older_than cwd data_dir days w =
    prune_before (clip_folder cwd data_dir) (cutoff w (clamp_days days)) w
