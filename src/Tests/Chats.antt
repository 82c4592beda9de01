-- ===== src/Tests/Chats.antt =====
-- The chat at concrete inputs.
use hubabox.Tests.Paths.{cwd}
use hubabox.Base.{
  ℕ, ◌*◌, [], ◌∷◌, ◌≡◌, refl, ok, err, invalid_audio_name, Option, none, some, keep, ◌⊎◌,
}
use hubabox.Text.{Text, codes, text_eq}
use hubabox.Text.Assoc.{find}
use hubabox.Text.Decimal.{itoa, atoi}
use hubabox.World.{World, Message, Node, regular, second, fails}
use hubabox.Chat.{
  insert, list_recent, retention_days, set_retention_days, clamp_days, min_retention_days,
  max_retention_days, prune_older_than, clear_all, sanitize_voice_basename, cutoff, clip_folder,
}
use hubabox.Chat.Expired.{is_within, IsOldClip, prune_older_than-messages, prune_older_than-disk}

chats : Unit {0}
unfolding insert list_recent retention_days set_retention_days prune_older_than clear_all
    hubabox.FilePath.abs sanitize_voice_basename hubabox.Chat.stored_body
    hubabox.Chat.is_voice_basename hubabox.Chat.remove_all itoa atoi hubabox.Text.Decimal.digits
    hubabox.Text.trim_space hubabox.Text.contains_rune hubabox.Text.has_prefix hubabox.Text.strip
    hubabox.FilePath.base hubabox.FilePath.join_path fails hubabox.World.later find
    hubabox.Text.Assoc.put hubabox.Text.Assoc.del text_eq
chats = tt

abbrev clip : Text
clip = codes "00112233445566778899aabbccddeeff.webm"

abbrev row : ℕ → ℕ → Option Text → Message
row id at audio = record {
  id = id;
  created_at = at;
  author_nick = codes "Anna";
  body = codes "hi";
  audio_file = audio;
}

abbrev voice : Text
voice = codes "/d/library_chat_audio/00112233445566778899aabbccddeeff.webm"

-- Ten days after the first row, and on the day of the second one.
abbrev hub : World
hub = record {
  kv = [];
  sessions = [];
  messages = row 1 0 (some clip) ∷ row 2 0 (some (codes "../files/a")) ∷ row 4 800_000 none ∷ [];
  next_id = 5;
  disk = (voice, regular (1 ∷ []) 0) ∷ (codes "/d/files/a", regular (2 ∷ []) 0) ∷ [];
  now = 864_000 * second;
  faults = [];
}

runs :
    (sanitize_voice_basename (codes " x/00112233445566778899aabbccddeeff.webm") ≡ ok clip)
    × (sanitize_voice_basename (codes "a.webm") ≡ err invalid_audio_name)
    × ((prune_older_than cwd (codes "/d") 7 hub).1.messages ≡ row 4 800_000 none ∷ [])
    × (find voice (prune_older_than cwd (codes "/d") 7 hub).1.disk ≡ none)
    × ((clear_all cwd (codes "/d") hub).1.messages ≡ [])
    × (find voice (clear_all cwd (codes "/d") hub).1.disk ≡ none)
    × ((retention_days hub).0 ≡ 7)
    × (itoa 365 ≡ codes "365")
    × ((prune_older_than cwd (codes "/d") 0 hub).1.messages ≡ row 4 800_000 none ∷ [])
    × ((prune_older_than cwd (codes "/d") 11 hub).1.messages ≡ hub.messages)
    × (find (codes "/d/files/a") (prune_older_than cwd (codes "/d") 7 hub).1.disk
        ≡ some (regular (2 ∷ []) 0))
unfolding chats
runs = (refl, refl, refl, refl, refl, refl, refl, refl, refl, refl, refl)

prune_older_than-messages_example :
    (prune_older_than cwd (codes "/d") 7 hub).1.messages ≡ keep (is_within 7 hub) hub.messages
unfolding chats
prune_older_than-messages_example = prune_older_than-messages cwd (codes "/d") 7 hub refl

prune_older_than-disk_example :
    (find voice (prune_older_than cwd (codes "/d") 7 hub).1.disk ≡ find voice hub.disk)
    ⊎ IsOldClip (clip_folder cwd (codes "/d")) 7 hub hub.messages voice
prune_older_than-disk_example = prune_older_than-disk cwd (codes "/d") voice 7 hub
