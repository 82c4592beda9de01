-- ===== src/Chat/Messages.antt =====
-- The rows of the chat: what an insertion adds, and what a page lists.
use hubabox.Base.{
  ℕ, zero, suc, ◌+◌, ◌-◌, ◌≤◌, false, ◌≡◌, refl, ap, ◌∙◌, List, [], ◌∷◌, ◌++◌, if◌then◌else◌, ok,
  Option, none, some, arith, drop, length, length-append, Bool-cases, inl, inr, err-ne-ok,
  Result-cases, system,
}
use hubabox.Text.{Text, text_eq}
use hubabox.World.{World, Message, now_seconds, fails}
use hubabox.Chat.{
  insert, stored_audio, stored_body, list_recent, row_limit, sanitize_voice_basename,
}

drop-append :
    {A : Type 0} (k : ℕ) (xs : List A) (x : A)
    → k ≤ length xs
    → drop k (xs ++ x ∷ []) ≡ drop k xs ++ x ∷ []
drop-append zero xs x h = refl
drop-append (suc k) [] x h = elim h [ ]
drop-append (suc k) (y ∷ xs) x h = drop-append k xs x (omega arith)

length-drop : {A : Type 0} (k : ℕ) (xs : List A) → length (drop k xs) ≡ length xs - k
length-drop zero xs = omega arith
length-drop (suc k) [] = omega arith
length-drop (suc k) (x ∷ xs) = omega (arith, length-drop k xs)

-- The row that `Insert` adds.
abbrev pub new_row : Text → Text → Text → World → Message
new_row nick body audio_file w = record {
  id = w.next_id;
  created_at = now_seconds w;
  author_nick = nick;
  body = stored_body body;
  audio_file = if text_eq audio_file [] then none else some audio_file;
}

stored_audio_lem :
    (audio_file : Text) (audio : Option Text)
    → stored_audio audio_file ≡ ok audio
    → audio ≡ (if text_eq audio_file [] then none else some audio_file)
unfolding text_eq
stored_audio_lem [] audio e = ground arith
stored_audio_lem (c ∷ name) audio e = elim (Result-cases (sanitize_voice_basename (c ∷ name))) [
  | inl (safe, q) ↦ ground arith
  | inr (x, q) ↦ absurd (ground arith)
]

pub insert_lem :
    (nick body audio_file : Text) (w : World)
    → (insert nick body audio_file w).0 ≡ ok tt
    → (insert nick body audio_file w).1.messages ≡ w.messages ++ new_row nick body audio_file w ∷ []
unfolding insert
insert_lem nick body audio_file w e = elim (Result-cases (stored_audio audio_file)) [
  | inr (x, q) ↦ absurd (err-ne-ok x tt (rw q at e))
  | inl (audio, q) ↦ elim (Bool-cases (fails w.faults)) [
    | inl f ↦ absurd (err-ne-ok system tt (rw (q, f) at e))
    | inr f ↦ rw (q, f, stored_audio_lem audio_file audio q) refl
  ]
]

row_limit-bounds : (limit : ℕ) → (1 ≤ row_limit limit) × (row_limit limit ≤ 200)
row_limit-bounds limit = (ground arith, ground arith)

-- After a successful `Insert`, while no other row comes and the query does not fail, its row stands
-- last in what `ListRecent` returns, whatever the limit, and no more than 200 rows are returned.
list_recent-insert :
    (nick body audio_file : Text) (limit : ℕ) (w v : World)
    → (insert nick body audio_file w).0 ≡ ok tt
    → v.messages ≡ (insert nick body audio_file w).1.messages
    → fails v.faults ≡ false
    → (older : List Message) × ((list_recent limit v).0
        ≡ ok (older ++ new_row nick body audio_file w ∷ []))
      × (length older + 1 ≤ 200)
unfolding list_recent
list_recent-insert nick body audio_file limit w v e s f =
    let row = new_row nick body audio_file w in
    let all : v.messages ≡ w.messages ++ row ∷ [] = s ∙ insert_lem nick body audio_file w e in
    let k = length (w.messages ++ row ∷ []) - row_limit limit in
    let n = length-append w.messages (row ∷ []) in
    let (low, high) = row_limit-bounds limit in
    (
      drop k w.messages,
      rw (f, all) (ap ok (drop-append k w.messages row (omega arith))),
      omega (arith, length-drop k w.messages),
    )
