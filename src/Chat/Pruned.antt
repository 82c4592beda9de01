-- ===== src/Chat/Pruned.antt =====
-- What pruning and clearing remove from the chat, and what they leave.
use hubabox.Base.{
  Result, ℕ, Bool, false, not, ◌≡◌, refl, ◌∙◌, List, [], ◌∷◌, any, ltb, if◌then◌else◌, ok, arith,
  keep, Bool-cases, inl, inr, err-ne-ok, system, or-eq-false,
}
use hubabox.Text.{Text, text_eq}
use hubabox.Text.Assoc.{find}
use hubabox.FilePath.{join_path}
use hubabox.World.{World, Message, attempt, fails, later}
use hubabox.World.Disk.{remove}
use hubabox.Upload.Atomic.{Leaves, bind-Leaves, remove-Leaves}
use hubabox.Chat.{clip_folder, remove_all, prune_before, clear_all, old_audio, valid_names, listing}

-- One of the names leads to a path.
abbrev pub leads_to : Text → List Text → Text → Bool
leads_to dir names q = any (λ name. text_eq (join_path dir name) q) names

remove_all-Leaves :
    (dir q : Text) (names : List Text)
    → leads_to dir names q ≡ false
    → Leaves q (remove_all dir names)
unfolding remove_all
remove_all-Leaves dir q [] h = λ w. refl
remove_all-Leaves dir q (name ∷ names) h =
    let (one, rest) = or-eq-false h in
    bind-Leaves q (attempt (remove (join_path dir name))) (λ _. remove_all dir names)
      (remove-Leaves (join_path dir name) q one) (λ _. remove_all-Leaves dir q names rest)

-- `remove_all` changes files only.
abbrev pub SameRows : World → World → Type 0
SameRows w v = (v.messages ≡ w.messages) × (v.next_id ≡ w.next_id)

pub remove_all-SameRows :
    (dir : Text) (names : List Text) (w : World) → SameRows w (remove_all dir names w).1
unfolding remove_all
remove_all-SameRows dir [] w = (refl, refl)
remove_all-SameRows dir (name ∷ names) w =
    let step = attempt (remove (join_path dir name)) in
    let (a, b) = remove_all-SameRows dir names (step w).1 in
    (a ∙ remove-messages (join_path dir name) w, b ∙ remove-next_id (join_path dir name) w)
  where
    remove-messages : (path : Text) (w : World) → (remove path w).1.messages ≡ w.messages
    remove-messages path w = ground arith

    remove-next_id : (path : Text) (w : World) → (remove path w).1.next_id ≡ w.next_id
    remove-next_id path w = ground arith

-- What a pruning keeps: the rows that are not older than the cutoff.
abbrev pub recent : ℕ → List Message → List Message
recent t ms = keep (λ m. not (ltb m.created_at t)) ms

pub prune_before_messages :
    (dir : Text) (t : ℕ) (w : World)
    → (prune_before dir t w).0 ≡ ok tt
    → (prune_before dir t w).1.messages ≡ recent t w.messages
prune_before_messages dir t w e = elim (Bool-cases (fails w.faults)) [
  | inl f ↦ absurd (err-ne-ok system tt (rw f at e))
  | inr f ↦ elim (Bool-cases (fails (later w.faults))) [
    | inl g ↦ absurd (err-ne-ok system tt (rw (f, g) at e))
    | inr g ↦ rw (f, g) (remove_all-SameRows dir (valid_names (old_audio t w.messages)) _).0
  ]
]

pub prune_before_disk :
    (dir q : Text) (t : ℕ) (w : World)
    → leads_to dir (valid_names (old_audio t w.messages)) q ≡ false
    → find q (prune_before dir t w).1.disk ≡ find q w.disk
prune_before_disk dir q t w h = elim (Bool-cases (fails w.faults)) [
  | inl f ↦ rw f refl
  | inr f ↦ elim (Bool-cases (fails (later w.faults))) [
    | inl g ↦ rw (f, g) refl
    | inr g ↦ rw (f, g) (remove_all-Leaves dir q (valid_names (old_audio t w.messages)) h _)
  ]
]

-- `ClearAll` empties the chat, unless its statement failed, and gives no id twice.
pub clear_all_messages :
    (cwd : Result Text) (data_dir : Text) (w : World)
    → ((clear_all cwd data_dir w).1.messages ≡ (if fails w.faults then w.messages else []))
      × ((clear_all cwd data_dir w).1.next_id ≡ w.next_id)
unfolding clear_all
clear_all_messages cwd data_dir w = elim (Bool-cases (fails w.faults)) [
  | inl f ↦ rw f (refl, refl)
  | inr f ↦ elim (Bool-cases (fails (later w.faults))) [
    | inl g ↦ rw (f, g) (keep_none w.messages, refl)
    | inr g ↦
        let (a, b) =
          remove_all-SameRows (clip_folder cwd data_dir) (listing (clip_folder cwd data_dir) w.disk)
            _ in
        rw (f, g) (a ∙ keep_none w.messages, b)
  ]
]
  where
    keep_none : (ms : List Message) → keep (λ m. false) ms ≡ []
    keep_none [] = refl
    keep_none (m ∷ ms) = keep_none ms
