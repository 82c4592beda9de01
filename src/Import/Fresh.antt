-- ===== src/Import/Fresh.antt =====
-- An import takes a name that no file of the hub has.
use hubabox.Base.{
  Result, ℕ, zero, suc, ◌+◌, ◌≤◌, ◌<◌, ◌≡◌, ◌⊎◌, sym, ok, too_many_collisions, system, none, arith,
  Bool-cases, Option-cases, Result-cases, inl, inr, err-ne-ok, ok-injective,
}
use hubabox.Text.{Text}
use hubabox.Text.Assoc.{find}
use hubabox.FilePath.{resolved_path, join_path}
use hubabox.Files.{sanitize_name}
use hubabox.World.{World, fails, tick}
use hubabox.Import.{candidate, first_free, unique_dest_name, last_candidate}

-- A name that no file of a folder has.
abbrev pub IsFree : Result Text → Text → World → Text → Type 0
IsFree cwd dest_dir w name = find (resolved_path cwd (join_path dest_dir name)) w.disk ≡ none

-- The name itself, or one with a number behind its stem.
abbrev pub IsNumbered : Text → Text → Type 0
IsNumbered safe name =
    (name ≡ safe) ⊎ ((i : ℕ) × (name ≡ candidate safe i) × (1 ≤ i) × (i ≤ last_candidate))

first_free_lem :
    (cwd : Result Text) (dest_dir safe : Text) (i left : ℕ) (w : World) {name : Text}
    → (first_free cwd dest_dir safe i left w).0 ≡ ok name
    → IsFree cwd dest_dir w name × ((j : ℕ) × (name ≡ candidate safe j) × (i ≤ j) × (j < i + left))
unfolding first_free
first_free_lem cwd dest_dir safe i zero w {name} e = absurd (err-ne-ok too_many_collisions name e)
first_free_lem cwd dest_dir safe i (suc left) w {name} e =
    let path = resolved_path cwd (join_path dest_dir (candidate safe i)) in
    elim (Bool-cases (fails w.faults)) [
      | inl f ↦ absurd (err-ne-ok system name (rw f at e))
      | inr f ↦ elim (Option-cases (find path w.disk)) [
        | inl free ↦
            let same : candidate safe i ≡ name = ok-injective (rw (f, free) at e) in
            (rw (← same) free, (i, sym same, omega arith, omega arith))
        | inr (node, taken) ↦
            let (free, (j, same, low, high)) =
              first_free_lem cwd dest_dir safe (suc i) left (tick w) (rw (f, taken) at e) in
            (free, (j, same, omega arith, omega arith))
      ]
    ]

-- The name that `UniqueDestName` answers is the sanitised name or one of its numbered forms, and
-- when it was looked up no file of the folder had it.
pub unique_dest_name-IsFree :
    (cwd : Result Text) (dest_dir base_name : Text) (w : World) {name : Text}
    → (unique_dest_name cwd dest_dir base_name w).0 ≡ ok name
    → (safe : Text) × (sanitize_name base_name ≡ ok safe)
      × IsFree cwd dest_dir w name
      × IsNumbered safe name
unfolding unique_dest_name
unique_dest_name-IsFree cwd dest_dir base_name w {name} e =
    elim (Result-cases (sanitize_name base_name)) [
      | inr (x, s) ↦ absurd (err-ne-ok x name (rw s at e))
      | inl (safe, s) ↦ elim (Bool-cases (fails w.faults)) [
        | inl f ↦ absurd (err-ne-ok system name (rw (s, f) at e))
        | inr f ↦ elim (Option-cases (find (resolved_path cwd (join_path dest_dir safe)) w.disk)) [
          | inl free ↦
              let same : safe ≡ name = ok-injective (rw (s, f, free) at e) in
              (safe, s, rw (← same) free, inl (sym same))
          | inr (node, taken) ↦
              let (free, (j, numbered, low, high)) =
                first_free_lem cwd dest_dir safe 1 last_candidate (tick w)
                  (rw (s, f, taken) at e) in
              (safe, s, free, inr (j, numbered, low, omega arith))
        ]
      ]
    ]
