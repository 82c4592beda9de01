-- ===== src/Server/FileForms/Laws.antt =====
-- What an upload or a deletion of several files does as a whole.
use hubabox.Base.{
  Tally, count, count_sum, ◌+◌, Bool, false, ◌||◌, ◌≡◌, refl, ◌∙◌, List, [], ◌∷◌, any, length,
  Result, ok, err, is_ok, arith, Result-cases, inl, inr, or-eq-false,
}
use hubabox.Text.{Text, text_eq}
use hubabox.Text.Assoc.{find}
use hubabox.Files.{sanitize_rel_path, join_resolved_under_hub}
use hubabox.World.{World}
use hubabox.World.Disk.{Reader}
use hubabox.Upload.{partial, save_upload, save_upload_with_limit, remove_file, max_upload_bytes}
use hubabox.Upload.Saved.{save_upload_with_limit-elsewhere, remove_file-find}
use hubabox.Server.FileForms.{FilePart, upload_name, save_named, save_part, upload_all, delete_all}

module _ (cwd : Result Text) (files_dir : Text) where
  upload_all-sum :
      (ps : List FilePart) (t : Tally) (w : World)
      → (upload_all cwd files_dir ps t w).0.0 + (upload_all cwd files_dir ps t w).0.1
        ≡ t.0 + t.1 + length ps
  unfolding upload_all
  upload_all-sum [] t w = omega arith
  upload_all-sum (p ∷ ps) t w =
      let (saved, w') = save_part cwd files_dir p.filename p.content w in
      omega (arith, upload_all-sum ps (count saved t) w', count_sum saved t)

  -- Whether a path is the place of a name in the hub's folder.
  abbrev placed : Result Text → (Text → Bool) → Bool
  placed (err e) f = false
  placed (ok full) f = f full

  abbrev place_of : Result Text → (Text → Bool) → Bool
  place_of (err e) f = false
  place_of (ok safe) f = placed (join_resolved_under_hub cwd files_dir safe) f

  abbrev pub is_place : Text → Text → Bool
  is_place q name = place_of (sanitize_rel_path name) (λ full. text_eq full q)

  -- Whether a path is the place of an upload, or that of its temporary file.
  abbrev pub is_upload_place : Text → FilePart → Bool
  is_upload_place q p =
      place_of (sanitize_rel_path (upload_name p.filename))
        (λ full. text_eq full q || text_eq (partial full) q)

  save_upload-elsewhere :
      (name q : Text) (r : Reader) (w : World)
      → place_of (sanitize_rel_path name) (λ full. text_eq full q || text_eq (partial full) q)
        ≡ false
      → find q (save_upload cwd files_dir name r w).1.disk ≡ find q w.disk
  unfolding save_upload
  save_upload-elsewhere name q r w h = elim (Result-cases (sanitize_rel_path name)) [
    | inr (e, s) ↦ unfold save_upload_with_limit in rw s refl
    | inl (safe, s) ↦ elim (Result-cases (join_resolved_under_hub cwd files_dir safe)) [
      | inr (e, j) ↦ unfold save_upload_with_limit in rw (s, j) refl
      | inl (full, j) ↦
          let (a, b) = or-eq-false (rw (s, j) at h) in
          save_upload_with_limit-elsewhere cwd files_dir name r max_upload_bytes safe full q w
            (s, j) a b
    ]
  ]

  save_named-elsewhere :
      (name q : Text) (r : Reader) (w : World)
      → place_of (sanitize_rel_path name) (λ full. text_eq full q || text_eq (partial full) q)
        ≡ false
      → find q (save_named cwd files_dir name r w).1.disk ≡ find q w.disk
  save_named-elsewhere [] q r w h = refl
  save_named-elsewhere (c ∷ name) q r w h = save_upload-elsewhere (c ∷ name) q r w h

  save_part-elsewhere :
      (filename q : Text) (content : Result Reader) (w : World)
      → place_of
          (sanitize_rel_path (upload_name filename))
          (λ full. text_eq full q || text_eq (partial full) q)
        ≡ false
      → find q (save_part cwd files_dir filename content w).1.disk ≡ find q w.disk
  save_part-elsewhere filename q (err e) w h = refl
  save_part-elsewhere filename q (ok r) w h = save_named-elsewhere (upload_name filename) q r w h

  upload_all-find :
      (q : Text) (ps : List FilePart) (t : Tally) (w : World)
      → any (is_upload_place q) ps ≡ false
      → find q (upload_all cwd files_dir ps t w).1.disk ≡ find q w.disk
  unfolding upload_all
  upload_all-find q [] t w h = refl
  upload_all-find q (p ∷ ps) t w h =
      let (one, rest) = or-eq-false h in
      let (saved, w') = save_part cwd files_dir p.filename p.content w in
      upload_all-find q ps (count saved t) w' rest
      ∙ save_part-elsewhere p.filename q p.content w one

  -- An upload of several files counts each of them, as saved or as not saved, and touches no path
  -- but the places of their names and those of their temporary files, whatever fails.
  pub upload_all-elsewhere :
      (q : Text) (ps : List FilePart) (t : Tally) (w : World)
      → any (is_upload_place q) ps ≡ false
      → (find q (upload_all cwd files_dir ps t w).1.disk ≡ find q w.disk)
        × ((upload_all cwd files_dir ps t w).0.0 + (upload_all cwd files_dir ps t w).0.1
            ≡ t.0 + t.1 + length ps)
  upload_all-elsewhere q ps t w h = (upload_all-find q ps t w h, upload_all-sum ps t w)

  remove_file-elsewhere :
      (q name : Text) (w : World)
      → is_place q name ≡ false
      → find q (remove_file cwd files_dir name w).1.disk ≡ find q w.disk
  remove_file-elsewhere q name w h = elim (Result-cases (sanitize_rel_path name)) [
    | inr (e, s) ↦ unfold remove_file in rw s refl
    | inl (safe, s) ↦ elim (Result-cases (join_resolved_under_hub cwd files_dir safe)) [
      | inr (e, j) ↦ unfold remove_file in rw (s, j) refl
      | inl (full, j) ↦
          let other : text_eq full q ≡ false = rw (s, j) at h in
          remove_file-find cwd files_dir name safe full q w (s, j) ∙ rw other refl
    ]
  ]

  -- A deletion of several files counts each of them, and touches no path but the places of their
  -- names, whatever fails.
  delete_all-elsewhere :
      (q : Text) (names : List Text) (t : Tally) (w : World)
      → any (is_place q) names ≡ false
      → (find q (delete_all cwd files_dir names t w).1.disk ≡ find q w.disk)
        × ((delete_all cwd files_dir names t w).0.0 + (delete_all cwd files_dir names t w).0.1
            ≡ t.0 + t.1 + length names)
  unfolding delete_all
  delete_all-elsewhere q [] t w h = (refl, omega arith)
  delete_all-elsewhere q (name ∷ names) t w h =
      let (one, rest) = or-eq-false h in
      let (removed, w') = remove_file cwd files_dir name w in
      let (a, b) = delete_all-elsewhere q names (count (is_ok removed) t) w' rest in
      (a ∙ remove_file-elsewhere q name w one, omega (arith, count_sum (is_ok removed) t))
