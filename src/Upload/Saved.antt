-- ===== src/Upload/Saved.antt =====
-- `saveUploadWithLimit` as a whole: the name, the place in the hub's folder, and the file.
use hubabox.Base.{
  ℕ, ◌+◌, ◌≤◌, false, [], ◌≡◌, if◌then◌else◌, ◌&&◌, Result, ok, err, is_ok, Error, none, arith,
  length, take, Result-cases, inl, inr, err-ne-ok,
}
use hubabox.Text.{Text, text_eq, text_eq_refl}
use hubabox.Text.Assoc.{find, put, find-put, find-del}
use hubabox.Files.{sanitize_rel_path, join_resolved_under_hub}
use hubabox.World.{World, regular, fails, later}
use hubabox.World.Disk.{Reader}
use hubabox.Upload.{partial, store_file, save_upload_with_limit, remove_file}
use hubabox.Upload.Atomic.{
  store_file-elsewhere, store_file-LeavesOnError, store_file-IsStored, partial-ne_self, IsStored,
}

-- The place of an upload: the sanitised name, and its absolute path.
abbrev pub IsPlace : Result Text → Text → Text → Text → Text → Type 0
IsPlace cwd dir name safe full =
    (sanitize_rel_path name ≡ ok safe) × (join_resolved_under_hub cwd dir safe ≡ ok full)

module _ (cwd : Result Text) (dir name : Text) (r : Reader) (max : ℕ) where
  save_at :
      {safe full : Text} (w : World)
      → IsPlace cwd dir name safe full
      → save_upload_with_limit cwd dir name r max w ≡ store_file full safe r max w
  unfolding save_upload_with_limit
  save_at w (s, j) = rw (s, j)

  -- An upload that has a place in the hub leaves every path alone but the file's own and that of
  -- its temporary file, however it ends and whatever fails on the way.
  pub save_upload_with_limit-elsewhere :
      (safe full q : Text) (w : World)
      → IsPlace cwd dir name safe full
      → text_eq full q ≡ false
      → text_eq (partial full) q ≡ false
      → find q (save_upload_with_limit cwd dir name r max w).1.disk ≡ find q w.disk
  save_upload_with_limit-elsewhere safe full q w p n m =
      rw (save_at w p) (store_file-elsewhere full safe r max q m n w)

  -- An upload that has a place in the hub and fails leaves the file that it was to replace as it
  -- was, or absent if it was absent, whatever step failed.
  pub save_upload_with_limit-keeps_old :
      (safe full : Text) (e : Error) (w : World)
      → IsPlace cwd dir name safe full
      → (save_upload_with_limit cwd dir name r max w).0 ≡ err e
      → find full (save_upload_with_limit cwd dir name r max w).1.disk ≡ find full w.disk
  save_upload_with_limit-keeps_old safe full e w p h = rw (save_at w p) (
      store_file-LeavesOnError full safe r max full (partial-ne_self full) w e
        (rw (save_at w p) at h))

  -- A successful upload has a place, where the whole content of the source is stored; its answer is
  -- the sanitised name and the size, which is within the bound.
  pub save_upload_with_limit-IsStored :
      (answer : Text × ℕ) (w : World)
      → (save_upload_with_limit cwd dir name r max w).0 ≡ ok answer
      → (safe full : Text) × IsPlace cwd dir name safe full
        × IsStored safe r max answer
            (find full (save_upload_with_limit cwd dir name r max w).1.disk)
            w.now
  unfolding save_upload_with_limit
  save_upload_with_limit-IsStored answer w h = elim (Result-cases (sanitize_rel_path name)) [
    | inr (x, s) ↦ absurd (err-ne-ok x answer (rw s at h))
    | inl (safe, s) ↦ elim (Result-cases (join_resolved_under_hub cwd dir safe)) [
      | inr (x, j) ↦ absurd (err-ne-ok x answer (rw (s, j) at h))
      | inl (full, j) ↦ (
        safe,
        full,
        (s, j),
        rw (s, j) (store_file-IsStored full safe r max answer w (rw (s, j) at h)),
      )
    ]
  ]

store_file_succeeds :
    (full safe : Text) (r : Reader) (max : ℕ) (w : World)
    → w.faults ≡ []
    → r.broken ≡ false
    → length r.bytes ≤ max
    → (store_file full safe r max w).0 ≡ ok (safe, length r.bytes)
unfolding store_file fails later
store_file_succeeds full safe r max w f b h =
    let tmp = regular (take (max + 1) r.bytes) w.now in
    let made = put (partial full) (regular [] w.now) w.disk in
    rw (f, b)
      (ground (arith, find-put (partial full) (partial full) tmp made, text_eq_refl (partial full)))

-- When nothing fails, an upload that has a place in the hub, is within the bound and whose source
-- ends well succeeds, and answers its sanitised name and its size.
pub save_upload_with_limit_succeeds :
    (cwd : Result Text) (dir name : Text) (r : Reader) (max : ℕ) (safe full : Text) (w : World)
    → IsPlace cwd dir name safe full
    → w.faults ≡ []
    → r.broken ≡ false
    → length r.bytes ≤ max
    → (save_upload_with_limit cwd dir name r max w).0 ≡ ok (safe, length r.bytes)
save_upload_with_limit_succeeds cwd dir name r max safe full w p f b h =
    rw (save_at cwd dir name r max w p) (store_file_succeeds full safe r max w f b h)

-- A successful removal has removed the file at the place of its name, and nothing else; a refused
-- one has changed no file.
pub remove_file-find :
    (cwd : Result Text) (dir name safe full q : Text) (w : World)
    → IsPlace cwd dir name safe full
    → find q (remove_file cwd dir name w).1.disk
      ≡ (if text_eq full q && is_ok (remove_file cwd dir name w).0 then none else find q w.disk)
unfolding remove_file
remove_file-find cwd dir name safe full q w (s, j) =
    rw (s, j) (ground (arith, find-del full q w.disk))
