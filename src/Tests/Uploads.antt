-- ===== src/Tests/Uploads.antt =====
-- Uploads and removals at concrete inputs.
use hubabox.Base.{
  Bool, true, false, List, [], ◌∷◌, ◌≡◌, refl, ok, err, too_large, system, none, arith,
}
use hubabox.Text.{Text, codes, text_eq}
use hubabox.Text.Assoc.{find}
use hubabox.World.{World, Node, regular}
use hubabox.World.Disk.{Reader}
use hubabox.Upload.{partial, save_upload_with_limit, remove_file}
use hubabox.Upload.Atomic.{IsStored}
use hubabox.Upload.Saved.{
  IsPlace, save_upload_with_limit-keeps_old, save_upload_with_limit-IsStored,
  save_upload_with_limit_succeeds,
}
use hubabox.Tests.Paths.{cwd}

uploads : Unit {0}
unfolding hubabox.Tests.Paths.paths hubabox.Upload.store_file save_upload_with_limit remove_file
    hubabox.World.fails hubabox.World.later find hubabox.Text.Assoc.put hubabox.Text.Assoc.del
    text_eq
uploads = tt

abbrev dir : Text
dir = codes "/f"

abbrev name : Text
name = codes " a "

abbrev safe : Text
safe = codes "a"

abbrev full : Text
full = codes "/f/a"

abbrev other : Text
other = codes "/f/b"

-- A file stands at the place, and the rename fails.
abbrev hub : List Bool → World
hub faults = record {
  kv = [];
  sessions = [];
  messages = [];
  next_id = 1;
  disk = (full, regular (1 ∷ []) 5) ∷ (other, regular (2 ∷ []) 6) ∷ [];
  now = 9;
  faults = faults;
}

abbrev source : Reader
source = record { bytes = 7 ∷ 8 ∷ 9 ∷ []; broken = false }

place : IsPlace cwd dir name safe full
unfolding uploads
place = (refl, refl)

distinct : (text_eq full other ≡ false) × (text_eq (partial full) other ≡ false)
unfolding uploads
distinct = (refl, refl)

abbrev rename_fails : World
rename_fails = hub (false ∷ false ∷ false ∷ true ∷ [])

removal :
    ((remove_file cwd dir name (hub [])).0 ≡ ok tt)
    × (find full (remove_file cwd dir name (hub [])).1.disk ≡ none)
unfolding uploads
removal = (refl, refl)

runs :
    ((save_upload_with_limit cwd dir name source 3 (hub [])).0 ≡ ok (safe, 3))
    × ((save_upload_with_limit cwd dir name source 2 (hub [])).0 ≡ err too_large)
    × ((save_upload_with_limit cwd dir name source 3 rename_fails).0 ≡ err system)
    × (find (partial full) (save_upload_with_limit cwd dir name source 3 rename_fails).1.disk
        ≡ none)
unfolding uploads
runs = (refl, refl, refl, refl)

save_upload_with_limit-keeps_old_example :
    find full (save_upload_with_limit cwd dir name source 3 rename_fails).1.disk
    ≡ find full rename_fails.disk
save_upload_with_limit-keeps_old_example =
    save_upload_with_limit-keeps_old cwd dir name source 3 safe full system rename_fails place
      runs.2

save_upload_with_limit-IsStored_example :
    (s f : Text) × IsPlace cwd dir name s f
    × IsStored s source 3
        (safe, 3)
        (find f (save_upload_with_limit cwd dir name source 3 (hub [])).1.disk)
        9
save_upload_with_limit-IsStored_example =
    save_upload_with_limit-IsStored cwd dir name source 3 (safe, 3) (hub []) runs.0

save_upload_with_limit_succeeds_example :
    (save_upload_with_limit cwd dir name source 3 (hub [])).0 ≡ ok (safe, 3)
save_upload_with_limit_succeeds_example =
    save_upload_with_limit_succeeds cwd dir name source 3 safe full (hub []) place refl refl
      (omega arith)
