-- ===== src/Tests/Scans.antt =====
-- Imports, their reports and the watch loop at concrete inputs.
use hubabox.Base.{
  ℕ, Bool, ◌*◌, if◌then◌else◌, false, true, List, [], ◌∷◌, ◌≡◌, refl, ok, canceled, none, some,
  arith,
}
use hubabox.Text.{Text, codes, text_eq, ascii}
use hubabox.Text.Assoc.{find}
use hubabox.FilePath.{slash}
use hubabox.World.{World, regular, second}
use hubabox.Importer.Eligible.{Media, plain_file, link, classify_import_file, import_file_path}
use hubabox.Importer.Scan.{
  Wording, LastScan, record_result, read_last_scan, scan_with_mode, import_selected_names,
}
use hubabox.Importer.Scan.Kept.{scan_with_mode-keeps}
use hubabox.Importer.Scan.Same.{IsSameAt, import_selected_names-scan_with_mode}
use hubabox.Importer.Scan.Reported.{read_last_scan-record_result}
use hubabox.Importer.Watch.{View, WatchEvent, changed, timer, channel_closed, run_watch_loop}
use hubabox.Importer.Watch.Kept.{run_watch_loop-off, run_watch_loop-keeps}
use hubabox.Tests.Paths.{cwd, paths}

scans : Unit {0}
unfolding paths hubabox.Importer.validate_paths hubabox.Text.has_prefix hubabox.Text.has_suffix
    hubabox.Text.contains hubabox.Text.to_lower hubabox.Text.strip hubabox.Text.trim_prefix
    hubabox.Text.Decimal.itoa hubabox.Text.Decimal.digits hubabox.Text.Decimal.atoi
    hubabox.Text.Decimal.atoi_clamped hubabox.FilePath.ext hubabox.FilePath.join_path
    hubabox.Import.unique_dest_name hubabox.Import.first_free hubabox.Import.import_regular_file
    hubabox.Import.skip_import_leaf_name hubabox.Upload.save_upload_with_limit
    hubabox.Upload.store_file classify_import_file import_file_path
    hubabox.Importer.Scan.import_entry hubabox.Importer.Scan.scan_loop
    hubabox.Importer.Scan.select_loop hubabox.Importer.Scan.store_all record_result read_last_scan
    scan_with_mode import_selected_names hubabox.Importer.read_import_auto_copy
    hubabox.Importer.Watch.auto_scan hubabox.Importer.Watch.watch_step
    hubabox.Importer.Watch.watch_from run_watch_loop hubabox.World.fails hubabox.World.later find
    hubabox.Text.Assoc.put hubabox.Text.Assoc.del text_eq
scans = tt

-- A folder with a file, a symbolic link and a hidden file.
abbrev media : Media
media = record {
  read_dir = λ dir. ok (codes "b" ∷ codes "l" ∷ codes ".h" ∷ []);
  lstat = λ path. if text_eq path (codes "/m/l") then ok link else ok (plain_file 1);
  source = λ path. record {
    stat = ok (false, 1);
    content = ok (record { bytes = 7 ∷ []; broken = false });
  };
}

abbrev words : Wording
words = record { rfc3339 = λ s. codes "then"; error_text = λ e. codes "failed" }

abbrev hub : World
hub = record {
  kv = [];
  sessions = [];
  messages = [];
  next_id = 1;
  disk = (codes "/f/b", regular (2 ∷ []) 6) ∷ [];
  now = 9 * second;
  faults = [];
}

abbrev never : ℕ → Bool
never i = false

abbrev from : Text
from = codes "/m"

abbrev scan_mode : Text
scan_mode = codes "scan"

abbrev names : List Text
names = codes "b" ∷ codes "l" ∷ codes ".h" ∷ []

runs :
    ((scan_with_mode ascii cwd media words never from (codes "/f") scan_mode hub).0
      ≡ ((1, 2), none))
    × (find
          (codes "/f/b_1")
          (scan_with_mode ascii cwd media words never from (codes "/f") scan_mode hub).1.disk
        ≡ some (regular (7 ∷ []) (9 * second)))
    × ((scan_with_mode ascii cwd media words (λ i. true) from (codes "/f") scan_mode hub).0
        ≡ ((0, 0), some canceled))
    × ((import_selected_names ascii cwd media words never from
          (codes "/f")
          scan_mode
          (codes " b" ∷ codes "b" ∷ codes "x/b" ∷ [])
          hub).0
        ≡ ((1, 2), none))
unfolding scans
runs = (refl, refl, refl, refl)

-- The same file in a folder that a relative path names.
abbrev relative : World
relative = record hub { disk = (codes "/srv/hub/f/b", regular (2 ∷ []) 6) ∷ [] }

scan_with_mode-keeps_example :
    (find
        (codes "/srv/hub/f/b")
        (scan_with_mode ascii cwd media words never from (codes "f") scan_mode relative).1.disk
      ≡ some (regular (2 ∷ []) 6))
    × (find
          (codes "/srv/hub/f/b")
          (import_selected_names ascii cwd media words never from
            (codes "f")
            scan_mode
            names
            relative).1.disk
        ≡ some (regular (2 ∷ []) 6))
unfolding scans
scan_with_mode-keeps_example =
    scan_with_mode-keeps ascii cwd media words never from (codes "f") scan_mode
      (codes "/srv/hub/f/b") (regular (2 ∷ []) 6) refl names relative refl

import_selected_names-scan_with_mode_example :
    IsSameAt
      (codes "import_last_at")
      (import_selected_names ascii cwd media words never from (codes "/f") (codes "pick") names hub)
      (scan_with_mode ascii cwd media words never from (codes "/f") scan_mode hub)
unfolding scans hubabox.FilePath.base hubabox.Text.is_space
import_selected_names-scan_with_mode_example =
    import_selected_names-scan_with_mode ascii cwd media words never from (codes "/f")
      (codes "pick") scan_mode (codes "import_last_at") refl from names hub refl refl refl (search)
      (search)

read_last_scan-record_result_example :
    (read_last_scan (record_result words (1, 2) scan_mode [] hub).1).0
    ≡ record { at = codes "then"; imported = 1; skipped = 2; mode = scan_mode; err_str = [] }
unfolding scans
read_last_scan-record_result_example =
    read_last_scan-record_result words 1 2 scan_mode [] hub refl (omega arith) (omega arith)

abbrev view : View
view = record { media = media; ctx = never }

abbrev events : List WatchEvent
events = changed 0 ∷ timer (3 * second) false view ∷ channel_closed ∷ []

abbrev auto : World
auto = record hub { kv = (codes "import_auto_copy", codes "1") ∷ [] }

watch_runs :
    (find
        (codes "/f/b_1")
        (run_watch_loop ascii cwd words from (codes "/f") true view events auto).disk
      ≡ some (regular (7 ∷ []) (9 * second)))
    × (find
          (codes "/f/b_2")
          (run_watch_loop ascii cwd words from (codes "/f") true view events auto).disk
        ≡ some (regular (7 ∷ []) (9 * second)))
unfolding scans
watch_runs = (refl, refl)

run_watch_loop-off_example :
    ((run_watch_loop ascii cwd words from (codes "/f") true view events hub).disk ≡ hub.disk)
    × ((run_watch_loop ascii cwd words from (codes "/f") true view events hub).kv ≡ hub.kv)
unfolding scans
run_watch_loop-off_example =
    run_watch_loop-off ascii cwd words from (codes "/f") true view events hub refl

abbrev relative_auto : World
relative_auto = record relative { kv = auto.kv }

run_watch_loop-keeps_example :
    find
      (codes "/srv/hub/f/b")
      (run_watch_loop ascii cwd words from (codes "f") true view events relative_auto).disk
    ≡ some (regular (2 ∷ []) 6)
unfolding scans
run_watch_loop-keeps_example =
    run_watch_loop-keeps ascii cwd words from (codes "f") (codes "/srv/hub/f/b")
      (regular (2 ∷ []) 6) true view events relative_auto refl refl
