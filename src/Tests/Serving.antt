-- ===== src/Tests/Serving.antt =====
-- Listings, downloads and previews at concrete inputs.
use hubabox.Base.{
  inl, ℕ, ◌<◌, ◌⊎◌, true, false, List, [], ◌∷◌, ◌≡◌, refl, Result, ok, err, some, take, length,
  IsSortedBy, if◌then◌else◌,
}
use hubabox.Text.{Text, codes, text_eq, ascii}
use hubabox.Text.Assoc.{find}
use hubabox.Text.Order.{text_less}
use hubabox.Text.Urls.{path_escape, path_unescape}
use hubabox.Text.Sizes.{one_decimal}
use hubabox.World.{World, regular, folder}
use hubabox.World.Disk.{Reader}
use hubabox.Upload.{save_upload_with_limit}
use hubabox.Files.Listing.{FileEntry, walk, list_entries}
use hubabox.FileMeta.{previewable, preview_content_type}
use hubabox.Importer.Eligible.{Media, plain_file}
use hubabox.Importer.Entries.{ImportDirEntry, list_import_entries, format_size_human}
use hubabox.Server.{failure}
use hubabox.Server.Downloads.{
  Served, answered, served, attachment, inline, raw_name, download_named_file, preview_named_file,
}
use hubabox.Server.Downloads.Stored.{Serves, download_named_file-Serves, preview_named_file-Serves}
use hubabox.Server.Downloads.Linked.{download_named_file-save_upload_with_limit}
use hubabox.Tests.Paths.{cwd, paths}

serving : Unit {0}
unfolding paths hubabox.Importer.validate_paths hubabox.Text.has_prefix hubabox.Text.has_suffix
    hubabox.Text.contains hubabox.Text.to_lower hubabox.Text.equal_fold hubabox.Text.strip
    hubabox.Text.trim_prefix hubabox.Text.Decimal.itoa hubabox.Text.Decimal.digits
    hubabox.Text.Sizes.tenths one_decimal hubabox.Text.Bytes.bytes hubabox.Text.Bytes.text_of_bytes
    hubabox.Text.Bytes.decode_from hubabox.Text.Urls.escape path_escape path_unescape
    hubabox.Text.Urls.unescape_from hubabox.Text.Order.bytes_less text_less hubabox.Base.sort_by
    hubabox.Base.insert_by hubabox.FilePath.ext hubabox.FilePath.join_path
    hubabox.FilePath.last_elem hubabox.Import.skip_import_leaf_name save_upload_with_limit
    hubabox.Upload.store_file hubabox.Upload.open_read
    hubabox.Importer.Eligible.classify_import_file list_import_entries walk list_entries
    hubabox.FileMeta.kind hubabox.FileMeta.kind_of previewable hubabox.FileMeta.previewable_ext
    preview_content_type download_named_file preview_named_file hubabox.World.fails
    hubabox.World.later find hubabox.Text.Assoc.put hubabox.Text.Assoc.del text_eq
serving = tt

abbrev dir : Text
dir = codes "/f"

abbrev hub : World
hub = record {
  kv = [];
  sessions = [];
  messages = [];
  next_id = 1;
  disk =
      (codes "/f/b.txt", regular (2 ∷ []) 6)
      ∷ (codes "/f/d/a", regular (3 ∷ 4 ∷ []) 6)
      ∷ (codes "/f/c.partial", regular [] 7)
      ∷ (codes "/f/n%41", regular (5 ∷ []) 8)
      ∷ (codes "/data/x", regular [] 9)
      ∷ [];
  now = 9;
  faults = [];
}

abbrev no_link : Text → ℕ × ℕ
no_link path = (0, 0)

abbrev rows : List FileEntry
rows =
    record { name = codes "n%41"; size = 1; mod_time = 8 }
    ∷ record { name = codes "b.txt"; size = 1; mod_time = 6 }
    ∷ record { name = codes "d/a"; size = 2; mod_time = 6 }
    ∷ []

listed : (list_entries no_link cwd dir hub).0 ≡ ok rows
unfolding serving
listed = refl

-- The names of the import folder, in no order.
abbrev media : Media
media = record {
  read_dir = λ path. ok (codes "b" ∷ codes "B" ∷ codes ".h" ∷ []);
  lstat = λ path. ok (plain_file 1536);
  source = λ path. record {
    stat = ok (false, 1536);
    content = ok (record { bytes = []; broken = true });
  };
}

abbrev row : Text → ImportDirEntry
row name = record { name = name; size_human = codes "1.5 KiB"; eligible = true; skip_reason = [] }

abbrev entries : List ImportDirEntry
entries =
    record {
      name = codes ".h";
      size_human = codes "1.5 KiB";
      eligible = false;
      skip_reason = codes "ignored";
    }
    ∷ row (codes "B")
    ∷ row (codes "b")
    ∷ []

import_listed : list_import_entries ascii cwd media (codes "/m") dir ≡ ok (entries, false)
unfolding serving
import_listed = refl

-- Sizes just below the next unit.
size_tests :
    (format_size_human 1023 ≡ codes "1023 B")
    × (format_size_human 1024 ≡ codes "1.0 KiB")
    × (format_size_human 1048575 ≡ codes "1024.0 KiB")
    × (format_size_human 1088 ≡ codes "1.1 KiB")
unfolding serving
size_tests = (refl, refl, refl, refl)

abbrev types : Text → Text
types e = []

abbrev sent : Served
sent = record {
  content_type = codes "application/octet-stream";
  disposition = codes "attachment";
  leaf = codes "a";
  body = 3 ∷ 4 ∷ [];
}

abbrev shown : Served
shown = record {
  content_type = codes "text/plain; charset=utf-8";
  disposition = codes "inline";
  leaf = codes "b.txt";
  body = 2 ∷ [];
}

-- A name with an escape of its own is asked for under its link, which the router has unescaped.
download_runs :
    ((download_named_file cwd dir (codes "/d/a/") hub).0 ≡ served sent)
    × ((download_named_file cwd dir (codes "d%2Fa") hub).0 ≡ served sent)
    × ((download_named_file cwd dir (codes "../data/x") hub).0 ≡ answered (failure 400))
    × ((download_named_file cwd dir (codes "%zz") hub).0 ≡ answered (failure 400))
    × ((download_named_file cwd dir (codes "z") hub).0 ≡ answered (failure 404))
    × ((download_named_file cwd dir (codes "n%41") hub).0 ≡ answered (failure 404))
    × ((preview_named_file cwd dir ascii types (codes "b.txt") hub).0 ≡ served shown)
    × ((preview_named_file cwd dir ascii types (codes "d/a") hub).0 ≡ answered (failure 404))
unfolding serving
download_runs = (refl, refl, refl, refl, refl, refl, refl, refl)

download_named_file-Serves_example : Serves cwd dir attachment (codes "/d/a/") hub sent
download_named_file-Serves_example =
    download_named_file-Serves cwd dir (codes "/d/a/") hub sent download_runs.0

preview_named_file-Serves_example :
    ((name : Text) × (path_unescape (raw_name (codes "b.txt")) ≡ ok name)
      × (previewable ascii name ≡ true))
    × Serves cwd dir (inline cwd dir ascii types) (codes "b.txt") hub shown
preview_named_file-Serves_example =
    preview_named_file-Serves cwd dir ascii types (codes "b.txt") hub shown download_runs.6

abbrev name : Text
name = codes "é +/b"

abbrev source : Reader
source = record { bytes = 7 ∷ 8 ∷ []; broken = false }

abbrev later : World
later = (save_upload_with_limit cwd dir name source 9 hub).1

saved : (save_upload_with_limit cwd dir name source 9 hub).0 ≡ ok (name, 2)
unfolding serving
saved = refl

quiet : later.faults ≡ []
unfolding serving
quiet = refl

download_named_file-save_upload_with_limit_example :
    (download_named_file cwd dir name later).0
    ≡ served (attachment (record { name = name; bytes = 7 ∷ 8 ∷ []; mod_time = 9 }))
download_named_file-save_upload_with_limit_example =
    download_named_file-save_upload_with_limit cwd dir name name source 9 (name, 2) hub later saved
      refl quiet (search) (search) (inl refl)
