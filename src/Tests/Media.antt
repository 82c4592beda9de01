-- ===== src/Tests/Media.antt =====
-- Previews, voice notes and imports at concrete inputs.
use hubabox.Base.{
  ℕ, true, false, List, [], ◌∷◌, ◌++◌, ◌≡◌, refl, any, ok, err, skipped, some, if◌then◌else◌, arith,
}
use hubabox.Text.{Text, codes, text_eq, text_eq_sound, ascii, has_prefix}
use hubabox.Text.Assoc.{find}
use hubabox.FilePath.{ext}
use hubabox.World.{World, regular}
use hubabox.Chat.{is_voice_basename}
use hubabox.FileMeta.{Kind, video, kind, previewable, preview_content_type, plain_ext}
use hubabox.FileMeta.Previews.{
  TypesAreUsual, is_active, active_exts, preview_content_type-not_active,
}
use hubabox.Voice.{
  sniff_voice_extension, voice_content_type_for_ext, voice_content_type_for_m4a_file,
  sniff_iso_ftyp_aligned, ftyp_major_brand,
}
use hubabox.Import.{Source, unique_dest_name, import_regular_file}
use hubabox.Tests.Paths.{cwd, paths}

media : Unit {0}
unfolding paths kind previewable preview_content_type hubabox.FileMeta.kind_of
    hubabox.FileMeta.previewable_ext is_active hubabox.Text.trim_prefix hubabox.Text.strip
    has_prefix hubabox.Text.to_lower hubabox.Text.equal_fold ext sniff_voice_extension
    voice_content_type_for_ext voice_content_type_for_m4a_file sniff_iso_ftyp_aligned
    ftyp_major_brand hubabox.Voice.ftyp_from hubabox.Voice.is_aac_adts is_voice_basename
    unique_dest_name hubabox.Import.first_free import_regular_file
    hubabox.Import.skip_import_leaf_name hubabox.Text.Decimal.itoa hubabox.Text.Decimal.digits
    hubabox.Upload.save_upload_with_limit hubabox.Upload.store_file hubabox.World.fails
    hubabox.World.later find hubabox.Text.Assoc.put hubabox.Text.Assoc.del text_eq
media = tt

-- A table that knows one active type.
abbrev types : Text → Text
types e =
    if text_eq e (codes ".html")
    then codes "text/html"
    else if text_eq e (codes ".png")
    then codes "image/png"
    else []

types-usual : (e : Text) → is_active (types e) ≡ true → text_eq e (codes ".html") ≡ true
unfolding is_active has_prefix
types-usual e h = ground arith

html_listed : any (text_eq (plain_ext ascii (codes "a.html"))) active_exts ≡ true
unfolding media
html_listed = refl

types-TypesAreUsual : TypesAreUsual ascii types
unfolding ext
types-TypesAreUsual name h =
    let same : ext name ≡ codes ".html" =
      text_eq_sound (ext name) (codes ".html") (types-usual (ext name) h) in
    rw same html_listed

preview_tests :
    (previewable ascii (codes "a/b.PNG") ≡ true)
    × (previewable ascii (codes "b.svg") ≡ false)
    × (previewable ascii (codes "b.mkv") ≡ false)
    × (kind ascii (codes "b.mkv") ≡ video)
    × (preview_content_type ascii types (codes "x.html") ≡ codes "text/plain; charset=utf-8")
    × (preview_content_type ascii types (codes "x.csv") ≡ codes "text/csv; charset=utf-8")
unfolding media
preview_tests = (refl, refl, refl, refl, refl, refl)

preview_content_type-not_active_example :
    is_active (preview_content_type ascii types (codes "a/b.png")) ≡ false
unfolding media
preview_content_type-not_active_example =
    preview_content_type-not_active ascii types (codes "a/b.png") types-TypesAreUsual refl

abbrev clip : List ℕ
clip = 0 ∷ 0 ∷ 0 ∷ 24 ∷ codes "ftyp3gp4" ++ 0 ∷ []

abbrev stem : Text
stem = codes "00112233445566778899aabbccddeeff"

voice_tests :
    (sniff_voice_extension clip ≡ codes ".m4a")
    × (ftyp_major_brand clip ≡ codes "3gp4")
    × (voice_content_type_for_m4a_file clip ≡ codes "audio/3gpp")
    × (sniff_voice_extension (255 ∷ 241 ∷ 0 ∷ 0 ∷ []) ≡ codes ".aac")
    × (sniff_voice_extension (255 ∷ 251 ∷ 0 ∷ 0 ∷ []) ≡ codes ".mp3")
    × (sniff_voice_extension (1 ∷ 2 ∷ 3 ∷ 4 ∷ []) ≡ [])
unfolding media
voice_tests = (refl, refl, refl, refl, refl, refl)

abbrev hub : World
hub = record {
  kv = [];
  sessions = [];
  messages = [];
  next_id = 1;
  disk = (codes "/f/a.txt", regular (2 ∷ []) 6) ∷ (codes "/f/a_1.txt", regular (3 ∷ []) 6) ∷ [];
  now = 9;
  faults = [];
}

abbrev source : Source
source = record { stat = ok (false, 1); content = ok (record { bytes = 7 ∷ []; broken = false }) }

import_tests :
    ((unique_dest_name cwd (codes "/f") (codes "a.txt") hub).0 ≡ ok (codes "a_2.txt"))
    × ((import_regular_file ascii cwd (codes "/m/a.txt") source (codes "/f") hub).0
        ≡ ok (codes "a_2.txt", 1))
    × (find
          (codes "/f/a_2.txt")
          (import_regular_file ascii cwd (codes "/m/a.txt") source (codes "/f") hub).1.disk
        ≡ some (regular (7 ∷ []) 9))
    × ((import_regular_file ascii cwd (codes "/m/Thumbs.db") source (codes "/f") hub).0
        ≡ err skipped)
unfolding media
import_tests = (refl, refl, refl, refl)
