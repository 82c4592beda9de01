-- ===== src/Voice.antt =====
-- Recognising voice notes: hubabox-proj/internal/librarychat/sniff.go and voice_mime.go.
pub mod Accepted
use hubabox.Base.{
  ℕ, zero, suc, ◌+◌, ◌/◌, ◌%◌, Bool, true, false, not, ◌&&◌, ◌||◌, List, [], ◌∷◌, ltb, leb, ◌==◌,
  if◌then◌else◌, min, take, drop, length, Option, none, some,
}
use hubabox.Text.{Text, Unicode, codes, text_eq, has_prefix, to_lower}
use hubabox.FilePath.{ext}

-- `prefix[i]`, where the code has checked the length.
abbrev byte_at : ℕ → List ℕ → ℕ
byte_at i [] = 0
byte_at zero (b ∷ bs) = b
byte_at (suc i) (b ∷ bs) = byte_at i bs

-- The loop over the offsets 4, 8, … of `sniffISOFTYPAligned` and `FtypMajorBrand`: the offset of the
-- first "ftyp". At most 31 offsets fit into the 128 bytes.
unfoldable pub ftyp_from : ℕ → ℕ → ℕ → List ℕ → Option ℕ
ftyp_from zero off scan bytes = none
ftyp_from (suc fuel) off scan bytes =
    let rest = ftyp_from fuel (off + 4) scan bytes in
    if ltb scan (off + 8)
    then none
    else if text_eq (take 4 (drop off bytes)) (codes "ftyp")
    then some off
    else rest

abbrev pub ftyp_offset : List ℕ → Option ℕ
ftyp_offset bytes =
    if ltb (length bytes) 12 then none else ftyp_from 32 4 (min (length bytes) 128) bytes

abbrev is_found : Option ℕ → Bool
is_found none = false
is_found (some off) = true

-- `sniffISOFTYPAligned`
unfoldable pub sniff_iso_ftyp_aligned : List ℕ → Bool
sniff_iso_ftyp_aligned bytes = is_found (ftyp_offset bytes)

abbrev brand_at : List ℕ → Option ℕ → Text
brand_at bytes none = []
brand_at bytes (some off) =
    if leb (off + 8) (length bytes) then take 4 (drop (off + 4) bytes) else []

-- `FtypMajorBrand`
unfoldable pub ftyp_major_brand : List ℕ → Text
ftyp_major_brand bytes = brand_at bytes (ftyp_offset bytes)

-- `isAACADTS`: the masks 0xf0 and 0x06 on a byte.
unfoldable pub is_aac_adts : List ℕ → Bool
is_aac_adts bytes =
    leb 2 (length bytes)
    && byte_at 0 bytes == 0xff
    && byte_at 1 bytes / 16 == 15
    && byte_at 1 bytes / 2 % 4 == 0

abbrev is_ebml : List ℕ → Bool
is_ebml bytes =
    byte_at 0 bytes == 0x1a
    && byte_at 1 bytes == 0x45
    && byte_at 2 bytes == 0xdf
    && byte_at 3 bytes == 0xa3

abbrev is_mpeg_sync : List ℕ → Bool
is_mpeg_sync bytes = leb 2 (length bytes) && byte_at 0 bytes == 0xff && byte_at 1 bytes / 32 == 7

abbrev riff_form : List ℕ → Text
riff_form bytes = take 4 (drop 8 bytes)

abbrev pub riff_extension : List ℕ → Text
riff_extension bytes =
    if text_eq (riff_form bytes) (codes "WAVE")
    then codes ".wav"
    else if text_eq (riff_form bytes) (codes "WEBM")
    then codes ".webm"
    else []

-- A `switch` without a tag: the result of the first case that holds, and "" if none does.
abbrev pub switch : List (Bool × Text) → Text
switch [] = []
switch ((test, result) ∷ cases) = if test then result else switch cases

abbrev pub sniff_cases : List ℕ → List (Bool × Text)
sniff_cases bytes =
    (has_prefix bytes (codes "fLaC"), codes ".flac")
    ∷ (has_prefix bytes (codes "OggS"), codes ".ogg")
    ∷ (has_prefix bytes (codes "ID3"), codes ".mp3")
    ∷ (has_prefix bytes (codes "caff"), codes ".caf")
    ∷ (is_ebml bytes, codes ".webm")
    ∷ (leb 12 (length bytes) && has_prefix bytes (codes "RIFF"), riff_extension bytes)
    ∷ (sniff_iso_ftyp_aligned bytes, codes ".m4a")
    ∷ (is_aac_adts bytes, codes ".aac")
    ∷ (is_mpeg_sync bytes, codes ".mp3")
    ∷ (leb 5 (length bytes) && has_prefix bytes (codes "#!AMR\n"), codes ".amr")
    ∷ []

-- `SniffVoiceExtension`
unfoldable pub sniff_voice_extension : List ℕ → Text
sniff_voice_extension bytes = if ltb (length bytes) 4 then [] else switch (sniff_cases bytes)

-- `VoiceContentTypeForExt`
unfoldable pub voice_content_type_for_ext : Text → Text
voice_content_type_for_ext e =
    if text_eq e (codes ".webm")
    then codes "audio/webm"
    else if text_eq e (codes ".ogg") || text_eq e (codes ".oga")
    then codes "audio/ogg"
    else if text_eq e (codes ".wav")
    then codes "audio/wav"
    else if text_eq e (codes ".mp3")
    then codes "audio/mpeg"
    else if text_eq e (codes ".m4a")
    then codes "audio/mp4"
    else if text_eq e (codes ".aac")
    then codes "audio/aac"
    else if text_eq e (codes ".flac")
    then codes "audio/flac"
    else if text_eq e (codes ".caf")
    then codes "audio/x-caf"
    else if text_eq e (codes ".amr")
    then codes "audio/amr"
    else []

-- `VoiceContentTypeForFilename`
unfoldable pub voice_content_type_for_filename : Unicode → Text → Text
voice_content_type_for_filename u basename = voice_content_type_for_ext (to_lower u (ext basename))

abbrev pub is_3gp : Text → Bool
is_3gp brand =
    has_prefix brand (codes "3gp")
    || has_prefix brand (codes "3g2")
    || has_prefix brand (codes "3ge")
    || has_prefix brand (codes "3gg")

-- `VoiceContentTypeForM4AFile`
unfoldable pub voice_content_type_for_m4a_file : List ℕ → Text
voice_content_type_for_m4a_file bytes =
    if text_eq (ftyp_major_brand bytes) []
    then codes "audio/mp4"
    else if is_3gp (ftyp_major_brand bytes)
    then codes "audio/3gpp"
    else codes "audio/mp4"
