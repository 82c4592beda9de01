-- ===== src/Server/Downloads/Linked.antt =====
-- The link of a file that was uploaded serves what was uploaded.
use hubabox.Base.{
  ℕ, true, false, List, [], ◌∷◌, ◌≡◌, refl, ap, All, ◌==◌, Result, ok, some, Bool-cases, inl, inr,
  ◌⊎◌, arith, ◌/◌, ◌%◌, ◌<◌,
}
use hubabox.Text.{Text, codes, text_eq, text_eq_sound, trim_prefix, has_prefix}
use hubabox.Text.Assoc.{find}
use hubabox.Text.Trim.{StartsClean, EndsClean, trim_left_of_StartsClean, trim_right_of_EndsClean}
use hubabox.Text.Split.{Lacks}
use hubabox.Text.Bytes.{IsScalar, bytes}
use hubabox.Text.Urls.{
  escape, path_escape, is_unescaped, upper_hex, path_unescape, path_unescape-path_escape,
  path_unescape_plain, bytes-All,
}
use hubabox.FilePath.{slash, is_slash}
use hubabox.Files.{sanitize_rel_path, join_resolved_under_hub}
use hubabox.Files.Paths.{sanitize_rel_path-IsSafePath, IsSafePath}
use hubabox.Files.Stable.{
  sanitize_rel_path_of_IsSafePath, Lacks-StartsClean-slash, Lacks-EndsClean-slash, join-not_empty,
  IsSafePath-StartsClean, IsSafePath-EndsClean,
}
use hubabox.World.{World, regular, fails}
use hubabox.World.Disk.{Reader}
use hubabox.Upload.{open_read, save_upload_with_limit}
use hubabox.Upload.Saved.{save_upload_with_limit-IsStored}
use hubabox.Server.Downloads.{raw_name, download_named_file, served, attachment}

escape-Lacks : (bs : List ℕ) → All (λ b. b < 256) bs → Lacks slash (escape bs)
unfolding escape
escape-Lacks [] h = tt
escape-Lacks (b ∷ bs) (small, h) = elim (Bool-cases (is_unescaped b)) [
  | inl p ↦ rw p ((ground arith), escape-Lacks bs h)
  | inr p ↦ rw p (refl, (hex-ne-slash (b / 16), (hex-ne-slash (b % 16), escape-Lacks bs h)))
]
  where
    hex-ne-slash : (n : ℕ) → (upper_hex n == slash) ≡ false
    hex-ne-slash n = ground arith

escape_not_empty : (bs : List ℕ) → text_eq (escape bs) [] ≡ true → bs ≡ []
unfolding escape text_eq
escape_not_empty [] h = refl
escape_not_empty (b ∷ bs) h = elim (Bool-cases (is_unescaped b)) [
  | inl p ↦ absurd (no (rw p at h))
  | inr p ↦ absurd (no (rw p at h))
]
  where
    no : ¬ (false ≡ true)
    no e = cc

raw_name_of_clean : (s : Text) → StartsClean is_slash s → EndsClean is_slash s → raw_name s ≡ s
unfolding trim_prefix has_prefix hubabox.Text.trim_right hubabox.Text.trim_left
raw_name_of_clean [] h k = refl
raw_name_of_clean (c ∷ s) h k =
    rw (h, trim_left_of_StartsClean is_slash (c ∷ s) h) (trim_right_of_EndsClean is_slash (c ∷ s) k)

bytes_not_empty : (s : Text) → bytes s ≡ [] → text_eq s [] ≡ true
unfolding bytes text_eq
bytes_not_empty [] h = refl
bytes_not_empty (c ∷ s) h = ground arith

IsSafePath-not_empty : (out : Text) → IsSafePath out → text_eq out [] ≡ false
IsSafePath-not_empty out h =
    rw (h.spelled) (join-not_empty h.first h.others h.safe.0.plain.not_empty)

path_escape_not_empty : (name : Text) → IsSafePath name → text_eq (path_escape name) [] ≡ false
unfolding path_escape
path_escape_not_empty name s = elim (Bool-cases (text_eq (escape (bytes name)) [])) [
  | inr n ↦ n
  | inl y ↦
      let empty : text_eq name [] ≡ true = bytes_not_empty name (escape_not_empty (bytes name) y) in
      let full = IsSafePath-not_empty name s in cc
]

-- A parameter that the handler reads as a name.
abbrev IsRead : Text → Text → Type 0
IsRead param name =
    (text_eq (raw_name param) [] ≡ false) × (path_unescape (raw_name param) ≡ ok name)

-- What the router may pass for the link of a name: the path without its escapes, or as it stands in
-- the link.
abbrev pub IsLinkParam : Text → Text → Type 0
IsLinkParam param name = (param ≡ name) ⊎ (param ≡ path_escape name)

IsLinkParam-IsRead :
    (param name : Text)
    → IsLinkParam param name
    → All IsScalar name
    → Lacks b'%' name
    → IsSafePath name
    → IsRead param name
IsLinkParam-IsRead param name (inl e) h k s =
    let own : raw_name name ≡ name =
      raw_name_of_clean name (IsSafePath-StartsClean name s) (IsSafePath-EndsClean name s) in
    rw (e, own) (IsSafePath-not_empty name s, path_unescape_plain name h k)
IsLinkParam-IsRead param name (inr e) h k s =
    let lacks : Lacks slash (path_escape name) =
      unfold path_escape in escape-Lacks (bytes name) (bytes-All name h) in
    let own : raw_name (path_escape name) ≡ path_escape name =
      raw_name_of_clean (path_escape name) (Lacks-StartsClean-slash (path_escape name) lacks)
        (Lacks-EndsClean-slash (path_escape name) lacks) in
    rw (e, own) (path_escape_not_empty name s, path_unescape-path_escape name h)

-- After an upload has succeeded, and as long as its file stays and nothing fails, the download link
-- of the name that it answered serves the whole content of the upload's source, if the name is a
-- valid string without a percent sign: whether the router passes the path of the link as it stands
-- or without its escapes.
pub download_named_file-save_upload_with_limit :
    (cwd : Result Text) (dir name param : Text) (r : Reader) (max : ℕ) (answer : Text × ℕ)
    (w v : World)
    → (save_upload_with_limit cwd dir name r max w).0 ≡ ok answer
    → v.disk ≡ (save_upload_with_limit cwd dir name r max w).1.disk
    → v.faults ≡ []
    → All IsScalar answer.0
    → Lacks b'%' answer.0
    → IsLinkParam param answer.0
    → (download_named_file cwd dir param v).0
      ≡ served (attachment (record { name = answer.0; bytes = r.bytes; mod_time = w.now }))
unfolding download_named_file open_read fails
download_named_file-save_upload_with_limit cwd dir name param r max answer w v e d f h k l =
    let (safe, full, (s, j), (same, fits, node)) =
      save_upload_with_limit-IsStored cwd dir name r max answer w e in
    let out : answer.0 ≡ safe = ap (λ p. p.0) same in
    let path : IsSafePath answer.0 = rw out (sanitize_rel_path-IsSafePath name s) in
    let again : sanitize_rel_path answer.0 ≡ ok answer.0 =
      sanitize_rel_path_of_IsSafePath answer.0 path in
    let placed : join_resolved_under_hub cwd dir answer.0 ≡ ok full = rw out j in
    let there : find full v.disk ≡ some (regular r.bytes w.now) = rw d node in
    let (full_name, read) = IsLinkParam-IsRead param answer.0 l h k path in
    rw (full_name, read, again, placed, f, there) refl
