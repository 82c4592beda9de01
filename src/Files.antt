-- ===== src/Files.antt =====
-- hubabox-proj/internal/files/path.go and the name checks of hubabox-proj/internal/files/files.go.
pub mod Names
pub mod Joined
pub mod Paths
pub mod Stable
pub mod Contained
pub mod Exact
pub mod Listing
use hubabox.Base.{
  ℕ, zero, suc, ◌+◌, Bool, true, false, ◌&&◌, ◌||◌, List, [], ◌∷◌, ◌++◌, ◌==◌, ltb, leb,
  if◌then◌else◌, Result, ok, err, invalid_name, ◌>>=◌, ◌>>◌, refuse_if, length, is_empty,
}
use hubabox.Text.{
  Text, codes, byte_len, text_eq, trim_space, trim_left, trim_right, has_prefix, contains_rune,
  width,
}
use hubabox.Text.Split.{split}
use hubabox.FilePath.{slash, is_slash, base, is_abs, join_path, abs, rel}
use hubabox.FilePath.Rel.{climbs}

abbrev pub backslash : ℕ
backslash = b'\\'

abbrev pub max_rel_path_parts : ℕ
max_rel_path_parts = 64

abbrev pub max_rel_path_bytes : ℕ
max_rel_path_bytes = 4096

abbrev pub max_path_seg_length : ℕ
max_path_seg_length = 255

-- The tests of `SanitizeName` on the base name.
unfoldable pub check_name : Text → Result Text
check_name b = do
  refuse_if (text_eq b [] || text_eq b (codes ".") || text_eq b (codes "..")) invalid_name
  refuse_if (contains_rune b slash || contains_rune b backslash) invalid_name
  ok b

-- `SanitizeName`
unfoldable pub sanitize_name : Text → Result Text
sanitize_name name = check_name (base (trim_space name))

-- `strings.Trim(s, "/")`
abbrev pub trim_slashes : Text → Text
trim_slashes s = trim_right is_slash (trim_left is_slash s)

-- `len(s) > 1 && s[1] == ':'`: byte 1 is the second unit if the first unit is one byte.
abbrev pub has_drive : Text → Bool
has_drive [] = false
has_drive (c ∷ []) = false
has_drive (c ∷ d ∷ s) = width c == 1 && d == b':'

-- The loop of `SanitizeRelPath` over the parts: the builder's text so far, and whether `i > 0`.
unfoldable pub write_parts : Text → Bool → List Text → Result Text
write_parts out later [] = ok out
write_parts out later (p ∷ parts) = do
  seg ← sanitize_name p
  refuse_if (ltb max_path_seg_length (byte_len seg)) invalid_name
  write_parts ((if later then out ++ slash ∷ [] else out) ++ seg) true parts

-- The rest of `SanitizeRelPath`, on the trimmed text `s` and on `t`, that text without slashes at
-- its ends.
unfoldable pub check_rel_path : Text → Text → Result Text
check_rel_path s t = do
  refuse_if (is_empty s) invalid_name
  refuse_if (has_prefix s (slash ∷ [])) invalid_name
  refuse_if (is_empty t || text_eq t (codes ".")) invalid_name
  refuse_if (has_drive t) invalid_name
  refuse_if (contains_rune t 0) invalid_name
  refuse_if (is_abs t || has_prefix t (slash ∷ [])) invalid_name
  refuse_if (ltb max_rel_path_parts (length (split t slash))) invalid_name
  out ← write_parts [] false (split t slash)
  refuse_if (ltb max_rel_path_bytes (byte_len out)) invalid_name
  ok out

-- `SanitizeRelPath`
unfoldable pub sanitize_rel_path : Text → Result Text
sanitize_rel_path raw = let s = trim_space raw in check_rel_path s (trim_slashes s)

-- `if err != nil { return "", ErrInvalidName }`
abbrev as_invalid_name {ℓ} : {A : Type ℓ} → Result A → Result A
as_invalid_name (ok a) = ok a
as_invalid_name (err e) = err invalid_name

-- `joinResolvedUnderHub`; `cwd` is what `os.Getwd` returns.
unfoldable pub join_resolved_under_hub : Result Text → Text → Text → Result Text
join_resolved_under_hub cwd hub_root safe =
    let full = join_path hub_root safe in
    do
      root_abs ← abs cwd hub_root
      full_abs ← abs cwd full
      r ← as_invalid_name (rel root_abs full_abs)
      refuse_if (climbs r) invalid_name
      ok full_abs

-- `JoinUnderHub`
unfoldable pub join_under_hub : Result Text → Text → Text → Result Text
join_under_hub cwd hub_root name = do
  safe ← sanitize_rel_path name
  join_resolved_under_hub cwd hub_root safe
