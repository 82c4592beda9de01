-- ===== src/LanShare/Samba.antt =====
-- Looking for the share in Samba's configuration: hubabox-proj/internal/lanshare/probe_unix.go.
-- What `testparm -s` prints, and whether `smbd` is found, are arguments.
pub mod Found
use hubabox.Base.{
  ℕ, Bool, true, false, not, ◌&&◌, ◌||◌, List, [], ◌∷◌, ◌++◌, ◌==◌, if◌then◌else◌, Result, ok, err,
  Option, none, some,
}
use hubabox.Text.{
  Text, Unicode, codes, text_eq, trim_space, trim_left, trim_right, has_prefix, has_suffix,
  to_lower, equal_fold,
}
use hubabox.Text.Split.{split, cut}
use hubabox.FilePath.{clean}
use hubabox.LanShare.Scripts.{newline}

abbrev pub is_bracket : ℕ → Bool
is_bracket c = c == b'[' || c == b']'

-- `strings.Trim(line, "[]")`
abbrev pub trim_brackets : Text → Text
trim_brackets line = trim_right is_bracket (trim_left is_bracket line)

abbrev pub is_section : Text → Bool
is_section line = has_prefix line (codes "[") && has_suffix line (codes "]")

module _ (u : Unicode) (share_name : Text) where
  abbrev pub value_is : Text → Option (Text × Text) → Bool
  value_is want_path none = false
  value_is want_path (some (key, value)) = text_eq (clean (trim_space value)) want_path

  -- A line of the section that names the path; the parts are those of `SplitN` at the first "=".
  abbrev pub names_path : Text → Text → Bool
  names_path want_path line =
      has_prefix (to_lower u line) (codes "path") && value_is want_path (cut line b'=')

  -- The loop of `sambaSharePointsAt`.
  unfoldable pub scan_config : Text → Bool → List Text → Bool
  scan_config want_path in_section [] = false
  scan_config want_path in_section (raw ∷ lines) =
      let line = trim_space raw in
      let entered = scan_config want_path (equal_fold u (trim_brackets line) share_name) lines in
      let rest = scan_config want_path in_section lines in
      if is_section line
      then not in_section && entered
      else (in_section && names_path want_path line) || rest

  -- `sambaSharePointsAt`
  unfoldable pub samba_share_points_at : Text → Text → Bool
  samba_share_points_at config want_path =
      scan_config (clean want_path) false (split config newline)

  abbrev found : Bool → Bool × Text
  found true = (true, codes "Linux: Samba share appears configured for this hub folder.")
  found false = (
    false,
    codes "Linux: no Samba share named "
        ++ share_name
        ++ codes " for this path — include the generated snippet and restart smbd.",
  )

  -- `probeOS`
  unfoldable pub probe_os : Result Text → Text → Bool × Text
  probe_os (err e) files_path = (
    false,
    codes
        "Linux: Samba (testparm) not found or not configured — use the generated snippet and restart smbd.",
  )
  probe_os (ok config) files_path = found (samba_share_points_at config (clean files_path))

  -- `tryApplyOS`
  unfoldable pub try_apply_os : Bool → Result Text → Text → Bool × Text
  try_apply_os has_smbd config files_path =
      if not has_smbd
      then (
        false,
        codes "smbd not installed (install samba package, then run the generated snippet)",
      )
      else if (probe_os config files_path).0
      then (true, [])
      else (
        false,
        codes "configure Samba using the snippet under your data directory, then restart smbd",
      )
