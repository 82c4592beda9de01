-- ===== src/LanShare/Scripts.antt =====
-- The scripts for the operator: `WriteHelperScripts` of
-- hubabox-proj/internal/lanshare/lanshare.go.
use hubabox.Base.{Result, ℕ, List, [], ◌∷◌, ◌++◌, ◌==◌, if◌then◌else◌}
use hubabox.Text.{Text, codes, trim_space}
use hubabox.Text.Split.{join}
use hubabox.Text.Bytes.{bytes}
use hubabox.FilePath.{resolved_path, clean, join_path}
use hubabox.World.{Act, ◌>>◌, return}
use hubabox.World.Disk.{mkdir_all, write_file}

abbrev pub newline : ℕ
newline = 10

-- `linuxBody`, whose text has no white space at its ends before the last newline is added.
abbrev pub linux_lines : Text → Text → Text → List Text
linux_lines linux_path share_name files_path =
    (codes "# Add to smb.conf (Debian/Ubuntu: include in [global] with: include = "
      ++ linux_path
      ++ codes ")")
    ∷ (codes "[" ++ share_name ++ codes "]")
    ∷ (codes "   path = " ++ files_path)
    ∷ codes "   read only = yes"
    ∷ codes "   browseable = yes"
    ∷ codes "   guest ok = yes"
    ∷ codes "   force user = nobody"
    ∷ []

unfoldable pub linux_body : Text → Text → Text → Text
linux_body linux_path share_name files_path =
    join (linux_lines linux_path share_name files_path) newline ++ newline ∷ []

-- `strings.ReplaceAll(filesPath, "\\", "\\\\")`
unfoldable pub double_backslashes : Text → Text
double_backslashes [] = []
double_backslashes (c ∷ s) =
    let rest = double_backslashes s in if c == b'\\' then c ∷ c ∷ rest else c ∷ rest

abbrev win_lines : Text → Text → List Text
win_lines share_name files_path =
    codes "# Run elevated in PowerShell. Exposes hub files read-only on the LAN."
    ∷ (codes "$shareName = \"" ++ share_name ++ codes "\"")
    ∷ (codes "$path = \"" ++ double_backslashes files_path ++ codes "\"")
    ∷ codes "if (-not (Test-Path -LiteralPath $path)) { throw \"Hub files path missing: $path\" }"
    ∷ codes "$existing = Get-SmbShare -Name $shareName -ErrorAction SilentlyContinue"
    ∷ codes "if ($existing) { Remove-SmbShare -Name $shareName -Force }"
    ∷ codes "New-SmbShare -Name $shareName -Path $path -ReadAccess \"Everyone\""
    ∷ codes "Write-Host \"Share active: \\\\$env:COMPUTERNAME\\$shareName\""
    ∷ []

-- `winBody`
unfoldable pub win_body : Text → Text → Text
win_body share_name files_path = join (win_lines share_name files_path) newline ++ newline ∷ []

-- `WriteHelperScripts`
unfoldable pub write_helper_scripts : Result Text → Text → Text → Text → Act (Text × Text)
write_helper_scripts cwd data_dir files_path share_name =
    let dir = join_path data_dir (codes "lanshare") in
    let linux_path = join_path dir (codes "hubabox-smb.conf.snippet") in
    let win_path = join_path dir (codes "enable-share.ps1") in
    let name = trim_space share_name in
    let path = clean files_path in
    mkdir_all (resolved_path cwd dir)
    >> write_file (resolved_path cwd linux_path) (bytes (linux_body linux_path name path))
    >> write_file (resolved_path cwd win_path) (bytes (win_body name path))
    >> return (linux_path, win_path)
