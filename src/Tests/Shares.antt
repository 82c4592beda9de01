-- ===== src/Tests/Shares.antt =====
-- The LAN share at concrete inputs.
use hubabox.Base.{true, false, List, [], ◌∷◌, ◌≡◌, refl, ok, err, invalid_share_name}
use hubabox.Text.{Text, codes, text_eq, ascii}
use hubabox.Text.Assoc.{find}
use hubabox.World.{World}
use hubabox.LanShare.{
  is_share_name, set_share_name, read_share_name, read_desired, unc_paths_for, kv_share_name,
}
use hubabox.LanShare.Scripts.{linux_body}
use hubabox.LanShare.Samba.{samba_share_points_at, probe_os, try_apply_os}
use hubabox.LanShare.Samba.Found.{probe_os-section}
use hubabox.LanShare.Status.{System}
use hubabox.Server.{redirect}
use hubabox.Server.ShareForms.{files_lan_share_enable_post, files_lan_share_disable_post}
use hubabox.Tests.Paths.{cwd, paths}

shares : Unit {0}
unfolding paths is_share_name set_share_name read_share_name read_desired
    hubabox.LanShare.set_desired hubabox.LanShare.set_last_apply_err hubabox.LanShare.add_hosts
    unc_paths_for linux_body hubabox.LanShare.Scripts.win_body
    hubabox.LanShare.Scripts.double_backslashes hubabox.LanShare.Scripts.write_helper_scripts
    hubabox.LanShare.Samba.scan_config samba_share_points_at probe_os try_apply_os
    hubabox.LanShare.Status.build_status hubabox.LanShare.Status.apply
    hubabox.LanShare.Status.disable_share files_lan_share_enable_post files_lan_share_disable_post
    hubabox.Text.Split.split hubabox.Text.Split.join hubabox.Text.Split.cut hubabox.Text.has_prefix
    hubabox.Text.has_suffix hubabox.Text.to_lower hubabox.Text.equal_fold hubabox.Text.trim_left
    hubabox.Text.trim_right hubabox.Text.is_space hubabox.Text.Bytes.bytes
    hubabox.Text.Urls.query_escape hubabox.Text.Urls.query_escape_bytes hubabox.FilePath.clean
    hubabox.FilePath.join_path hubabox.World.fails hubabox.World.later find hubabox.Text.Assoc.put
    hubabox.Text.Assoc.del text_eq
shares = tt

abbrev hub : World
hub = record { kv = []; sessions = []; messages = []; next_id = 1; disk = []; now = 9; faults = [] }

abbrev snippet : Text
snippet = linux_body (codes "/d/x") (codes "Hub-1") (codes "/srv/files")

abbrev other : Text
other = codes "[global]\npath = /srv/files\n[Other]\npath = /srv\n"

abbrev samba : System
samba = record {
  platform_note = codes "note";
  probe = λ path name. probe_os ascii name (ok snippet) path;
  try_apply = λ path name. try_apply_os ascii name true (ok snippet) path;
}

abbrev named : Text → List (Text × Text)
named name = (codes "share_name", name) ∷ []

runs :
    ((set_share_name (codes " a b ") hub).0 ≡ err invalid_share_name)
    × ((read_share_name (set_share_name (codes " Hub-1 ") hub).1).0 ≡ codes "Hub-1")
    × ((read_share_name hub).0 ≡ codes "HubaBox")
    × (unc_paths_for (codes "box") (codes "Hub") (codes "10.0.0.7" ∷ codes " box " ∷ codes " " ∷ [])
        ≡ codes "\\\\box\\Hub" ∷ codes "\\\\box.local\\Hub" ∷ codes "\\\\10.0.0.7\\Hub" ∷ [])
    × (samba_share_points_at ascii (codes "hub-1") snippet (codes "/srv/files/") ≡ true)
    × (samba_share_points_at ascii (codes "Hub-1") other (codes "/srv/files") ≡ false)
    × (samba_share_points_at ascii (codes "Hub-1") snippet (codes "/srv") ≡ false)
unfolding shares
runs = (refl, refl, refl, refl, refl, refl, refl)

abbrev enabled : World
enabled =
    (files_lan_share_enable_post samba cwd (codes "/d") (codes "/srv/files") [] [] (λ e. codes "no")
      (ok (named (codes " Hub-1 "))) hub).1

form_runs :
    ((files_lan_share_enable_post samba cwd
        (codes "/d")
        (codes "/srv/files")
        []
        []
        (λ e. codes "no")
        (ok (named (codes " Hub-1 ")))
        hub).0
      ≡ redirect (codes "/files?msg=lanshare_on"))
    × ((files_lan_share_enable_post samba cwd
          (codes "/d")
          (codes "/srv/files")
          []
          []
          (λ e. codes "no")
          (ok (named (codes "a b")))
          hub).0
        ≡ redirect (codes "/files?msg=lanshare_err&why=no"))
    × ((read_desired enabled).0 ≡ true)
    × ((read_desired
          (files_lan_share_disable_post samba cwd
            (codes "/d")
            (codes "/srv/files")
            []
            []
            (λ e. codes "no")
            enabled).1).0
        ≡ false)
unfolding shares
form_runs = (refl, refl, refl, refl)

-- The folder of the hub as the configuration has it, and as a relative path.
relative_runs :
    ((try_apply_os ascii (codes "Hub-1") true (ok snippet) (codes "/srv/files")).0 ≡ true)
    × ((try_apply_os ascii (codes "Hub-1") true (ok snippet) (codes "files")).0 ≡ false)
    × ((probe_os ascii (codes "Hub-1") (ok snippet) (codes "/srv/files")).0 ≡ true)
unfolding shares
relative_runs = (refl, refl, refl)

abbrev lines_before : List Text
lines_before = codes "[global]" ∷ codes "\tworkgroup = HOME" ∷ [] ∷ []

abbrev lines_inside : List Text
lines_inside = codes "\tcomment = path" ∷ []

-- What `testparm -s` prints.
abbrev printed : Text
printed =
    codes
      "[global]\n\tworkgroup = HOME\n\n[Hub-1]\n\tcomment = path\n\tpath = /srv/files\n\tread only = No\n"

probe_os-section_example :
    (probe_os ascii (codes "Hub-1") (ok printed) (codes "/srv/files")).0 ≡ true
unfolding shares
probe_os-section_example =
    probe_os-section ascii (λ c h. refl) (codes "Hub-1") lines_before lines_inside
      (codes "\tread only = No" ∷ [] ∷ []) (codes "\t") (codes "srv/files") (search) (search)
      (search) (search) refl (search) refl
