-- ===== src/LanShare/Status.antt =====
-- The share as the operator sees it: hubabox-proj/internal/lanshare/status.go. What the system does
-- and reports is an argument.
use hubabox.Base.{Bool, true, false, not, ◌&&◌, List, [], ◌∷◌, if◌then◌else◌, Result, ok, err}
use hubabox.Text.{Text, codes, text_eq}
use hubabox.FilePath.{abs}
use hubabox.World.{World}
use hubabox.LanShare.{
  read_share_name, read_desired, set_desired, set_last_apply_err, read_last_apply_err,
  unc_paths_for,
}
use hubabox.LanShare.Scripts.{write_helper_scripts}

-- The system: its note, whether it has a share for a path with a name, and whether it has made one.
pub record System : Type 0 where
  pub platform_note : Text
  pub probe : Text → Text → Bool × Text
  pub try_apply : Text → Text → Bool × Text

-- `Status`
pub record ShareStatus : Type 0 where
  pub desired : Bool
  pub share_name : Text
  pub files_path : Text
  pub active : Bool
  pub unc_paths : List Text
  pub note : Text
  pub apply_hint : Text
  pub scripts : Text × Text
  pub last_apply_err : Text

abbrev hint_of : Bool → Bool → Text
hint_of true false =
    codes
      "Share is requested but not active on the OS yet — click Enable or run the helper script as Administrator/root."
hint_of true true =
    codes "LAN file sharing is active. Guests can use the UNC paths below (read-only)."
hint_of false true = codes "A share exists on this machine; click Disable if you want to remove it."
hint_of false false = []

abbrev pub or_else : Text → Text → Text
or_else [] d = d
or_else (c ∷ s) d = c ∷ s

abbrev scripts_of : Result (Text × Text) → Text × Text
scripts_of (err e) = ([], [])
scripts_of (ok paths) = paths

abbrev abs_or_empty : Result Text → Text
abs_or_empty (err e) = []
abs_or_empty (ok p) = p

module _ (system : System) (cwd : Result Text) (data_dir files_dir hostname : Text)
    (lan_ips : List Text) where
  -- `BuildStatus`
  unfoldable pub build_status : World → ShareStatus × World
  build_status w =
      let (name, w₁) = read_share_name w in
      let (desired, w₂) = read_desired w₁ in
      let path = abs_or_empty (abs cwd files_dir) in
      let (active, note) = system.probe path name in
      let (scripts, w₃) = write_helper_scripts cwd data_dir path name w₂ in
      (
        record {
          desired = desired;
          share_name = name;
          files_path = path;
          active = active;
          unc_paths = unc_paths_for hostname name lan_ips;
          note = or_else note system.platform_note;
          apply_hint = hint_of desired active;
          scripts = scripts_of scripts;
          last_apply_err = [];
        },
        w₃,
      )

  -- The end of `Apply`.
  abbrev with_error : Bool → Text → ShareStatus → ShareStatus
  with_error applied err_msg st =
      if not applied && not (text_eq err_msg [])
      then record st { apply_hint = or_else st.apply_hint err_msg; last_apply_err = err_msg }
      else st

  -- `Apply`; errors of the two settings are dropped.
  unfoldable pub apply : World → ShareStatus × World
  apply w =
      let (name, w₁) = read_share_name w in
      let (r, w₂) = set_desired true w₁ in
      let (applied, err_msg) = system.try_apply files_dir name in
      let (r', w₃) = set_last_apply_err err_msg w₂ in
      let (st, w₄) = build_status w₃ in (with_error applied err_msg st, w₄)

  -- `Disable`; what it asks of the system is not seen here.
  unfoldable pub disable_share : World → ShareStatus × World
  disable_share w =
      let (name, w₁) = read_share_name w in
      let (r, w₂) = set_desired false w₁ in
      let (r', w₃) = set_last_apply_err [] w₂ in build_status w₃

-- `EnrichStatus`
unfoldable pub enrich_status : ShareStatus → World → ShareStatus × World
enrich_status st w =
    let (e, w') = read_last_apply_err w in
    (record st { last_apply_err = or_else e st.last_apply_err }, w')
