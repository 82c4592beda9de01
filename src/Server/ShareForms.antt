-- ===== src/Server/ShareForms.antt =====
-- The forms of the LAN share: hubabox-proj/internal/server/integrations_handlers.go.
use hubabox.Base.{List, [], ◌∷◌, ◌++◌, if◌then◌else◌, Result, ok, err, Error}
use hubabox.Text.{Text, codes, trim_space}
use hubabox.Text.Urls.{query_escape}
use hubabox.World.{World}
use hubabox.LanShare.{set_share_name}
use hubabox.LanShare.Status.{System, ShareStatus, apply, disable_share, or_else}
use hubabox.Server.{Answer, redirect, form_value}

abbrev share_err : Text → Answer
share_err why = redirect (codes "/files?msg=lanshare_err&why=" ++ query_escape why)

-- The answer to a status.
abbrev pub enabled_share : ShareStatus → Answer
enabled_share st =
    if st.active
    then redirect (codes "/files?msg=lanshare_on")
    else redirect (
        codes "/files?msg=lanshare_pending&why="
        ++ query_escape (
            or_else st.last_apply_err
              (codes "share not active — run the helper script as Administrator or root")))

module _ (system : System) (cwd : Result Text) (data_dir files_dir hostname : Text)
    (lan_ips : List Text) (error_text : Error → Text) where
  abbrev applied : World → Answer × World
  applied w =
      let (st, w') = apply system cwd data_dir files_dir hostname lan_ips w in
      (enabled_share st, w')

  abbrev named_share : Result (Unit {0}) × World → Answer × World
  named_share (err e, w) = (share_err (error_text e), w)
  named_share (ok _, w) = applied w

  abbrev share_name_form : Text → World → Answer × World
  share_name_form [] w = applied w
  share_name_form (c ∷ name) w = named_share (set_share_name (c ∷ name) w)

  abbrev share_form : Result (List (Text × Text)) → World → Answer × World
  share_form (err e) w = (share_err (codes "bad form"), w)
  share_form (ok form) w = share_name_form (trim_space (form_value (codes "share_name") form)) w

  -- `filesLANShareEnablePost`
  unfoldable pub files_lan_share_enable_post : Result (List (Text × Text)) → World → Answer × World
  files_lan_share_enable_post form w = share_form form w

  -- `filesLANShareDisablePost`
  unfoldable pub files_lan_share_disable_post : World → Answer × World
  files_lan_share_disable_post w =
      let (st, w') = disable_share system cwd data_dir files_dir hostname lan_ips w in
      (redirect (codes "/files?msg=lanshare_off"), w')
