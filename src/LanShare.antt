-- ===== src/LanShare.antt =====
-- Sharing the hub's files on the local network: the settings and the paths for guests of
-- hubabox-proj/internal/lanshare/lanshare.go and status.go.
pub mod Scripts
pub mod Samba
pub mod Status
pub mod Names
use hubabox.Base.{
  ℕ, Bool, true, false, not, ◌&&◌, ◌||◌, List, [], ◌∷◌, ◌++◌, leb, ltb, ◌==◌, any, length,
  if◌then◌else◌, Result, ok, err, Error, invalid_share_name,
}
use hubabox.Text.{Text, codes, text_eq, trim_space}
use hubabox.World.{World, Act, ◌>>◌, refuse_if}
use hubabox.World.Db.{select_kv, upsert_kv, delete_kv}

abbrev pub kv_share_name : Text
kv_share_name = codes "lanshare_name"

abbrev pub kv_share_desired : Text
kv_share_desired = codes "lanshare_desired"

abbrev pub kv_last_apply_err : Text
kv_last_apply_err = codes "lanshare_last_err"

abbrev pub default_share_name : Text
default_share_name = codes "HubaBox"

abbrev pub is_alnum : ℕ → Bool
is_alnum c = (leb b'A' c && leb c b'Z') || (leb b'a' c && leb c b'z') || (leb b'0' c && leb c b'9')

abbrev pub is_share_unit : ℕ → Bool
is_share_unit c = is_alnum c || c == b'_' || c == b'-'

-- `shareNameRE`
unfoldable pub is_share_name : Text → Bool
is_share_name [] = false
is_share_name (c ∷ s) = is_alnum c && not (any (λ d. not (is_share_unit d)) s) && ltb (length s) 32

abbrev pub share_name_of : Result Text → Text
share_name_of (err e) = default_share_name
share_name_of (ok v) = if is_share_name (trim_space v) then trim_space v else default_share_name

-- `ReadShareName`; the database is always there, and an empty name does not match.
unfoldable pub read_share_name : World → Text × World
read_share_name w = let (r, w') = select_kv kv_share_name w in (share_name_of r, w')

-- `SetShareName`
unfoldable pub set_share_name : Text → Act (Unit {0})
set_share_name name =
    refuse_if (not (is_share_name (trim_space name))) invalid_share_name
    >> upsert_kv kv_share_name (trim_space name)

abbrev desired_of : Result Text → Bool
desired_of (err e) = false
desired_of (ok v) = text_eq (trim_space v) (codes "1")

-- `ReadDesired`
unfoldable pub read_desired : World → Bool × World
read_desired w = let (r, w') = select_kv kv_share_desired w in (desired_of r, w')

-- `SetDesired`
unfoldable pub set_desired : Bool → Act (Unit {0})
set_desired false = delete_kv kv_share_desired
set_desired true = upsert_kv kv_share_desired (codes "1")

abbrev store_apply_err : Text → Act (Unit {0})
store_apply_err [] = delete_kv kv_last_apply_err
store_apply_err (c ∷ msg) = upsert_kv kv_last_apply_err (c ∷ msg)

-- `setLastApplyErr`
unfoldable pub set_last_apply_err : Text → Act (Unit {0})
set_last_apply_err msg = store_apply_err (trim_space msg)

abbrev apply_err_of : Result Text → Text
apply_err_of (err e) = []
apply_err_of (ok v) = v

-- `readLastApplyErr`
unfoldable pub read_last_apply_err : World → Text × World
read_last_apply_err w = let (r, w') = select_kv kv_last_apply_err w in (apply_err_of r, w')

abbrev pub unc_path : Text → Text → Text
unc_path host share_name = codes "\\\\" ++ host ++ codes "\\" ++ share_name

-- `add` in `UNCPathsFor`, for hosts that are left; `seen` holds the same paths as `out`.
unfoldable pub add_hosts : Text → List Text → List Text → List Text
add_hosts share_name out [] = []
add_hosts share_name out (raw ∷ hosts) =
    let host = trim_space raw in
    let u = unc_path host share_name in
    let same = add_hosts share_name out hosts in
    let more = u ∷ add_hosts share_name (u ∷ out) hosts in
    if text_eq host [] then same else if any (text_eq u) out then same else more

abbrev hosts_of : Text → List Text → List Text
hosts_of [] lan_ips = lan_ips
hosts_of (c ∷ hostname) lan_ips = (c ∷ hostname) ∷ (c ∷ hostname ++ codes ".local") ∷ lan_ips

-- `UNCPathsFor`
unfoldable pub unc_paths_for : Text → Text → List Text → List Text
unc_paths_for hostname share_name lan_ips =
    let paths = add_hosts (trim_space share_name) [] (hosts_of hostname lan_ips) in
    if text_eq (trim_space share_name) [] then [] else paths
