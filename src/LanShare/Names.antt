-- ===== src/LanShare/Names.antt =====
-- The names and paths of the share.
use hubabox.Base.{
  true, false, List, [], ◌∷◌, ◌≡◌, refl, any, Result, ok, err, All, Bool-cases, inl, inr, err-ne-ok,
  invalid_share_name,
}
use hubabox.Text.{Text, text_eq, text_eq_refl, trim_space}
use hubabox.Text.Trim.{trim_space_idem}
use hubabox.Text.Assoc.{find-put}
use hubabox.World.{World, fails, later}
use hubabox.LanShare.{
  is_share_name, share_name_of, kv_share_name, read_share_name, set_share_name, unc_path, add_hosts,
  unc_paths_for,
}

share_name_of-valid : (r : Result Text) → is_share_name (share_name_of r) ≡ true
unfolding is_share_name
share_name_of-valid (err e) = refl
share_name_of-valid (ok v) = elim (Bool-cases (is_share_name (trim_space v))) [
  | inl y ↦ rw y y
  | inr n ↦ rw n refl
]

-- In every state and whatever fails, the name that is read is a valid share name; after a
-- successful write it is the trimmed name that was written, if nothing has failed since.
read_share_name-set_share_name :
    (name : Text) (w : World)
    → w.faults ≡ []
    → (set_share_name name w).0 ≡ ok tt
    → (is_share_name (read_share_name w).0 ≡ true)
      × ((read_share_name (set_share_name name w).1).0 ≡ trim_space name)
      × (is_share_name (trim_space name) ≡ true)
unfolding read_share_name set_share_name fails later
read_share_name-set_share_name name w f h = elim (Bool-cases (is_share_name (trim_space name))) [
  | inr n ↦ absurd (err-ne-ok invalid_share_name tt (rw n at h))
  | inl y ↦ (
    share_name_of-valid _,
    rw
        (
          y,
          f,
          find-put kv_share_name kv_share_name (trim_space name) w.kv,
          text_eq_refl kv_share_name,
          trim_space_idem name,
          y,
        )
        refl,
    y,
  )
]

-- Each path once.
abbrev pub IsOnce : List Text → List Text → Type 0
IsOnce seen [] = Unit
IsOnce seen (u ∷ us) = (any (text_eq u) seen ≡ false) × IsOnce (u ∷ seen) us

-- A path to the share on some host.
abbrev pub IsUncPath : Text → Text → Type 0
IsUncPath share_name path =
    (host : Text) × (path ≡ unc_path (trim_space host) share_name)
    × (text_eq (trim_space host) [] ≡ false)

add_hosts-IsOnce :
    (name : Text) (out hosts : List Text)
    → IsOnce out (add_hosts name out hosts) × All (IsUncPath name) (add_hosts name out hosts)
unfolding add_hosts
add_hosts-IsOnce name out [] = (tt, tt)
add_hosts-IsOnce name out (raw ∷ hosts) =
    let u = unc_path (trim_space raw) name in
    elim (Bool-cases (text_eq (trim_space raw) [])) [
      | inl e ↦ rw e (add_hosts-IsOnce name out hosts)
      | inr e ↦ elim (Bool-cases (any (text_eq u) out)) [
        | inl k ↦ rw (e, k) (add_hosts-IsOnce name out hosts)
        | inr k ↦
            let (once, paths) = add_hosts-IsOnce name (u ∷ out) hosts in
            rw (e, k) ((k, once), ((raw, refl, e), paths))
      ]
    ]

-- The paths that the page shows for guests name the share on a host, and none is shown twice.
unc_paths_for-IsOnce :
    (hostname name : Text) (lan_ips : List Text)
    → IsOnce [] (unc_paths_for hostname name lan_ips)
      × All (IsUncPath (trim_space name)) (unc_paths_for hostname name lan_ips)
unfolding unc_paths_for
unc_paths_for-IsOnce hostname name lan_ips = elim (Bool-cases (text_eq (trim_space name) [])) [
  | inl e ↦ rw e (tt, tt)
  | inr e ↦ rw e (add_hosts-IsOnce (trim_space name) [] _)
]
