-- ===== src/NetUtil.antt =====
-- The addresses of the hub on the local network: hubabox-proj/internal/netutil/lanip.go. The
-- interfaces and their addresses are an argument.
pub mod Lan
use hubabox.Base.{
  ℕ, Bool, true, false, not, ◌&&◌, ◌||◌, List, [], ◌∷◌, ◌++◌, leb, ◌==◌, any, if◌then◌else◌,
  sort_by, Result, ok, err, Option, none, some,
}
use hubabox.Text.{Text, Unicode, codes, text_eq, trim_space, has_prefix, to_lower}
use hubabox.Text.Decimal.{itoa}
use hubabox.Text.Order.{text_less}

-- An IPv4 address, by its bytes.
pub record Ip4 : Type 0 where
  pub a : ℕ
  pub b : ℕ
  pub c : ℕ
  pub d : ℕ

-- An interface; an address that is no network or has no IPv4 form is `none`.
pub record Iface : Type 0 where
  pub name : Text
  pub up : Bool
  pub loopback : Bool
  pub addrs : Result (List (Option Ip4))

abbrev skipped_prefixes : List Text
skipped_prefixes =
    codes "docker"
    ∷ codes "br-"
    ∷ codes "veth"
    ∷ codes "virbr"
    ∷ codes "vmnet"
    ∷ codes "vboxnet"
    ∷ codes "cni"
    ∷ codes "flannel"
    ∷ codes "calico"
    ∷ codes "wg"
    ∷ []

-- `isLikelyLANIPv4`
abbrev pub is_likely_lan : Ip4 → Bool
is_likely_lan ip =
    not (ip.a == 127)
    && (ip.a == 10
        || (ip.a == 172 && leb 16 ip.b && leb ip.b 31)
        || (ip.a == 192 && ip.b == 168)
        || (ip.a == 100 && leb 64 ip.b && leb ip.b 127))

-- `ip.String()`
unfoldable pub ip_text : Ip4 → Text
ip_text ip = itoa ip.a ++ codes "." ++ itoa ip.b ++ codes "." ++ itoa ip.c ++ codes "." ++ itoa ip.d

-- The loop over the addresses of an interface; the map `seen` holds the same texts as `ips`.
unfoldable pub add_addrs : List Text → List (Option Ip4) → List Text
add_addrs ips [] = ips
add_addrs ips (none ∷ addrs) = add_addrs ips addrs
add_addrs ips (some ip ∷ addrs) =
    let same = add_addrs ips addrs in
    let more = add_addrs (ip_text ip ∷ ips) addrs in
    if not (is_likely_lan ip) || any (text_eq (ip_text ip)) ips then same else more

abbrev pub add_listed : List Text → Result (List (Option Ip4)) → List Text
add_listed ips (err e) = ips
add_listed ips (ok addrs) = add_addrs ips addrs

module _ (u : Unicode) where
  -- `skipIface`
  abbrev pub skip_iface : Text → Bool
  skip_iface name = any (has_prefix (to_lower u (trim_space name))) skipped_prefixes

  -- The loop over the interfaces; the order in which they add does not matter to the sort.
  unfoldable pub add_ifaces : List Text → List Iface → List Text
  add_ifaces ips [] = ips
  add_ifaces ips (i ∷ ifaces) =
      let skipped = add_ifaces ips ifaces in
      let more = add_ifaces (add_listed ips i.addrs) ifaces in
      if not i.up || i.loopback || skip_iface i.name then skipped else more

  abbrev sorted : Result (List Iface) → Result (List Text)
  sorted (err e) = err e
  sorted (ok ifaces) = ok (sort_by text_less (add_ifaces [] ifaces))

  -- `LANIPv4Strings`
  unfoldable pub lan_ipv4_strings : Result (List Iface) → Result (List Text)
  lan_ipv4_strings ifaces = sorted ifaces
