-- ===== src/NetUtil/Lan.antt =====
-- What the addresses for guests are.
use mathlib.Core.List.{Perm}
use hubabox.Base.{
  true, false, not, ◌||◌, List, [], ◌∷◌, ◌≡◌, refl, subst, any, Result, ok, err, Option, none, some,
  Bool-cases, inl, inr, sort_by, sort_by-Perm, sort_by-IsSortedBy, IsSortedBy, ok-injective,
}
use hubabox.Text.{Text, Unicode, text_eq}
use hubabox.Text.Order.{text_less, text_less-IsOrder}
use hubabox.NetUtil.{
  Ip4, Iface, is_likely_lan, ip_text, add_addrs, add_listed, add_ifaces, skip_iface,
  lan_ipv4_strings,
}

-- The text of a private address.
abbrev pub IsLan : Text → Type 0
IsLan s = (ip : Ip4) × (s ≡ ip_text ip) × (is_likely_lan ip ≡ true)

-- Private addresses, each once.
abbrev pub AreLan : List Text → Type 0
AreLan [] = Unit
AreLan (s ∷ ips) = IsLan s × (any (text_eq s) ips ≡ false) × AreLan ips

add_addrs-AreLan :
    (ips : List Text) (addrs : List (Option Ip4)) → AreLan ips → AreLan (add_addrs ips addrs)
unfolding add_addrs
add_addrs-AreLan ips [] h = h
add_addrs-AreLan ips (none ∷ addrs) h = add_addrs-AreLan ips addrs h
add_addrs-AreLan ips (some ip ∷ addrs) h = elim (Bool-cases (is_likely_lan ip)) [
  | inr n ↦ rw n (add_addrs-AreLan ips addrs h)
  | inl y ↦ elim (Bool-cases (any (text_eq (ip_text ip)) ips)) [
    | inl k ↦ rw (y, k) (add_addrs-AreLan ips addrs h)
    | inr k ↦ rw (y, k) (add_addrs-AreLan (ip_text ip ∷ ips) addrs ((ip, refl, y), k, h))
  ]
]

add_listed-AreLan :
    (ips : List Text) (r : Result (List (Option Ip4))) → AreLan ips → AreLan (add_listed ips r)
add_listed-AreLan ips (err e) h = h
add_listed-AreLan ips (ok addrs) h = add_addrs-AreLan ips addrs h

module _ (u : Unicode) where
  add_ifaces-AreLan :
      (ips : List Text) (ifaces : List Iface) → AreLan ips → AreLan (add_ifaces u ips ifaces)
  unfolding add_ifaces
  add_ifaces-AreLan ips [] h = h
  add_ifaces-AreLan ips (i ∷ ifaces) h =
      elim (Bool-cases (not i.up || i.loopback || skip_iface u i.name)) [
        | inl s ↦ rw s (add_ifaces-AreLan ips ifaces h)
        | inr s ↦
            rw s
              (add_ifaces-AreLan (add_listed ips i.addrs) ifaces (add_listed-AreLan ips i.addrs h))
      ]

  -- The addresses that are shown for guests are sorted; they are private IPv4 addresses of the
  -- host, each once.
  lan_ipv4_strings-AreLan :
      (ifaces : List Iface) (ips : List Text)
      → lan_ipv4_strings u (ok ifaces) ≡ ok ips
      → IsSortedBy text_less ips
        × Perm ips (add_ifaces u [] ifaces)
        × AreLan (add_ifaces u [] ifaces)
  unfolding lan_ipv4_strings
  lan_ipv4_strings-AreLan ifaces ips h =
      let same : sort_by text_less (add_ifaces u [] ifaces) ≡ ips = ok-injective h in
      (
        subst (IsSortedBy text_less) same
            (sort_by-IsSortedBy text_less text_less-IsOrder (add_ifaces u [] ifaces)),
        subst (λ l. Perm l (add_ifaces u [] ifaces)) same
            (sort_by-Perm text_less (add_ifaces u [] ifaces)),
        add_ifaces-AreLan [] ifaces tt,
      )
