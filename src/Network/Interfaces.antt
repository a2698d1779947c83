-- ===== src/Network/Interfaces.antt =====
-- metrics/network.rs: which interfaces are virtual, which addresses count, and the metrics of a tick.
use spark_dashboard.Prelude.{
  ℕ, ◌/◌, String, Bool, false, not, ◌&&◌, List, [], ◌∷◌, map, any, all, ◌==◌, nat_eq, if◌then◌else◌,
  get_elem?, or_default,
}
use spark_dashboard.Text.{starts_with}
use spark_dashboard.Network.{InterfaceInfo, NetworkMetrics, select_network_metrics}

abbrev pub virtual_prefixes : List String
virtual_prefixes =
    "lo" ∷ "docker" ∷ "veth" ∷ "br-" ∷ "virbr" ∷ "vnet" ∷ "vmnet" ∷ "tun" ∷ "tap" ∷ "wg"
    ∷ "tailscale" ∷ "zt" ∷ "utun" ∷ "llw" ∷ "awdl" ∷ "bridge" ∷ "gif" ∷ "stf" ∷ "anpi" ∷ "cni"
    ∷ "flannel" ∷ "cali" ∷ "cilium" ∷ "kube" ∷ "dummy" ∷ "ifb" ∷ "lxc" ∷ "lxd" ∷ "nerdctl" ∷ []

unfoldable pub is_virtual_interface : String → Bool
unfolding starts_with
is_virtual_interface name = any (starts_with name) virtual_prefixes

-- `std::net::IpAddr`, by its octets or its segments.
pub data Address : Type 0 where
  v4 : ℕ → ℕ → ℕ → ℕ → Address
  v6 : List ℕ → Address

abbrev pub all_zero : List ℕ → Bool
all_zero numbers = all (λ n. n == 0) numbers

-- All zero, or all but the last one, that is 1.
abbrev pub is_loopback_v6 : List ℕ → Bool
is_loopback_v6 [] = false
is_loopback_v6 (n ∷ []) = n == 1
is_loopback_v6 (n ∷ next ∷ segments) =
    let rest = is_loopback_v6 (next ∷ segments) in if n == 0 then rest else false

-- The mask `0xffc0` leaves the quotient by 64.
abbrev pub is_link_local_v6 : List ℕ → Bool
is_link_local_v6 segments = or_default 0 (get_elem? segments 0) / 64 == 1018

unfoldable pub is_global_ip : Address → Bool
is_global_ip (v4 a b c d) =
    not (a == 127) && not (all_zero (a ∷ b ∷ c ∷ d ∷ [])) && not (a == 169 && b == 254)
is_global_ip (v6 segments) =
    not (is_loopback_v6 segments) && not (all_zero segments) && not (is_link_local_v6 segments)

-- An interface as the crate `sysinfo` lists it.
pub record Interface : Type 0 where
  pub name : String
  pub received : ℕ
  pub transmitted : ℕ
  pub ip_networks : List Address

abbrev pub info_of : Interface → InterfaceInfo
info_of i = record {
  name = i.name;
  rx = i.received;
  tx = i.transmitted;
  has_global_ip = any is_global_ip i.ip_networks;
  is_virtual = is_virtual_interface i.name;
}

unfoldable pub collect_network_metrics : List Interface → NetworkMetrics
unfolding is_global_ip is_virtual_interface
collect_network_metrics networks = select_network_metrics (map info_of networks)
