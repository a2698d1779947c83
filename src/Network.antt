-- ===== src/Network.antt =====
-- metrics/network.rs: the primary interface and the traffic totals. The byte counts are `u64`, and a
-- sum wraps around.
pub mod Primary
pub mod Interfaces
mod Tests
use spark_dashboard.Prelude.{
  ℕ, ◌+◌, ◌%◌, ◌^◌, String, Bool, true, false, not, Option, none, some, List, [], ◌∷◌, ltb, filterb,
  if◌then◌else◌,
}

pub record InterfaceInfo : Type 0 where
  pub name : String
  pub rx : ℕ
  pub tx : ℕ
  pub has_global_ip : Bool
  pub is_virtual : Bool

pub record NetworkMetrics : Type 0 where
  pub name : Option String
  pub rx_bytes_per_sec : ℕ
  pub tx_bytes_per_sec : ℕ

abbrev pub add_u64 : ℕ → ℕ → ℕ
add_u64 a b = (a + b) % 2 ^ 64

abbrev pub traffic : InterfaceInfo → ℕ
traffic i = add_u64 i.rx i.tx

-- `>` on the pairs of `has_global_ip` and the traffic.
abbrev pub outranks : InterfaceInfo → InterfaceInfo → Bool
outranks i b =
    if i.has_global_ip
    then (if b.has_global_ip then ltb (traffic b) (traffic i) else true)
    else (if b.has_global_ip then false else ltb (traffic b) (traffic i))

abbrev pub outcarries : InterfaceInfo → InterfaceInfo → Bool
outcarries i b = ltb (traffic b) (traffic i)

-- The variables of a loop: the totals, and the best interface so far.
pub record Scan : Type 0 where
  pub total_rx : ℕ
  pub total_tx : ℕ
  pub best : Option InterfaceInfo

abbrev pub better_of :
    (InterfaceInfo → InterfaceInfo → Bool) → InterfaceInfo → Option InterfaceInfo → InterfaceInfo
better_of above i none = i
better_of above i (some b) = if above i b then i else b

-- One turn of a loop, by the test that replaces the best interface. The loop of the fallback has the
-- name and the traffic of that interface as its variables.
abbrev pub turn : (InterfaceInfo → InterfaceInfo → Bool) → Scan → InterfaceInfo → Scan
turn above s i = record {
  total_rx = add_u64 s.total_rx i.rx;
  total_tx = add_u64 s.total_tx i.tx;
  best = some (better_of above i s.best);
}

pub scan : (InterfaceInfo → InterfaceInfo → Bool) → Scan → List InterfaceInfo → Scan
scan above s [] = s
scan above s (i ∷ interfaces) = scan above (turn above s i) interfaces

abbrev pub scan_start : Scan
scan_start = record { total_rx = 0; total_tx = 0; best = none }

abbrev name_of : Option InterfaceInfo → Option String
name_of none = none
name_of (some i) = some i.name

abbrev pub metrics_of : Scan → NetworkMetrics
metrics_of s = record {
  name = name_of s.best;
  rx_bytes_per_sec = s.total_rx;
  tx_bytes_per_sec = s.total_tx;
}

abbrev pub candidates : List InterfaceInfo → List InterfaceInfo
candidates interfaces = filterb (λ i. not i.is_virtual) interfaces

abbrev choose : List InterfaceInfo → List InterfaceInfo → NetworkMetrics
choose [] interfaces = metrics_of (scan outcarries scan_start interfaces)
choose (c ∷ real) interfaces = metrics_of (scan outranks scan_start (c ∷ real))

pub select_network_metrics : List InterfaceInfo → NetworkMetrics
unfolding scan
select_network_metrics interfaces = choose (candidates interfaces) interfaces
