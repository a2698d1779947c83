-- ===== src/Network/Tests.antt =====
-- The primary interface among concrete interfaces.
use spark_dashboard.Prelude.{ℕ, String, Bool}
use spark_dashboard.Network.{InterfaceInfo}

abbrev interface : String → ℕ → Bool → Bool → InterfaceInfo
interface name rx has_global_ip is_virtual = record {
  name = name;
  rx = rx;
  tx = 1;
  has_global_ip = has_global_ip;
  is_virtual = is_virtual;
}
