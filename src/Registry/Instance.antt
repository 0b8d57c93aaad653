-- ===== src/Registry/Instance.antt =====
-- ServiceInstance of include/registry.h. Strings are lists of bytes.
use my_mprpc.Prelude.{ℕ, Bool, true, false, [], ◌∷◌, ◌++◌, Bytes}
use my_mprpc.Prelude.Int.{ℤ, pos}
use my_mprpc.Prelude.Map.{Map}
use my_mprpc.Prelude.Decimal.{to_string}

pub record ServiceInstance : Type 0 where
  pub service_name : Bytes
  pub host : Bytes
  -- uint16_t
  pub port : ℕ
  -- int
  pub weight : ℤ
  pub is_healthy : Bool
  -- uint64_t
  pub last_heartbeat : ℕ
  pub metadata : Map Bytes Bytes

unfoldable pub default_instance : ServiceInstance
default_instance = record {
  service_name = [];
  host = [];
  port = 0;
  weight = pos 1;
  is_healthy = false;
  last_heartbeat = 0;
  metadata = [];
}

unfoldable pub make_instance : Bytes → Bytes → ℕ → ℤ → ServiceInstance
make_instance name host_addr port_num instance_weight = record {
  service_name = name;
  host = host_addr;
  port = port_num;
  weight = instance_weight;
  is_healthy = true;
  last_heartbeat = 0;
  metadata = [];
}

-- host:port
unfoldable pub get_id : ServiceInstance → Bytes
get_id s = s.host ++ (b':' ∷ to_string s.port)
