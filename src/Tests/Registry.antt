-- ===== src/Tests/Registry.antt =====
-- src/registry at concrete inputs.
use my_mprpc.Prelude.{◌≡◌, true, some, [], ◌∷◌, codes, arith}
use my_mprpc.Prelude.Int.{negsuc}
use my_mprpc.Registry.Instance.{ServiceInstance}
use my_mprpc.Registry.Storage.{serialize_instance, deserialize_instance}
use my_mprpc.Registry.Storage.Lines.{deserialize_instance-serialize_instance}

abbrev stored : ServiceInstance
stored = record {
  service_name = codes "Echo";
  host = codes "h";
  port = 80;
  weight = negsuc 4;
  is_healthy = true;
  last_heartbeat = 17;
  metadata = (codes "a", codes "x=y") ∷ (codes "b", []) ∷ [];
}

deserialize_instance-serialize_instance_example :
    deserialize_instance (serialize_instance stored) ≡ some stored
deserialize_instance-serialize_instance_example =
    deserialize_instance-serialize_instance stored (grind arith) (grind arith) (omega arith)
      (omega arith) (omega arith) (grind arith)
