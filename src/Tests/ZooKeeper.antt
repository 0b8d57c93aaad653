-- ===== src/Tests/ZooKeeper.antt =====
-- The registry of src/registry/zookeeper_registry.cpp over a server with one service.
use my_mprpc.Prelude.{◌≡◌, refl, true, some, [], ◌∷◌, codes, arith, bytes_eq}
use my_mprpc.Prelude.Int.{pos}
use my_mprpc.Registry.Instance.{ServiceInstance, make_instance, get_id}
use my_mprpc.Prelude.Decimal.{to_string}
use my_mprpc.Registry.Storage.{serialize_instance, serialize_metadata}
use my_mprpc.Prelude.Parse.{to_string_int}
use my_mprpc.Registry.ZooKeeper.{
  ZooKeeperRegistry, register_service, discover_service, get_service_instances, collect,
}
use my_mprpc.Registry.ZooKeeper.Discovery.{IsStorable, IsPrepared, Found, register_service-Found}
use my_mprpc.Registry.ZooKeeper.Watching.{
  child_event, service_watcher, update_service_cache, notify_service_change, cached,
}
use my_mprpc.Tests.ZooKeeperServer.{server, laws, split_last, echo}

abbrev instance_one : ServiceInstance
instance_one = make_instance (codes "Echo") (codes "h") 80 (pos 1)

abbrev registry : ZooKeeperRegistry
registry = record {
  connected = true;
  running = true;
  handle = true;
  service_cache = [];
  callbacks = [];
}

storable : IsStorable instance_one
unfolding make_instance get_id to_string serialize_instance serialize_metadata to_string_int
storable = record {
  name_line = grind arith;
  host_line = grind arith;
  port_bound = omega arith;
  weight_bound = omega arith;
  heartbeat_bound = omega arith;
  entries = tt;
  one_level = grind arith;
  short = omega arith;
}

prepared : IsPrepared laws (codes "Echo") [] []
unfolding server
prepared = record { root = ([], refl); services = ([], refl); service = refl }

register_service-Found_example : Found (some (instance_one ∷ [])) (
    discover_service server
      (codes "Echo")
      registry
      (register_service server instance_one registry []).1)
unfolding make_instance
register_service-Found_example =
    register_service-Found laws instance_one registry [] [] [] storable refl prepared
      (unfold discover_service server collect in refl)
      (unfold register_service server split_last get_id to_string in refl)

abbrev subscribed : ZooKeeperRegistry
subscribed = record registry { callbacks = (codes "Echo", 3) ∷ [] }

-- A child event when the service has no instance at either reading.
service_watcher_empty :
    service_watcher server child_event echo subscribed [] []
    ≡ some (
      record subscribed { service_cache = (codes "Echo", []) ∷ [] },
      record { callback = 3; service_name = codes "Echo"; instances = [] } ∷ [],
    )
unfolding service_watcher update_service_cache notify_service_change get_service_instances server
    collect cached
service_watcher_empty = refl
