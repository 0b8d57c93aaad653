-- ===== src/Registry/Factory.antt =====
-- src/registry/registry_factory.cpp: which registry is made, and for which servers. What
-- zookeeper_init gives for the hosts, and the states its watcher is told while the constructor
-- waits, are a parameter.
use my_mprpc.Prelude.{Bool, Option, none, some, List, Bytes, codes, if◌then◌else◌, bytes_eq}
use my_mprpc.Prelude.Map.{Map, find}
use my_mprpc.Registry.ZooKeeper.{ZooKeeperRegistry}
use my_mprpc.Registry.ZooKeeper.Watching.{SessionState, make_registry}

abbrev pub default_hosts : Bytes
default_hosts = codes "localhost:2181"

abbrev pub hosts_of : Option Bytes → Bytes
hosts_of none = default_hosts
hosts_of (some hosts) = hosts

module _ (connect : Bytes → Bool × List SessionState) where
  unfoldable pub create_zookeeper_registry : Bytes → ZooKeeperRegistry
  unfolding make_registry
  create_zookeeper_registry hosts =
      let (handle, states) = connect hosts in
      let (initialized, registry) = make_registry handle states in registry

  unfoldable pub create_registry : Bytes → Map Bytes Bytes → Option ZooKeeperRegistry
  unfolding create_zookeeper_registry
  create_registry kind config =
      if bytes_eq.beq kind (codes "zookeeper")
      then some (create_zookeeper_registry (hosts_of (find (codes "hosts") config)))
      else none
