-- ===== src/Registry/ZooKeeper.antt =====
-- ZooKeeperRegistry of include/registry.h and src/registry/zookeeper_registry.cpp. The ZooKeeper
-- client is a parameter: the calls of its C interface, over the state of the servers.
pub mod Discovery
pub mod Watching
use my_mprpc.Prelude.{
  ℕ, ◌≡◌, refl, Bool, true, false, ◌&&◌, not, Option, none, some, List, [], ◌∷◌, ◌++◌, Bytes, codes,
  length, take, drop, if◌then◌else◌, bytes_eq, ◌==◌, map,
}
use my_mprpc.Prelude.Map.{Map, find, put, erase, has}
use my_mprpc.Registry.Instance.{ServiceInstance, get_id}
use my_mprpc.Registry.Storage.{serialize_instance, deserialize_instance}

-- What zoo_create answers: ZOK with the path of the new node, ZNODEEXISTS, or another error.
pub data Created : Type 0 where
  created_at : Bytes → Created
  node_exists create_failed : Created

-- What zoo_get answers: an error, the data of the node, or that it has none.
pub data Got : Type 0 where
  get_failed no_data : Got
  has_data : Bytes → Got

pub record ZooKeeper (S : Type 0) : Type 0 where
  -- the path, the data or nothing, and whether ZOO_EPHEMERAL | ZOO_SEQUENCE are set
  pub create : Bytes → Option Bytes → Bool → S → Created × S
  -- the names of the children, if the answer is ZOK
  pub get_children : Bytes → S → Option (List Bytes)
  pub get : Bytes → S → Got
  -- whether the answer is ZOK
  pub delete : Bytes → S → Bool × S
  pub watch_exists : Bytes → S → Bool

pub record ZooKeeperRegistry : Type 0 where
  pub connected : Bool
  pub running : Bool
  pub handle : Bool
  pub service_cache : Map Bytes (Map Bytes ServiceInstance)
  -- the callbacks, by numbers
  pub callbacks : Map Bytes ℕ

-- ROOT_PATH, SERVICE_PATH
abbrev pub root_path : Bytes
root_path = codes "/rpc"

abbrev pub services_path : Bytes
services_path = codes "/rpc/services"

abbrev pub join : Bytes → Bytes → Bytes
join path name = path ++ b'/' ∷ name

abbrev pub service_path_of : Bytes → Bytes
service_path_of service_name = join services_path service_name

-- char buffer[1024], which zoo_get fills and no more
abbrev pub buffer_size : ℕ
buffer_size = 1024

-- What the loops make of a child: an error passes it by, a conversion or the vector may throw.
pub data Fetched : Type 0 where
  skipped threw : Fetched
  fetched : ServiceInstance → Fetched

abbrev pub of_instance : Option ServiceInstance → Fetched
of_instance none = threw
of_instance (some i) = fetched i

-- A node without data gives a length of -1, of which no vector is made.
unfoldable pub fetch_data : Got → Fetched
fetch_data get_failed = skipped
fetch_data no_data = threw
fetch_data (has_data bytes) = of_instance (deserialize_instance (take buffer_size bytes))

unfoldable pub add_fetched : Fetched → Option (List ServiceInstance) → Option (List ServiceInstance)
add_fetched skipped later = later
add_fetched threw later = none
add_fetched (fetched i) none = none
add_fetched (fetched i) (some later) = some (i ∷ later)

unfoldable pub collect : (Bytes → Fetched) → List Bytes → Option (List ServiceInstance)
unfolding add_fetched
collect fetch [] = some []
collect fetch (child ∷ children) = add_fetched (fetch child) (collect fetch children)

abbrev pub accepted : Created → Bool
accepted (created_at path) = true
accepted node_exists = true
accepted create_failed = false

-- The state of the servers after a deletion, or `none` for what is thrown.
pub data Deleted (S : Type 0) : Type 0 where
  deleted : Bool → S → Deleted S
  thrown : Deleted S

abbrev pub path_of : {S : Type 0} → Created × S → Bytes × S
path_of (created_at path, s) = (path, s)
path_of (node_exists, s) = ([], s)
path_of (create_failed, s) = ([], s)

abbrev pub is_empty : Bytes → Bool
is_empty [] = true
is_empty (b ∷ bytes) = false

abbrev pub names_or_none : Option (List Bytes) → List Bytes
names_or_none none = []
names_or_none (some names) = names

module _ {S : Type 0} (zk : ZooKeeper S) where
  unfoldable pub fetch : Bytes → S → Bytes → Fetched
  unfolding fetch_data
  fetch service_path s child = fetch_data (zk.get (join service_path child) s)

  abbrev pub collect_from : Bytes → S → Option (List Bytes) → Option (List ServiceInstance)
  collect_from service_path s none = some []
  collect_from service_path s (some children) = collect (fetch service_path s) children

  unfoldable pub get_service_instances : Bytes → S → Option (List ServiceInstance)
  get_service_instances service_name s =
      let service_path = service_path_of service_name in
      collect_from service_path s (zk.get_children service_path s)

  -- zoo_create without data, unless a call before has failed
  abbrev pub create_plain : Bytes → Bool × S → Bool × S
  create_plain path (false, s) = (false, s)
  create_plain path (true, s) =
      let (answer, s') = zk.create path none false s in (accepted answer, s')

  unfoldable pub create_service_path : Bytes → S → Bool × S
  create_service_path service_name s =
      create_plain (service_path_of service_name)
        (create_plain services_path (create_plain root_path (true, s)))

  unfoldable pub create_service_instance_node : Bytes → ServiceInstance → S → Bytes × S
  create_service_instance_node service_name i s = path_of (
      zk.create (join (service_path_of service_name) (get_id i)) (some (serialize_instance i)) true
        s)

  abbrev pub register_node : ServiceInstance → Bool × S → Bool × S
  register_node i (false, s) = (false, s)
  register_node i (true, s) =
      let (node_path, s') = create_service_instance_node i.service_name i s in
      (not (is_empty node_path), s')

  unfoldable pub register_service : ServiceInstance → ZooKeeperRegistry → S → Bool × S
  unfolding create_service_path create_service_instance_node
  register_service i r s =
      if not r.connected
      then (false, s)
      else if is_empty i.service_name
      then (false, s)
      else register_node i (create_service_path i.service_name s)

  -- What the loop of deleteServiceInstanceNode does at a child; `later` is the rest of the loop.
  abbrev pub delete_fetched : Bytes → Bytes → Bytes → Fetched → S → Deleted S → Deleted S
  delete_fetched service_path instance_id child skipped s later = later
  delete_fetched service_path instance_id child threw s later = thrown
  delete_fetched service_path instance_id child (fetched i) s later =
      if bytes_eq.beq (get_id i) instance_id
      then (let (done, s') = zk.delete (join service_path child) s in deleted done s')
      else later

  unfoldable pub delete_first : Bytes → Bytes → List Bytes → S → Deleted S
  unfolding fetch
  delete_first service_path instance_id [] s = deleted false s
  delete_first service_path instance_id (child ∷ children) s =
      delete_fetched service_path instance_id child (fetch service_path s child) s
        (delete_first service_path instance_id children s)

  abbrev pub delete_among : Bytes → Bytes → Option (List Bytes) → S → Deleted S
  delete_among service_path instance_id none s = deleted false s
  delete_among service_path instance_id (some children) s =
      delete_first service_path instance_id children s

  unfoldable pub delete_service_instance_node : Bytes → Bytes → S → Deleted S
  delete_service_instance_node service_name instance_id s =
      let service_path = service_path_of service_name in
      delete_among service_path instance_id (zk.get_children service_path s) s

  unfoldable pub unregister_service : Bytes → Bytes → ZooKeeperRegistry → S → Deleted S
  unregister_service service_name instance_id r s =
      if r.connected
      then delete_service_instance_node service_name instance_id s
      else deleted false s

  unfoldable pub discover_service : Bytes → ZooKeeperRegistry → S → Option (List ServiceInstance)
  unfolding get_service_instances
  discover_service service_name r s =
      if r.connected then get_service_instances service_name s else some []

  pub get_all_service : ZooKeeperRegistry → S → List Bytes
  get_all_service r s = if r.connected then names_or_none (zk.get_children services_path s) else []
