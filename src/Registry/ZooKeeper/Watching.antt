-- ===== src/Registry/ZooKeeper/Watching.antt =====
-- The watchers and the subscriptions of src/registry/zookeeper_registry.cpp.
use my_mprpc.Prelude.{
  ℕ, Bool, true, false, Option, none, some, List, [], ◌∷◌, Bytes, length, drop, if◌then◌else◌,
  bytes_eq, ltb,
}
use my_mprpc.Prelude.Map.{Map, find, put, erase, has}
use my_mprpc.Registry.Instance.{ServiceInstance, get_id}
use my_mprpc.Registry.ZooKeeper.{
  ZooKeeper, ZooKeeperRegistry, service_path_of, is_empty, get_service_instances,
}

-- ZOO_CONNECTED_STATE, ZOO_EXPIRED_SESSION_STATE, ZOO_AUTH_FAILED_STATE, another state
pub data SessionState : Type 0 where
  connected expired_session auth_failed other_state : SessionState

unfoldable pub connection_watcher : SessionState → ZooKeeperRegistry → ZooKeeperRegistry
connection_watcher connected r = record r { connected = true }
connection_watcher expired_session r = record r { connected = false }
connection_watcher auth_failed r = record r { connected = false }
connection_watcher other_state r = r

-- The constructor behind initializeZooKeeper: whether zookeeper_init gives a handle, and the
-- states that connectionWatcher is called with before waitForConnection ends.
pub watch_session : List SessionState → ZooKeeperRegistry → ZooKeeperRegistry
watch_session [] r = r
watch_session (state ∷ states) r = watch_session states (connection_watcher state r)

unfoldable pub make_registry : Bool → List SessionState → Bool × ZooKeeperRegistry
unfolding watch_session
make_registry handle states =
    let r : ZooKeeperRegistry = record {
      connected = false;
      running = handle;
      handle = handle;
      service_cache = [];
      callbacks = [];
    } in
    if handle then (let r' = watch_session states r in (r'.connected, r')) else (false, r)

pub close_zookeeper : ZooKeeperRegistry → ZooKeeperRegistry
close_zookeeper r = record r { connected = false; running = false; handle = false }

pub send_heartbeat : Bytes → Bytes → ZooKeeperRegistry → Bool
send_heartbeat service_name instance_id r = r.connected

pub unsubscribe_service : Bytes → ZooKeeperRegistry → Bool × ZooKeeperRegistry
unsubscribe_service service_name r =
    if has service_name r.callbacks
    then (true, record r { callbacks = erase service_name r.callbacks })
    else (false, r)

-- service_cache_[service_name] with the instances by their ids.
unfoldable pub cached : List ServiceInstance → Map Bytes ServiceInstance → Map Bytes ServiceInstance
cached [] entries = entries
cached (i ∷ instances) entries = cached instances (put (get_id i) i entries)

-- A call of a callback.
pub record Notified : Type 0 where
  pub callback : ℕ
  pub service_name : Bytes
  pub instances : List ServiceInstance

-- The kinds of events of a watch; ZOO_CHILD_EVENT is `child_event`.
pub data WatchEvent : Type 0 where
  created_event deleted_event changed_event child_event session_event not_watching : WatchEvent

abbrev pub with_instances :
    {A : Type 0} → Option (List ServiceInstance) → (List ServiceInstance → A) → Option A
with_instances none f = none
with_instances (some instances) f = some (f instances)

-- SERVICE_PATH.length() + 1
abbrev pub name_index : ℕ
name_index = 14

module _ {S : Type 0} (zk : ZooKeeper S) where
  -- `none` stands for an empty callback. The callback stays when the watch cannot be set.
  pub subscribe_service : Bytes → Option ℕ → ZooKeeperRegistry → S → Bool × ZooKeeperRegistry
  subscribe_service service_name none r s = (false, r)
  subscribe_service service_name (some callback) r s =
      if is_empty service_name then (false, r) else (
        zk.watch_exists (service_path_of service_name) s,
        record r { callbacks = put service_name callback r.callbacks },
      )

  unfoldable pub update_service_cache : Bytes → ZooKeeperRegistry → S → Option ZooKeeperRegistry
  unfolding cached
  update_service_cache service_name r s =
      with_instances (get_service_instances zk service_name s) λ instances. record r {
        service_cache = put service_name (cached instances []) r.service_cache;
      }

  abbrev pub notify_with : Bytes → S → Option ℕ → Option (List Notified)
  notify_with service_name s none = some []
  notify_with service_name s (some callback) =
      with_instances (get_service_instances zk service_name s) λ instances.
        record { callback = callback; service_name = service_name; instances = instances } ∷ []

  unfoldable pub notify_service_change : Bytes → ZooKeeperRegistry → S → Option (List Notified)
  notify_service_change service_name r s =
      notify_with service_name s (find service_name r.callbacks)

  abbrev pub both_done :
      Option ZooKeeperRegistry → Option (List Notified) → Option (ZooKeeperRegistry × List Notified)
  both_done none n = none
  both_done (some r) none = none
  both_done (some r) (some n) = some (r, n)

  -- substr throws when the path is shorter than its first argument. The cache is filled from what
  -- the servers have at the first reading, the callback gets what they have at the second.
  unfoldable pub service_watcher :
      WatchEvent → Bytes → ZooKeeperRegistry → S → S → Option (ZooKeeperRegistry × List Notified)
  unfolding update_service_cache notify_service_change
  service_watcher child_event path r s s' =
      if ltb (length path) name_index
      then none
      else let service_name = drop name_index path in
        both_done (update_service_cache service_name r s) (notify_service_change service_name r s')
  service_watcher created_event path r s s' = some (r, [])
  service_watcher deleted_event path r s s' = some (r, [])
  service_watcher changed_event path r s s' = some (r, [])
  service_watcher session_event path r s s' = some (r, [])
  service_watcher not_watching path r s s' = some (r, [])
