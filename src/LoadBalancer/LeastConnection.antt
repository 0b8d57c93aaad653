-- ===== src/LoadBalancer/LeastConnection.antt =====
-- LeastConnectionLoadBalancer of include/load_balancer.h and
-- src/load_balancer/least_connection_load_balancer.cpp.
pub mod Minimum
pub mod Counts
use my_mprpc.Prelude.{
  ℕ, ◌≡◌, refl, Bool, true, false, Option, none, some, List, [], ◌∷◌, Bytes, codes, if◌then◌else◌,
  bytes_eq,
}
use my_mprpc.Prelude.Result.{Result, ok, err}
use my_mprpc.Prelude.Int.{ℤ, pos, negsuc, ◌+ℤ◌, ◌-ℤ◌, ltb_ℤ, int32}
use my_mprpc.Prelude.Map.{Map, find, put, has}
use my_mprpc.Registry.Instance.{ServiceInstance, get_id}
use my_mprpc.LoadBalancer.Healthy.{SelectError, healthy, checked}

-- std::numeric_limits<int>::max()
abbrev pub int_max : ℤ
int_max = pos 2147483647

-- std::atomic<int> for each instance.
pub record LeastConnection : Type 0 where
  pub connection_counts : Map Bytes ℤ

unfoldable pub make_least_connection : LeastConnection
make_least_connection = record { connection_counts = [] }

-- connection_counts_[id].load(); operator[] makes a missing counter 0.
unfoldable pub count : Bytes → Map Bytes ℤ → ℤ
count id counts = elim (find id counts) [ some n ↦ n | none ↦ pos 0 ]

-- store(0) if the counter is missing.
unfoldable pub init_count : Bytes → Map Bytes ℤ → Map Bytes ℤ
init_count id counts = if has id counts then counts else put id (pos 0) counts

unfoldable pub init_counts : List ServiceInstance → Map Bytes ℤ → Map Bytes ℤ
unfolding init_count
init_counts [] counts = counts
init_counts (s ∷ instances) counts = init_counts instances (init_count (get_id s) counts)

-- The loop over the healthy instances with its minimum and the instance selected so far.
unfoldable pub least : Map Bytes ℤ → List ServiceInstance → ℤ → ServiceInstance → ServiceInstance
least counts [] min_connections selected = selected
least counts (s ∷ instances) min_connections selected =
    let connections = count (get_id s) counts in
    if ltb_ℤ connections min_connections
    then least counts instances connections s
    else least counts instances min_connections selected

unfoldable pub choose :
    ServiceInstance
    → List ServiceInstance
    → LeastConnection
    → Result SelectError ServiceInstance × LeastConnection
choose h hs b =
    let counts = init_counts (h ∷ hs) b.connection_counts in
    (ok (least counts (h ∷ hs) int_max h), record { connection_counts = counts })

unfoldable pub select :
    List ServiceInstance → LeastConnection → Result SelectError ServiceInstance × LeastConnection
select instances b = checked choose instances (healthy instances) b

pub update_stats : Bytes → Bool → LeastConnection → LeastConnection
update_stats instance_id connection_start b =
    let counts = init_count instance_id b.connection_counts in
    let current = count instance_id counts in
    record {
      connection_counts =
          if connection_start
          then put instance_id (int32 (current +ℤ pos 1)) counts
          else if ltb_ℤ (pos 0) current
          then put instance_id (int32 (current -ℤ pos 1)) counts
          else counts;
    }

pub reset : LeastConnection → LeastConnection
reset b = record { connection_counts = [] }

abbrev pub get_name : Bytes
get_name = codes "LeastConnection"
