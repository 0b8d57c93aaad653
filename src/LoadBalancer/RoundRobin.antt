-- ===== src/LoadBalancer/RoundRobin.antt =====
-- RoundRobinLoadBalancer of include/load_balancer.h and
-- src/load_balancer/round_robin_load_balancer.cpp.
pub mod Fairness
use my_mprpc.Prelude.{
  ℕ, zero, suc, ◌+◌, ◌%◌, ◌^◌, ◌≡◌, refl, Option, none, some, List, [], ◌∷◌, Bytes, codes, length,
  get_elem?,
}
use my_mprpc.Prelude.Result.{Result, ok, err}
use my_mprpc.Registry.Instance.{ServiceInstance}
use my_mprpc.LoadBalancer.Healthy.{SelectError, out_of_range, healthy, checked}

-- The atomic uint64_t.
pub record RoundRobin : Type 0 where
  pub current_index : ℕ

pub make_round_robin : RoundRobin
make_round_robin = record { current_index = 0 }

element : List ServiceInstance → ℕ → Result SelectError ServiceInstance
element instances i = elim (get_elem? instances i) [ some s ↦ ok s | none ↦ err out_of_range ]

-- fetch_add returns the old value.
choose :
    ServiceInstance
    → List ServiceInstance
    → RoundRobin
    → Result SelectError ServiceInstance × RoundRobin
unfolding element
choose h hs b =
    let index = b.current_index % length (h ∷ hs) in
    (element (h ∷ hs) index, record { current_index = (b.current_index + 1) % 2 ^ 64 })

pub select : List ServiceInstance → RoundRobin → Result SelectError ServiceInstance × RoundRobin
unfolding choose checked
select instances b = checked choose instances (healthy instances) b

pub reset : RoundRobin → RoundRobin
reset b = record { current_index = 0 }

abbrev pub get_name : Bytes
get_name = codes "RoundRobin"

-- Several calls of select on the same instances.
pub select_many :
    ℕ → List ServiceInstance → RoundRobin → List (Result SelectError ServiceInstance) × RoundRobin
select_many zero instances b = ([], b)
select_many (suc n) instances b =
    let (r, b') = select instances b in let (rs, b'') = select_many n instances b' in (r ∷ rs, b'')
