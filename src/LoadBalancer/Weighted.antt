-- ===== src/LoadBalancer/Weighted.antt =====
-- WeightedRoundRobinLoadBalancer of include/load_balancer.h and
-- src/load_balancer/weighted_round_robin_load_balancer.cpp. An `int` wraps around.
pub mod Smooth
use my_mprpc.Prelude.{
  ℕ, ◌≡◌, refl, Bool, true, false, Option, none, some, List, [], ◌∷◌, Bytes, codes, if◌then◌else◌,
  bytes_eq,
}
use my_mprpc.Prelude.Result.{Result, ok, err}
use my_mprpc.Prelude.Int.{ℤ, pos, negsuc, ◌+ℤ◌, ◌-ℤ◌, ltb_ℤ, int32}
use my_mprpc.Prelude.Map.{Map, find, put, has}
use my_mprpc.Registry.Instance.{ServiceInstance, get_id}
use my_mprpc.LoadBalancer.Healthy.{SelectError, healthy, checked, with_id_or}

pub record WeightedRoundRobin : Type 0 where
  pub current_index : ℕ
  pub current_weights : Map Bytes ℤ

pub make_weighted : WeightedRoundRobin
make_weighted = record { current_index = 0; current_weights = [] }

-- current_weights_[id]; operator[] makes a missing weight 0.
unfoldable pub current_weight : Bytes → Map Bytes ℤ → ℤ
current_weight id weights = elim (find id weights) [ some w ↦ w | none ↦ pos 0 ]

unfoldable pub init_weights : List ServiceInstance → Map Bytes ℤ → Map Bytes ℤ
init_weights [] weights = weights
init_weights (s ∷ instances) weights =
    init_weights instances
      (if has (get_id s) weights then weights else put (get_id s) (pos 0) weights)

-- The variables of the loop that selects; `selected_id` is empty at first.
pub record Round : Type 0 where
  pub total_weight : ℤ
  pub max_weight : ℤ
  pub selected_id : Bytes
  pub weights : Map Bytes ℤ

unfoldable pub effective_weight : ServiceInstance → ℤ
effective_weight s = if ltb_ℤ (pos 0) s.weight then s.weight else pos 1

unfoldable pub visit : ServiceInstance → Round → Round
unfolding current_weight effective_weight
visit s r =
    let id = get_id s in
    let current = int32 (current_weight id r.weights +ℤ effective_weight s) in
    let greater = ltb_ℤ r.max_weight current in
    record {
      total_weight = int32 (r.total_weight +ℤ s.weight);
      max_weight = if greater then current else r.max_weight;
      selected_id = if greater then id else r.selected_id;
      weights = put id current r.weights;
    }

unfoldable pub visit_all : List ServiceInstance → Round → Round
unfolding visit
visit_all [] r = r
visit_all (s ∷ instances) r = visit_all instances (visit s r)

unfoldable pub start_round : Map Bytes ℤ → Round
start_round weights = record {
  total_weight = pos 0;
  max_weight = pos 0;
  selected_id = [];
  weights = weights;
}

-- The selected instance pays the total weight.
unfoldable pub pay : Round → Map Bytes ℤ
unfolding current_weight
pay r =
    if bytes_eq.beq r.selected_id []
    then r.weights
    else put r.selected_id (int32 (current_weight r.selected_id r.weights -ℤ r.total_weight))
        r.weights

unfoldable pub choose :
    ServiceInstance
    → List ServiceInstance
    → WeightedRoundRobin
    → Result SelectError ServiceInstance × WeightedRoundRobin
unfolding init_weights visit_all start_round pay with_id_or
choose h hs b =
    let r = visit_all (h ∷ hs) (start_round (init_weights (h ∷ hs) b.current_weights)) in
    (ok (with_id_or h r.selected_id (h ∷ hs)), record b { current_weights = pay r })

unfoldable pub select :
    List ServiceInstance
    → WeightedRoundRobin
    → Result SelectError ServiceInstance × WeightedRoundRobin
unfolding choose
select instances b = checked choose instances (healthy instances) b

pub reset : WeightedRoundRobin → WeightedRoundRobin
reset b = record { current_index = 0; current_weights = [] }

abbrev pub get_name : Bytes
get_name = codes "WeightedRoundRobin"
