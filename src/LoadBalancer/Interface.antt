-- ===== src/LoadBalancer/Interface.antt =====
-- The virtual functions of LoadBalancer of include/load_balancer.h, and the classes that implement
-- them.
use my_mprpc.Prelude.{Bool, List, Bytes}
use my_mprpc.Prelude.Result.{Result}
use my_mprpc.Registry.Instance.{ServiceInstance}
use my_mprpc.LoadBalancer.Healthy.{SelectError, Selected}
use my_mprpc.LoadBalancer.RoundRobin as RR
use my_mprpc.LoadBalancer.RoundRobin.Fairness as Fairness
use my_mprpc.LoadBalancer.Weighted as W
use my_mprpc.LoadBalancer.Weighted.Smooth as Smooth
use my_mprpc.LoadBalancer.LeastConnection as LC
use my_mprpc.LoadBalancer.LeastConnection.Minimum as Minimum
use my_mprpc.LoadBalancer.ConsistentHash as CH
use my_mprpc.LoadBalancer.ConsistentHash.Sticky as Sticky

pub data LoadBalancer : Type 0 where
  round_robin : RR.RoundRobin → LoadBalancer
  weighted_round_robin : W.WeightedRoundRobin → LoadBalancer
  least_connection : LC.LeastConnection → LoadBalancer
  consistent_hash : CH.ConsistentHash → LoadBalancer

unfoldable pub select :
    List ServiceInstance → LoadBalancer → Result SelectError ServiceInstance × LoadBalancer
select instances (round_robin b) = let (r, b') = RR.select instances b in (r, round_robin b')
select instances (weighted_round_robin b) =
    let (r, b') = W.select instances b in (r, weighted_round_robin b')
select instances (least_connection b) =
    let (r, b') = LC.select instances b in (r, least_connection b')
select instances (consistent_hash b) =
    let (r, b') = CH.select instances b in (r, consistent_hash b')

-- LoadBalancer::updateStats does nothing, and one class overrides it.
unfoldable pub update_stats : Bytes → Bool → LoadBalancer → LoadBalancer
update_stats id start (least_connection b) = least_connection (LC.update_stats id start b)
update_stats id start (round_robin b) = round_robin b
update_stats id start (weighted_round_robin b) = weighted_round_robin b
update_stats id start (consistent_hash b) = consistent_hash b

unfoldable pub get_name : LoadBalancer → Bytes
get_name (round_robin b) = RR.get_name
get_name (weighted_round_robin b) = W.get_name
get_name (least_connection b) = LC.get_name
get_name (consistent_hash b) = CH.get_name

pub reset : LoadBalancer → LoadBalancer
reset (round_robin b) = round_robin (RR.reset b)
reset (weighted_round_robin b) = weighted_round_robin (W.reset b)
reset (least_connection b) = least_connection (LC.reset b)
reset (consistent_hash b) = consistent_hash (CH.reset b)

-- In each class, select throws exactly when there is no instance, or none that is healthy; else it
-- returns one of the healthy instances.
pub select-Selected :
    (instances : List ServiceInstance) (b : LoadBalancer)
    → Selected instances (select instances b).0
unfolding select
select-Selected instances (round_robin b) = Fairness.select-Selected instances b
select-Selected instances (weighted_round_robin b) = Smooth.select-Selected instances b
select-Selected instances (least_connection b) = Minimum.select-Selected instances b
select-Selected instances (consistent_hash b) =
    (unfold CH.select in Sticky.select_by_key-Selected instances b.last_key b)
