-- ===== src/Tests/LoadBalancer.antt =====
-- src/load_balancer at concrete inputs.
use my_mprpc.Prelude.{
  ◌≡◌, refl, true, false, some, none, [], ◌∷◌, List, Bool, Bytes, codes, arith, All, map,
}
use my_mprpc.Prelude.Result.{ok}
use my_mprpc.Prelude.Int.{pos, ◌≤ℤ◌}
use my_mprpc.Prelude.Decimal.{to_string}
use my_mprpc.Prelude.Parse.{stoi}
use my_mprpc.Registry.Instance.{ServiceInstance, make_instance, get_id}
use my_mprpc.LoadBalancer.Healthy.{healthy, Selected, Among}
use my_mprpc.LoadBalancer.RoundRobin.{make_round_robin, select_many}
use my_mprpc.LoadBalancer.RoundRobin.Fairness.{select_many_round}
use my_mprpc.LoadBalancer.Weighted as W
use my_mprpc.LoadBalancer.LeastConnection as LC
use my_mprpc.LoadBalancer.LeastConnection.Minimum.{select_least, load_of}
use my_mprpc.LoadBalancer.LeastConnection.Counts.{count-updates, updates}
use my_mprpc.LoadBalancer.ConsistentHash as CH
use my_mprpc.LoadBalancer.ConsistentHash.Sticky.{select_by_key_again}
use my_mprpc.LoadBalancer.Interface.{select, select-Selected, round_robin, weighted_round_robin}
use my_mprpc.LoadBalancer.Factory.{
  Creators, create, register_all, make_factory, built_in, built, null_pointer,
}
use my_mprpc.LoadBalancer.Factory.Registered.{create_lem}

abbrev one : ServiceInstance
one = make_instance (codes "s") (codes "a") 1 (pos 5)

abbrev two : ServiceInstance
two = make_instance (codes "s") (codes "b") 2 (pos 1)

abbrev down : ServiceInstance
down = record two { is_healthy = false }

abbrev instances : List ServiceInstance
instances = one ∷ down ∷ two ∷ []

instances-healthy : healthy instances ≡ one ∷ two ∷ []
unfolding healthy make_instance
instances-healthy = refl

select-Selected_example :
    Selected instances (select instances (weighted_round_robin W.make_weighted)).0
select-Selected_example = select-Selected instances (weighted_round_robin W.make_weighted)

select_many_round_example :
    select_many 2 instances (record { current_index = 3 })
    ≡ (map ok (two ∷ one ∷ []), record { current_index = 5 })
select_many_round_example =
    select_many_round instances one (two ∷ []) instances-healthy 3 (omega arith)

busy : LC.LeastConnection
busy = record { connection_counts = (get_id one, pos 2) ∷ [] }

select_least_example :
    let b' = (LC.select instances busy).1 in
    (s : ServiceInstance) × ((LC.select instances busy).0 ≡ ok s)
    × Among s (healthy instances)
    × All
        (λ x. load_of b'.connection_counts s ≤ℤ load_of b'.connection_counts x)
        (healthy instances)
unfolding busy get_id make_instance LC.count LC.init_counts LC.init_count to_string
select_least_example = select_least instances (two ∷ []) one busy instances-healthy (omega arith)

abbrev calls : List (Bytes × Bool)
calls = (get_id one, true) ∷ (get_id two, true) ∷ (get_id one, true) ∷ (get_id one, false) ∷ []

count-updates_example :
    LC.count (get_id one) (updates calls LC.make_least_connection).connection_counts ≡ pos 1
unfolding get_id make_instance LC.count LC.make_least_connection to_string
count-updates_example =
    count-updates (get_id one) 0 calls LC.make_least_connection (omega arith) refl

select_by_key_again_example :
    let (r, b') = CH.select_by_key instances (codes "user") (CH.make_consistent_hash (pos 2)) in
    ((CH.select_by_key instances (codes "user") b').0 ≡ r) × ((CH.select instances b').0 ≡ r)
unfolding CH.make_consistent_hash
select_by_key_again_example =
    select_by_key_again instances (two ∷ []) one (codes "user") (CH.make_consistent_hash (pos 2))
      instances-healthy refl

abbrev mine : Creators
mine = (codes "mine", λ config. null_pointer) ∷ (codes "round_robin", λ config. null_pointer) ∷ []

create_lem_example : create (codes "mine") [] (register_all mine make_factory) ≡ null_pointer
unfolding built_in
create_lem_example = create_lem (codes "mine") [] mine

random_is_round_robin :
    create (codes "random") [] make_factory ≡ built (round_robin make_round_robin)
unfolding make_factory create register_all built_in
random_is_round_robin = refl

stoi_plus : stoi (codes " +42x") ≡ some (pos 42)
unfolding stoi
stoi_plus = refl

stoi_letter : stoi (codes "x42") ≡ none
unfolding stoi
stoi_letter = refl
