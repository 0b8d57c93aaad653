-- ===== src/LoadBalancer/Factory.antt =====
-- LoadBalancerFactory of include/load_balancer.h and src/load_balancer/load_balancer_factory.cpp.
-- The registry is guarded by a shared mutex, so each method is a function on it.
pub mod Registered
use my_mprpc.Prelude.{
  ℕ, zero, suc, ◌+◌, ◌*◌, ◌≡◌, refl, Bool, true, false, ◌||◌, ◌&&◌, Option, none, some, List, [],
  ◌∷◌, Bytes, codes, if◌then◌else◌, bytes_eq, ltb, leb, ◌==◌,
}
use my_mprpc.Prelude.Int.{ℤ, pos, negsuc, ltb_ℤ, sub_ℕ}
use my_mprpc.Prelude.Map.{Map, find, put, has, keys}
use my_mprpc.Prelude.Parse.{stoi}
use my_mprpc.LoadBalancer.RoundRobin.{make_round_robin}
use my_mprpc.LoadBalancer.Weighted.{make_weighted}
use my_mprpc.LoadBalancer.LeastConnection.{make_least_connection}
use my_mprpc.LoadBalancer.ConsistentHash.{make_consistent_hash}
use my_mprpc.LoadBalancer.Interface.{
  LoadBalancer, round_robin, weighted_round_robin, least_connection, consistent_hash,
}

abbrev pub Config : Type 0
Config = Map Bytes Bytes

-- What a creator does: it throws, or returns nullptr, an object of a class of this library, or one
-- of a class of its own, which is known by a number.
pub data Creation : Type 0 where
  threw : Bytes → Creation
  null_pointer : Creation
  built : LoadBalancer → Creation
  foreign : ℕ → Creation

abbrev pub LoadBalancerCreator : Type 0
LoadBalancerCreator = Config → Creation

abbrev pub Creators : Type 0
Creators = Map Bytes LoadBalancerCreator

unfoldable pub register_creator : Bytes → LoadBalancerCreator → Creators → Bool × Creators
register_creator name creator creators =
    if has name creators then (false, creators) else (true, put name creator creators)

-- What was found under the name, and what under that of the default.
abbrev pub create_from : Option LoadBalancerCreator → Option LoadBalancerCreator → Config → Creation
create_from (some creator) default_creator config = creator config
create_from none (some default_creator) config = default_creator config
create_from none none config = null_pointer

unfoldable pub create : Bytes → Config → Creators → Creation
create name config creators =
    create_from (find name creators) (find (codes "round_robin") creators) config

pub get_registered_names : Creators → List Bytes
get_registered_names creators = keys creators

pub is_supported : Bytes → Creators → Bool
is_supported name creators = has name creators

pub get_supported_load_balancers : List Bytes
get_supported_load_balancers =
    codes "round_robin"
    ∷ codes "random"
    ∷ codes "weighted_round_robin"
    ∷ codes "weighted_random"
    ∷ codes "least_connection"
    ∷ codes "consistent_hash"
    ∷ []

-- The default is kept when stoi throws.
unfoldable pub configured_nodes : Config → ℤ
configured_nodes config = elim (find (codes "virtual_nodes") config) [
  | none ↦ pos 100
  | some value ↦ elim (stoi value) [ some n ↦ n | none ↦ pos 100 ]
]

pub create_consistent_hash : LoadBalancerCreator
create_consistent_hash config =
    built (consistent_hash (make_consistent_hash (configured_nodes config)))

-- The registrations of initializeBuiltInLoadBalancers, in their order.
unfoldable pub built_in : List (Bytes × LoadBalancerCreator)
built_in =
    (codes "round_robin", λ config. built (round_robin make_round_robin))
    ∷ (codes "RoundRobin", λ config. built (round_robin make_round_robin))
    ∷ (codes "weighted_round_robin", λ config. built (weighted_round_robin make_weighted))
    ∷ (codes "WeightedRoundRobin", λ config. built (weighted_round_robin make_weighted))
    ∷ (codes "least_connection", λ config. built (least_connection make_least_connection))
    ∷ (codes "LeastConnection", λ config. built (least_connection make_least_connection))
    ∷ (codes "consistent_hash", create_consistent_hash)
    ∷ (codes "ConsistentHash", create_consistent_hash)
    ∷ []

-- Registrations one after the other, their results dropped.
unfoldable pub register_all : List (Bytes × LoadBalancerCreator) → Creators → Creators
unfolding register_creator
register_all [] creators = creators
register_all ((name, creator) ∷ more) creators =
    register_all more (register_creator name creator creators).1

-- initializeBuiltInLoadBalancers, which the constructor calls.
unfoldable pub make_factory : Creators
unfolding register_all built_in
make_factory = register_all built_in []
