-- ===== src/LoadBalancer/ConsistentHash.antt =====
-- ConsistentHashLoadBalancer of include/load_balancer.h and
-- src/load_balancer/consistent_hash_load_balancer.cpp.
pub mod Sticky
use Prim.Native.Nat.{bit_xor}
use my_mprpc.Prelude.{
  ℕ, zero, suc, ◌+◌, ◌*◌, ◌%◌, ◌^◌, ◌≡◌, refl, Bool, true, false, Option, none, some, List, [], ◌∷◌,
  ◌++◌, Bytes, codes, if◌then◌else◌, bytes_eq, ltb, leb, ◌==◌,
}
use my_mprpc.Prelude.Result.{Result, ok, err}
use my_mprpc.Prelude.Int.{ℤ, pos, negsuc}
use my_mprpc.Prelude.Map.{Map}
use my_mprpc.Prelude.Decimal.{to_string}
use my_mprpc.Registry.Instance.{ServiceInstance, get_id}
use my_mprpc.LoadBalancer.Healthy.{SelectError, healthy, checked, with_id_or, with_id}

-- std::map<uint32_t, std::string>: the entries in the order of their keys.
abbrev pub Ring : Type 0
Ring = Map ℕ Bytes

pub record ConsistentHash : Type 0 where
  -- int
  pub virtual_nodes : ℤ
  pub hash_ring : Ring
  pub last_key : Bytes

unfoldable pub make_consistent_hash : ℤ → ConsistentHash
make_consistent_hash virtual_nodes = record {
  virtual_nodes = virtual_nodes;
  hash_ring = [];
  last_key = [];
}

-- static_cast<uint32_t>(c) of a signed char.
unfoldable pub char_to_uint32 : ℕ → ℕ
char_to_uint32 c = if ltb c 128 then c else 4294967040 + c

unfoldable pub hash_from : ℕ → Bytes → ℕ
unfolding char_to_uint32
hash_from hash [] = hash
hash_from hash (c ∷ key) = hash_from (bit_xor hash (char_to_uint32 c) * 16777619 % 2 ^ 32) key

unfoldable pub hash : Bytes → ℕ
unfolding hash_from
hash key = hash_from 2166136261 key

-- hash_ring_[key] = id
unfoldable pub put_ring : ℕ → Bytes → Ring → Ring
put_ring k id [] = (k, id) ∷ []
put_ring k id ((j, other) ∷ ring) =
    if ltb k j
    then (k, id) ∷ (j, other) ∷ ring
    else if k == j
    then (k, id) ∷ ring
    else (j, other) ∷ put_ring k id ring

-- The virtual nodes from `i` on, `n` of them.
unfoldable pub add_nodes : Bytes → ℕ → ℕ → Ring → Ring
unfolding hash put_ring
add_nodes id i zero ring = ring
add_nodes id i (suc n) ring =
    add_nodes id (suc i) n (put_ring (hash (id ++ b'#' ∷ to_string i)) id ring)

-- `for (int i = 0; i < virtual_nodes_; ++i)`
abbrev pub rounds : ℤ → ℕ
rounds (pos n) = n
rounds (negsuc n) = 0

unfoldable pub add_instances : ℤ → List ServiceInstance → Ring → Ring
unfolding add_nodes
add_instances nodes [] ring = ring
add_instances nodes (s ∷ instances) ring =
    add_instances nodes instances
      (if s.is_healthy then add_nodes (get_id s) 0 (rounds nodes) ring else ring)

unfoldable pub rebuild_hash_ring : List ServiceInstance → ConsistentHash → ConsistentHash
unfolding add_instances
rebuild_hash_ring instances b = record b { hash_ring = add_instances b.virtual_nodes instances [] }

-- The id at the first key that is not below; at the end of the ring there is none.
unfoldable pub lower_bound : ℕ → Ring → Option Bytes
lower_bound k [] = none
lower_bound k ((j, id) ∷ ring) = let rest = lower_bound k ring in if leb k j then some id else rest

abbrev pub or_begin : Bytes → Option Bytes → Bytes
or_begin first (some id) = id
or_begin first none = first

abbrev pub actual_key : Bytes → Bytes
actual_key [] = codes "default"
actual_key (c ∷ key) = c ∷ key

-- selectByKey from the search on the ring on, by whether an instance has the id that was found.
unfoldable pub answer :
    ServiceInstance
    → List ServiceInstance
    → Option ServiceInstance
    → ConsistentHash
    → Result SelectError ServiceInstance × ConsistentHash
unfolding rebuild_hash_ring
answer h hs (some s) b = (ok s, b)
answer h hs none b = (ok h, rebuild_hash_ring (h ∷ hs) b)

unfoldable pub search_ring :
    Bytes
    → ServiceInstance
    → List ServiceInstance
    → ConsistentHash
    → Ring
    → Result SelectError ServiceInstance × ConsistentHash
unfolding answer lower_bound hash with_id
search_ring key h hs b [] = (ok h, b)
search_ring key h hs b ((j, first) ∷ ring) =
    let selected_id = or_begin first (lower_bound (hash (actual_key key)) ((j, first) ∷ ring)) in
    answer h hs (with_id selected_id (h ∷ hs)) (record b { last_key = actual_key key })

unfoldable pub with_ring :
    ServiceInstance → List ServiceInstance → ConsistentHash → Ring → ConsistentHash
unfolding rebuild_hash_ring
with_ring h hs b [] = rebuild_hash_ring (h ∷ hs) b
with_ring h hs b (node ∷ ring) = b

unfoldable pub choose_by_key :
    Bytes
    → ServiceInstance
    → List ServiceInstance
    → ConsistentHash
    → Result SelectError ServiceInstance × ConsistentHash
unfolding search_ring with_ring
choose_by_key key h hs b =
    let b' = with_ring h hs b b.hash_ring in search_ring key h hs b' b'.hash_ring

unfoldable pub select_by_key :
    List ServiceInstance
    → Bytes
    → ConsistentHash
    → Result SelectError ServiceInstance × ConsistentHash
unfolding choose_by_key
select_by_key instances key b = checked (choose_by_key key) instances (healthy instances) b

unfoldable pub select :
    List ServiceInstance → ConsistentHash → Result SelectError ServiceInstance × ConsistentHash
unfolding select_by_key
select instances b = select_by_key instances b.last_key b

unfoldable pub reset : ConsistentHash → ConsistentHash
reset b = record b { hash_ring = []; last_key = [] }

abbrev pub get_name : Bytes
get_name = codes "ConsistentHash"

-- FNV-1a of "a".
hash_a : hash (codes "a") ≡ 3826002220
unfolding hash hash_from char_to_uint32
hash_a = refl
