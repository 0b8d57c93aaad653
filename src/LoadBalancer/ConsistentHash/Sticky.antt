-- ===== src/LoadBalancer/ConsistentHash/Sticky.antt =====
-- Whom the consistent hash selects, and that a key keeps its instance.
use my_mprpc.Prelude.{ℕ, ◌≡◌, refl, sym, ap, ◌∙◌, subst, Option, none, some, List, [], ◌∷◌, Bytes}
use my_mprpc.Prelude.Int.{ℤ}
use my_mprpc.Prelude.Result.{Result, ok}
use my_mprpc.Registry.Instance.{ServiceInstance}
use my_mprpc.LoadBalancer.Healthy.{
  SelectError, healthy, Selected, Chooses, Among, checked-Selected, checked_some, with_id,
  with_id-Among,
}
use my_mprpc.LoadBalancer.ConsistentHash.{
  Ring, ConsistentHash, hash, add_instances, lower_bound, or_begin, actual_key, answer, search_ring,
  with_ring, rebuild_hash_ring, choose_by_key, select_by_key, select,
}

-- The id that the search on a ring ends at.
abbrev selected_id : Bytes → Bytes → Ring → Bytes
selected_id key first ring = or_begin first (lower_bound (hash (actual_key key)) ring)

answer-Chooses :
    (h : ServiceInstance) (hs : List ServiceInstance) (b : ConsistentHash) (id : Bytes)
    (found : Option ServiceInstance)
    → with_id id (h ∷ hs) ≡ found
    → (x : ServiceInstance) × ((answer h hs found b).0 ≡ ok x) × Among x (h ∷ hs)
unfolding answer
answer-Chooses h hs b id none e = (h, refl, (0, refl))
answer-Chooses h hs b id (some s) e = (s, refl, with_id-Among id (h ∷ hs) s e)

search_ring-Chooses :
    (key : Bytes) (h : ServiceInstance) (hs : List ServiceInstance) (b : ConsistentHash)
    (ring : Ring)
    → (x : ServiceInstance) × ((search_ring key h hs b ring).0 ≡ ok x) × Among x (h ∷ hs)
unfolding search_ring
search_ring-Chooses key h hs b [] = (h, refl, (0, refl))
search_ring-Chooses key h hs b ((j, first) ∷ ring) =
    let id = selected_id key first ((j, first) ∷ ring) in
    answer-Chooses h hs (record b { last_key = actual_key key }) id (with_id id (h ∷ hs)) refl

choose_by_key-Chooses : (key : Bytes) → Chooses (choose_by_key key)
unfolding choose_by_key
choose_by_key-Chooses key h hs b =
    let b' = with_ring h hs b b.hash_ring in search_ring-Chooses key h hs b' b'.hash_ring

-- selectByKey throws exactly when there is no instance, or none that is healthy; else it returns
-- one of the healthy instances, whatever the ring holds.
pub select_by_key-Selected :
    (instances : List ServiceInstance) (key : Bytes) (b : ConsistentHash)
    → Selected instances (select_by_key instances key b).0
unfolding select_by_key
select_by_key-Selected instances key b =
    checked-Selected (choose_by_key key) instances b (choose_by_key-Chooses key)

actual_key_idem : (key : Bytes) → actual_key (actual_key key) ≡ actual_key key
actual_key_idem [] = refl
actual_key_idem (c ∷ key) = refl

abbrev state : ℤ → Ring → Bytes → ConsistentHash
state n ring last = record { virtual_nodes = n; hash_ring = ring; last_key = last }

-- The same answer, to the key and to the key that select remembers.
abbrev Again :
    Bytes
    → ServiceInstance
    → List ServiceInstance
    → Result SelectError ServiceInstance × ConsistentHash
    → Type 0
Again key h hs (r, b) =
    ((choose_by_key key h hs b).0 ≡ r) × ((choose_by_key b.last_key h hs b).0 ≡ r)

-- selectByKey on a ring that has been built.
on_ring :
    (key last : Bytes) (h : ServiceInstance) (hs : List ServiceInstance) (n : ℤ) (j : ℕ)
    (first : Bytes) (ring : Ring) (found : Option ServiceInstance)
    → with_id (selected_id key first ((j, first) ∷ ring)) (h ∷ hs) ≡ found
    → (choose_by_key key h hs (state n ((j, first) ∷ ring) last)).0
      ≡ (answer h hs found (state n ((j, first) ∷ ring) (actual_key key))).0
unfolding choose_by_key with_ring search_ring
on_ring key last h hs n j first ring found f =
    ap (λ x. (answer h hs x (state n ((j, first) ∷ ring) (actual_key key))).0) f

-- ... and then with the key that is remembered.
on_ring_again :
    (key : Bytes) (h : ServiceInstance) (hs : List ServiceInstance) (n : ℤ) (j : ℕ) (first : Bytes)
    (ring : Ring) (found : Option ServiceInstance)
    → with_id (selected_id key first ((j, first) ∷ ring)) (h ∷ hs) ≡ found
    → (choose_by_key (actual_key key) h hs (state n ((j, first) ∷ ring) (actual_key key))).0
      ≡ (answer h hs found (state n ((j, first) ∷ ring) (actual_key (actual_key key)))).0
on_ring_again key h hs n j first ring found f =
    on_ring (actual_key key) (actual_key key) h hs n j first ring found (
      ap (λ k. with_id (or_begin first (lower_bound (hash k) ((j, first) ∷ ring))) (h ∷ hs))
        (actual_key_idem key)
      ∙ f)

answer-Again :
    (key : Bytes) (h : ServiceInstance) (hs : List ServiceInstance) (n : ℤ) (j : ℕ) (first : Bytes)
    (ring : Ring) (found : Option ServiceInstance)
    → add_instances n (h ∷ hs) [] ≡ (j, first) ∷ ring
    → with_id (selected_id key first ((j, first) ∷ ring)) (h ∷ hs) ≡ found
    → Again key h hs (answer h hs found (state n ((j, first) ∷ ring) (actual_key key)))
unfolding answer rebuild_hash_ring
answer-Again key h hs n j first ring none e f =
    subst (λ r. Again key h hs (ok h, state n r (actual_key key))) (sym e)
      (
        on_ring key (actual_key key) h hs n j first ring none f,
        on_ring_again key h hs n j first ring none f,
      )
answer-Again key h hs n j first ring (some s) e f = (
  on_ring key (actual_key key) h hs n j first ring (some s) f,
  on_ring_again key h hs n j first ring (some s) f,
)

search_ring-Again :
    (key last : Bytes) (h : ServiceInstance) (hs : List ServiceInstance) (n : ℤ) (ring : Ring)
    → add_instances n (h ∷ hs) [] ≡ ring
    → Again key h hs (search_ring key h hs (state n ring last) ring)
unfolding search_ring choose_by_key with_ring rebuild_hash_ring
search_ring-Again key last h hs n [] e = rw e (refl, refl)
search_ring-Again key last h hs n ((j, first) ∷ ring) e =
    answer-Again key h hs n j first ring
      (with_id (selected_id key first ((j, first) ∷ ring)) (h ∷ hs)) e refl

choose_by_key-Again :
    (key last : Bytes) (h : ServiceInstance) (hs : List ServiceInstance) (n : ℤ)
    → Again key h hs (choose_by_key key h hs (state n [] last))
unfolding choose_by_key with_ring rebuild_hash_ring
choose_by_key-Again key last h hs n =
    search_ring-Again key last h hs n (add_instances n (h ∷ hs) []) refl

-- After a selectByKey that has built the ring, selectByKey with the same key and select return the
-- same instance as long as the instances are the same.
pub select_by_key_again :
    (instances hs : List ServiceInstance) (h : ServiceInstance) (key : Bytes) (b : ConsistentHash)
    → healthy instances ≡ h ∷ hs
    → b.hash_ring ≡ []
    → let (r, b') = select_by_key instances key b in
      ((select_by_key instances key b').0 ≡ r) × ((select instances b').0 ≡ r)
unfolding select_by_key select
select_by_key_again instances hs h key b e fresh =
    let start : state b.virtual_nodes [] b.last_key ≡ b =
      ap (λ r. state b.virtual_nodes r b.last_key) (sym fresh) in
    let again =
      subst (λ c. Again key h hs (choose_by_key key h hs c)) start
        (choose_by_key-Again key b.last_key h hs b.virtual_nodes) in
    let c = (choose_by_key key h hs b).1 in
    rw (checked_some (choose_by_key key) instances h hs b e) (
      ap (λ p. p.0) (checked_some (choose_by_key key) instances h hs c e) ∙ again.0,
      ap (λ p. p.0) (checked_some (choose_by_key c.last_key) instances h hs c e) ∙ again.1,
    )
