-- ===== src/Registry/ZooKeeper/Discovery.antt =====
-- What discoverService finds after registerService.
use my_mprpc.Prelude.{
  ◌≡◌, ◌≢◌, ◌≤◌, ◌<◌, ◌^◌, refl, sym, ap, ◌∙◌, Bool, true, false, not, Option, none, some, List, [],
  ◌∷◌, Bytes, length, take_all, All, arith, subst,
}
use my_mprpc.Prelude.Int.{InInt32}
use my_mprpc.Registry.Instance.{ServiceInstance, get_id}
use my_mprpc.Registry.Storage.{serialize_instance}
use my_mprpc.Registry.Storage.Lines.{IsLine, IsMetadata, deserialize_instance-serialize_instance}
use my_mprpc.Registry.ZooKeeper.{
  Created, created_at, node_exists, create_failed, has_data, ZooKeeper, ZooKeeperRegistry,
  root_path, services_path, service_path_of, join, buffer_size, Fetched, skipped, threw, fetched,
  fetch_data, add_fetched, collect, fetch, collect_from, get_service_instances, create_plain,
  create_service_path, create_service_instance_node, path_of, is_empty, register_node,
  register_service, discover_service,
}

-- The same elements in another order.
pub data Reordered {A : Type 0} : List A → List A → Type 0 where
  nothing : Reordered [] []
  keep : {xs ys : List A} (x : A) → Reordered xs ys → Reordered (x ∷ xs) (x ∷ ys)
  transpose : (x y : A) (xs : List A) → Reordered (x ∷ y ∷ xs) (y ∷ x ∷ xs)
  both : {xs ys zs : List A} → Reordered xs ys → Reordered ys zs → Reordered xs zs

unchanged : {A : Type 0} (xs : List A) → Reordered xs xs
unchanged [] = nothing
unchanged (x ∷ xs) = keep x (unchanged xs)

-- A name of one level.
abbrev pub IsName : Bytes → Type 0
IsName name = All (λ c. c ≢ b'/') name

-- What ZooKeeper documents of these calls.
pub record ZooKeeperLaws {S : Type 0} (zk : ZooKeeper S) : Type 0 where
  -- a node that exists is not created again
  pub existing :
      (path : Bytes) (names : List Bytes) (s : S)
      → zk.get_children path s ≡ some names
      → (zk.create path none false s).1 ≡ s
  -- a sequence node gets a new name, which joins the children in no particular order; its data is
  -- what was given, and that of the others stays
  pub sequence :
      (parent base bytes p : Bytes) (names : List Bytes) (s s' : S)
      → IsName base
      → zk.get_children parent s ≡ some names
      → (zk.create (join parent base) (some bytes) true s).0 ≡ created_at p
      → (zk.create (join parent base) (some bytes) true s).1 ≡ s'
      → (name : Bytes) × (names' : List Bytes) × (zk.get_children parent s' ≡ some names')
        × Reordered (name ∷ names) names'
        × (zk.get (join parent name) s' ≡ has_data bytes)
        × All (λ child. zk.get (join parent child) s' ≡ zk.get (join parent child) s) names

-- The instances of the children in another order are the same in another order.
abbrev pub Found : Option (List ServiceInstance) → Option (List ServiceInstance) → Type 0
Found (some xs) (some ys) = Reordered xs ys
Found (some xs) none = ⊥
Found none (some ys) = ⊥
Found none none = Unit

add_fetched-Found :
    (x : Fetched) (r r' : Option (List ServiceInstance))
    → Found r r'
    → Found (add_fetched x r) (add_fetched x r')
unfolding add_fetched
add_fetched-Found skipped r r' h = h
add_fetched-Found threw r r' h = tt
add_fetched-Found (fetched i) none none h = tt
add_fetched-Found (fetched i) (some xs) (some ys) h = keep i h
add_fetched-Found (fetched i) (some xs) none h = absurd h
add_fetched-Found (fetched i) none (some ys) h = absurd h

same-Found : (r : Option (List ServiceInstance)) → Found r r
same-Found none = tt
same-Found (some xs) = unchanged xs

add_fetched-transpose :
    (x y : Fetched) (r : Option (List ServiceInstance))
    → Found (add_fetched x (add_fetched y r)) (add_fetched y (add_fetched x r))
unfolding add_fetched
add_fetched-transpose skipped y r = same-Found (add_fetched y r)
add_fetched-transpose threw skipped r = tt
add_fetched-transpose threw threw r = tt
add_fetched-transpose threw (fetched j) r = tt
add_fetched-transpose (fetched i) skipped r = same-Found (add_fetched (fetched i) r)
add_fetched-transpose (fetched i) threw r = tt
add_fetched-transpose (fetched i) (fetched j) none = tt
add_fetched-transpose (fetched i) (fetched j) (some xs) = transpose i j xs

both-Found : (r r' r'' : Option (List ServiceInstance)) → Found r r' → Found r' r'' → Found r r''
both-Found none none none h g = tt
both-Found (some xs) (some ys) (some zs) h g = both h g
both-Found none none (some zs) h g = absurd g
both-Found none (some ys) r'' h g = absurd h
both-Found (some xs) none r'' h g = absurd h
both-Found (some xs) (some ys) none h g = absurd g

collect-Found :
    (read : Bytes → Fetched) {names names' : List Bytes}
    → Reordered names names'
    → Found (collect read names) (collect read names')
unfolding collect
collect-Found read nothing = nothing
collect-Found read (keep {xs = xs} {ys = ys} name p) =
    add_fetched-Found (read name) (collect read xs) (collect read ys) (collect-Found read p)
collect-Found read (transpose x y names) =
    add_fetched-transpose (read x) (read y) (collect read names)
collect-Found read (both {xs = xs} {ys = ys} {zs = zs} p q) =
    both-Found (collect read xs) (collect read ys) (collect read zs) (collect-Found read p)
      (collect-Found read q)

collect_same :
    (read read' : Bytes → Fetched) (names : List Bytes)
    → All (λ name. read' name ≡ read name) names
    → collect read' names ≡ collect read names
unfolding collect
collect_same read read' [] h = refl
collect_same read read' (name ∷ names) (e, h) = rw (e, collect_same read read' names h) refl

-- An instance that is read back, whose address is one name, and whose text fits the buffer of
-- zoo_get.
pub record IsStorable (i : ServiceInstance) : Type 0 where
  pub name_line : IsLine i.service_name
  pub host_line : IsLine i.host
  pub port_bound : i.port < 65536
  pub weight_bound : InInt32 i.weight
  pub heartbeat_bound : i.last_heartbeat < 2 ^ 64
  pub entries : IsMetadata [] i.metadata
  pub one_level : IsName (get_id i)
  pub short : length (serialize_instance i) ≤ buffer_size

fetch_data-serialize_instance :
    (i : ServiceInstance) → IsStorable i → fetch_data (has_data (serialize_instance i)) ≡ fetched i
unfolding fetch_data
fetch_data-serialize_instance i h =
    rw
      (
        take_all buffer_size (serialize_instance i) h.short,
        deserialize_instance-serialize_instance i h.name_line h.host_line h.port_bound
            h.weight_bound h.heartbeat_bound h.entries,
      )
      refl

-- The node that a successful registerService has made.
node_of :
    {S : Type 0} (s' : S) (answer : Created × S)
    → not (is_empty (path_of answer).0) ≡ true
    → (path_of answer).1 ≡ s'
    → (p : Bytes) × (answer.0 ≡ created_at p) × (answer.1 ≡ s')
node_of s' (created_at p, t) e f = (p, refl, f)
node_of s' (node_exists, t) e f = ground arith
node_of s' (create_failed, t) e f = ground arith

module _ {S : Type 0} {zk : ZooKeeper S} (laws : ZooKeeperLaws zk) where
  create_plain_existing :
      (path : Bytes) (names : List Bytes) (s : S) (p : Bool × S)
      → zk.get_children path s ≡ some names
      → p.1 ≡ s
      → (create_plain zk path p).1 ≡ s
  create_plain_existing path names s (true, t) h e =
      ap (λ u. (zk.create path none false u).1) e ∙ laws.existing path names s h
  create_plain_existing path names s (false, t) h e = e

  -- The nodes of the paths are there.
  pub record IsPrepared (service_name : Bytes) (s : S) (names : List Bytes) : Type 0 where
    pub root : (ns : List Bytes) × (zk.get_children root_path s ≡ some ns)
    pub services : (ns : List Bytes) × (zk.get_children services_path s ≡ some ns)
    pub service : zk.get_children (service_path_of service_name) s ≡ some names

  create_service_path_existing :
      (service_name : Bytes) (s : S) (names : List Bytes)
      → IsPrepared service_name s names
      → (create_service_path zk service_name s).1 ≡ s
  unfolding create_service_path
  create_service_path_existing service_name s names h =
      let first = create_plain zk root_path (true, s) in
      let second = create_plain zk services_path first in
      create_plain_existing (service_path_of service_name) names s second h.service (
        create_plain_existing services_path h.services.0 s first h.services.1
          (create_plain_existing root_path h.root.0 s (true, s) h.root.1 refl))

  registered_node :
      (i : ServiceInstance) (s s' : S) (p : Bool × S)
      → p.1 ≡ s
      → (register_node zk i p).0 ≡ true
      → (register_node zk i p).1 ≡ s'
      → let answer =
          zk.create
            (join (service_path_of i.service_name) (get_id i))
            (some (serialize_instance i))
            true
            s in
        (path : Bytes) × (answer.0 ≡ created_at path) × (answer.1 ≡ s')
  unfolding create_service_instance_node
  registered_node i s s' (true, t) e h g =
      let parent = service_path_of i.service_name in
      let answer = zk.create (join parent (get_id i)) (some (serialize_instance i)) true t in
      subst
        (λ u.
          let answer = zk.create (join parent (get_id i)) (some (serialize_instance i)) true u in
          (path : Bytes) × (answer.0 ≡ created_at path) × (answer.1 ≡ s'))
        e (node_of s' answer h g)
  registered_node i s s' (false, t) e h g = ground arith

  fetch_same :
      (parent : Bytes) (s s' : S) (names : List Bytes)
      → All (λ child. zk.get (join parent child) s' ≡ zk.get (join parent child) s) names
      → All (λ child. fetch zk parent s' child ≡ fetch zk parent s child) names
  unfolding fetch
  fetch_same parent s s' [] h = tt
  fetch_same parent s s' (name ∷ names) (e, h) = (ap fetch_data e, fetch_same parent s s' names h)

  lists_both :
      (i : ServiceInstance) (s s' : S) (names : List Bytes) (before : List ServiceInstance)
      (path : Bytes)
      → IsStorable i
      → zk.get_children (service_path_of i.service_name) s ≡ some names
      → collect (fetch zk (service_path_of i.service_name) s) names ≡ some before
      → (zk.create
          (join (service_path_of i.service_name) (get_id i))
          (some (serialize_instance i))
          true
          s).0
        ≡ created_at path
      → (zk.create
          (join (service_path_of i.service_name) (get_id i))
          (some (serialize_instance i))
          true
          s).1
        ≡ s'
      → Found (some (i ∷ before)) (get_service_instances zk i.service_name s')
  lists_both i s s' names before path h listed read made after =
      let parent = service_path_of i.service_name in
      let (name, names', listed', order, data', others) =
        laws.sequence parent (get_id i) (serialize_instance i) path names s s' h.one_level listed
          made after in
      let new : fetch zk parent s' name ≡ fetched i =
        unfold fetch in ap fetch_data data' ∙ fetch_data-serialize_instance i h in
      let old : collect (fetch zk parent s') names ≡ some before =
        collect_same (fetch zk parent s) (fetch zk parent s') names
          (fetch_same parent s s' names others)
        ∙ read in
      let all : collect (fetch zk parent s') (name ∷ names) ≡ some (i ∷ before) =
        unfold collect add_fetched in rw (new, old) refl in
      subst (λ r. Found r (get_service_instances zk i.service_name s')) all
        (unfold get_service_instances in
          subst
            (λ r. Found (collect (fetch zk parent s') (name ∷ names)) (collect_from zk parent s' r))
            (sym listed') (collect-Found (fetch zk parent s') order))

  discover_connected :
      (name : Bytes) (r : ZooKeeperRegistry) (s : S)
      → r.connected ≡ true
      → discover_service zk name r s ≡ get_service_instances zk name s
  unfolding discover_service
  discover_connected name r s c = simp c

  register_connected :
      (i : ServiceInstance) (r : ZooKeeperRegistry) (s : S)
      → r.connected ≡ true
      → (register_service zk i r s).0 ≡ true
      → register_service zk i r s ≡ register_node zk i (create_service_path zk i.service_name s)
  unfolding register_service
  register_connected i r s c done = by_flag (is_empty i.service_name) refl
    where
      by_flag :
          (b : Bool)
          → is_empty i.service_name ≡ b
          → register_service zk i r s ≡ register_node zk i (create_service_path zk i.service_name s)
      by_flag true e =
          let refused : (register_service zk i r s).0 ≡ false = simp (c, e) in
          absurd (ground (arith, refused, done))
      by_flag false e = simp (c, e)

  -- An instance whose text can be read back and has at most 1024 bytes, of a service whose nodes are
  -- there: when registerService returns true, discoverService then finds this instance and those
  -- that it found before, and no others.
  pub register_service-Found :
      (i : ServiceInstance) (r : ZooKeeperRegistry) (s : S) (names : List Bytes)
      (before : List ServiceInstance)
      → IsStorable i
      → r.connected ≡ true
      → IsPrepared i.service_name s names
      → discover_service zk i.service_name r s ≡ some before
      → (register_service zk i r s).0 ≡ true
      → Found
          (some (i ∷ before))
          (discover_service zk i.service_name r (register_service zk i r s).1)
  register_service-Found i r s names before h c p d done =
      let run = register_connected i r s c done in
      let same = create_service_path_existing i.service_name s names p in
      let (path, made, after) =
        registered_node i s (register_service zk i r s).1 (create_service_path zk i.service_name s)
          same (sym (ap (λ k. k.0) run) ∙ done) (sym (ap (λ k. k.1) run)) in
      let read : collect (fetch zk (service_path_of i.service_name) s) names ≡ some before =
        ap (collect_from zk (service_path_of i.service_name) s) (sym p.service)
        ∙ unfold get_service_instances in (sym (discover_connected i.service_name r s c) ∙ d) in
      subst (Found (some (i ∷ before)))
        (sym (discover_connected i.service_name r (register_service zk i r s).1 c))
        (lists_both i s (register_service zk i r s).1 names before path h p.service read made after)
