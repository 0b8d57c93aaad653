-- ===== src/Tests/ZooKeeperServer.antt =====
-- A server of ZooKeeper with one service, for which the laws of its calls hold.
use my_mprpc.Prelude.{
  ℕ, zero, suc, ◌+◌, ◌≤◌, ◌<◌, ◌≡◌, ◌≢◌, refl, sym, ap, ◌∙◌, Bool, true, false, Option, none, some,
  List, [], ◌∷◌, ◌++◌, Bytes, codes, length, length-append, replicate, length-replicate, All,
  All-append, subst, if◌then◌else◌, arith, bytes_eq, ◌==◌,
}
use my_mprpc.Prelude.Map.{Map, find, keys}
use my_mprpc.Registry.ZooKeeper.{
  Created, created_at, node_exists, create_failed, Got, get_failed, has_data, ZooKeeper,
  service_path_of, join,
}
use my_mprpc.Registry.ZooKeeper.Discovery.{Reordered, IsName, ZooKeeperLaws}

abbrev split_at : ℕ → Bytes → Option (Bytes × Bytes) → Option (Bytes × Bytes)
split_at c path (some (parent, name)) = some (c ∷ parent, name)
split_at c path none = if c == b'/' then some ([], path) else none

-- The parent and the name of a path.
unfoldable pub split_last : Bytes → Option (Bytes × Bytes)
split_last [] = none
split_last (c ∷ path) = split_at c path (split_last path)

split_last-IsName : (name : Bytes) → IsName name → split_last name ≡ none
unfolding split_last
split_last-IsName [] h = refl
split_last-IsName (c ∷ name) (n, h) =
    let other : (c == b'/') ≡ false = ground arith in rw (split_last-IsName name h, other) refl

split_last-join :
    (parent name : Bytes) → IsName name → split_last (join parent name) ≡ some (parent, name)
unfolding split_last
split_last-join [] name h = rw (split_last-IsName name h) refl
split_last-join (c ∷ parent) name h = rw (split_last-join parent name h) refl

-- The children of the one service, with their data.
abbrev pub Nodes : Type 0
Nodes = Map Bytes Bytes

abbrev pub echo : Bytes
echo = service_path_of (codes "Echo")

abbrev total_length : Nodes → ℕ
total_length [] = 0
total_length ((name, bytes) ∷ nodes) = length name + total_length nodes

-- A name that is longer than all others.
abbrev new_name : Bytes → Nodes → Bytes
new_name base nodes = base ++ replicate (suc (total_length nodes)) b'0'

abbrev make_node : Option (Bytes × Bytes) → Bytes → Nodes → Created × Nodes
make_node none bytes nodes = (create_failed, nodes)
make_node (some (parent, base)) bytes nodes =
    if bytes_eq.beq parent echo
    then (created_at (join parent (new_name base nodes)), (new_name base nodes, bytes) ∷ nodes)
    else (create_failed, nodes)

abbrev got_data : Option Bytes → Got
got_data none = get_failed
got_data (some bytes) = has_data bytes

abbrev get_node : Option (Bytes × Bytes) → Nodes → Got
get_node none nodes = get_failed
get_node (some (parent, name)) nodes =
    if bytes_eq.beq parent echo then got_data (find name nodes) else get_failed

abbrev create_node : Bytes → Option Bytes → Bool → Nodes → Created × Nodes
create_node path none sequence nodes = (node_exists, nodes)
create_node path (some bytes) sequence nodes = make_node (split_last path) bytes nodes

abbrev list_children : Bytes → Nodes → Option (List Bytes)
list_children path nodes = if bytes_eq.beq path echo then some (keys nodes) else some []

unfoldable pub server : ZooKeeper Nodes
server = record {
  create = create_node;
  get_children = list_children;
  get = λ path nodes. get_node (split_last path) nodes;
  delete = λ path nodes. (false, nodes);
  watch_exists = λ path nodes. true;
}

-- The name has at most this length.
abbrev NameWithin : ℕ → Option (Bytes × Bytes) → Type 0
NameWithin n none = Unit
NameWithin n (some (parent, name)) = length name ≤ n

split_at-NameWithin :
    (c : ℕ) (path : Bytes) (o : Option (Bytes × Bytes)) (n : ℕ) (b : Bool)
    → (c == b'/') ≡ b
    → length path ≤ n
    → NameWithin n o
    → NameWithin n (split_at c path o)
split_at-NameWithin c path (some (parent, name)) n b e h g = g
split_at-NameWithin c path none n true e h g = rw e h
split_at-NameWithin c path none n false e h g = rw e tt

split_last-NameWithin : (path : Bytes) (n : ℕ) → length path ≤ n → NameWithin n (split_last path)
unfolding split_last
split_last-NameWithin [] n h = tt
split_last-NameWithin (c ∷ path) n h =
    split_at-NameWithin c path (split_last path) n (c == b'/') refl (omega arith)
      (split_last-NameWithin path n (omega arith))

abbrev SplitWithin : ℕ → Option (Bytes × Bytes) → Type 0
SplitWithin n o = (parent : Bytes) × (name : Bytes) × (o ≡ some (parent, name)) × (length name ≤ n)

slash-SplitWithin :
    (child : Bytes) (o : Option (Bytes × Bytes))
    → NameWithin (length child) o
    → SplitWithin (length child) (split_at b'/' child o)
slash-SplitWithin child none h = ([], child, refl, omega arith)
slash-SplitWithin child (some (parent, name)) h = (b'/' ∷ parent, name, refl, h)

join-SplitWithin :
    (parent child : Bytes) → SplitWithin (length child) (split_last (join parent child))
unfolding split_last
join-SplitWithin [] child =
    slash-SplitWithin child (split_last child)
      (split_last-NameWithin child (length child) (omega arith))
join-SplitWithin (c ∷ parent) child =
    let (p, name, e, h) = join-SplitWithin parent child in (c ∷ p, name, rw e refl, h)

longer-bytes_beq : (xs ys : Bytes) → length ys < length xs → bytes_eq.beq xs ys ≡ false
longer-bytes_beq [] ys h = absurd (omega arith)
longer-bytes_beq (x ∷ xs) [] h = refl
longer-bytes_beq (x ∷ xs) (y ∷ ys) h = ground (arith, longer-bytes_beq xs ys)

find_other :
    (x new bytes : Bytes) (nodes : Nodes)
    → length x < length new
    → find x ((new, bytes) ∷ nodes) ≡ find x nodes
find_other x new bytes nodes h =
    let other : bytes_eq.beq new x ≡ false = longer-bytes_beq new x h in rw other refl

get_other :
    (parent child new bytes : Bytes) (nodes : Nodes)
    → length child < length new
    → get_node (split_last (join parent child)) ((new, bytes) ∷ nodes)
      ≡ get_node (split_last (join parent child)) nodes
get_other parent child new bytes nodes h =
    let (p, name, e, short) = join-SplitWithin parent child in
    rw (e, find_other name new bytes nodes (omega (arith, short))) refl

others_kept :
    (parent new bytes : Bytes) (nodes more : Nodes)
    → total_length more < length new
    → All
        (λ child.
          get_node (split_last (join parent child)) ((new, bytes) ∷ nodes)
          ≡ get_node (split_last (join parent child)) nodes)
        (keys more)
others_kept parent new bytes nodes [] h = tt
others_kept parent new bytes nodes ((name, data') ∷ more) h = (
  get_other parent name new bytes nodes (omega arith),
  others_kept parent new bytes nodes more (omega arith),
)

in_place : (xs : List Bytes) → Reordered xs xs
in_place [] = Reordered.nothing
in_place (x ∷ xs) = Reordered.keep x (in_place xs)

abbrev Sequenced : Bytes → Bytes → Bytes → List Bytes → Nodes → Nodes → Type 0
Sequenced parent bytes p names s s' =
    (name : Bytes) × (names' : List Bytes) × (list_children parent s' ≡ some names')
    × Reordered (name ∷ names) names'
    × (get_node (split_last (join parent name)) s' ≡ has_data bytes)
    × All
        (λ child.
          get_node (split_last (join parent child)) s'
          ≡ get_node (split_last (join parent child)) s)
        names

zeros-IsName : (n : ℕ) → IsName (replicate n b'0')
zeros-IsName zero = tt
zeros-IsName (suc n) = (λ e. omega (arith, e), zeros-IsName n)

new_name-IsName : (base : Bytes) (s : Nodes) → IsName base → IsName (new_name base s)
new_name-IsName base s h =
    All-append (λ c. c ≢ b'/') base (replicate (suc (total_length s)) b'0') h
      (zeros-IsName (suc (total_length s)))

found_first :
    (parent name bytes : Bytes) (s : Nodes)
    → bytes_eq.beq parent echo ≡ true
    → IsName name
    → get_node (split_last (join parent name)) ((name, bytes) ∷ s) ≡ has_data bytes
found_first parent name bytes s e h =
    let same : bytes_eq.beq name name ≡ true = (bytes_eq.beq_iff name name).1 refl in
    rw (split_last-join parent name h, e, same) refl

front-Sequenced :
    (parent base bytes p : Bytes) (names : List Bytes) (s : Nodes)
    → bytes_eq.beq parent echo ≡ true
    → IsName base
    → list_children parent s ≡ some names
    → Sequenced parent bytes p names s ((new_name base s, bytes) ∷ s)
front-Sequenced parent base bytes p names s e n listed =
    let new = new_name base s in
    let all : list_children parent s ≡ some (keys s) = rw e refl in
    let same : keys s ≡ names = cc (all, listed) in
    let long : total_length s < length new = omega (
      arith,
      length-append base (replicate (suc (total_length s)) b'0'),
      length-replicate {A = ℕ} (suc (total_length s)) b'0',
    ) in
    (
      new,
      new ∷ keys s,
      rw e refl,
      subst (λ ns. Reordered (new ∷ ns) (new ∷ keys s)) same (in_place (new ∷ keys s)),
      found_first parent new bytes s e (new_name-IsName base s n),
      subst
          (All (λ child.
            get_node (split_last (join parent child)) ((new, bytes) ∷ s)
            ≡ get_node (split_last (join parent child)) s))
          same (others_kept parent new bytes s s long),
    )

made-Sequenced :
    (parent base bytes p : Bytes) (names : List Bytes) (s s' : Nodes) (b : Bool)
    → bytes_eq.beq parent echo ≡ b
    → IsName base
    → list_children parent s ≡ some names
    → (make_node (some (parent, base)) bytes s).0 ≡ created_at p
    → (make_node (some (parent, base)) bytes s).1 ≡ s'
    → Sequenced parent bytes p names s s'
made-Sequenced parent base bytes p names s s' true e n listed made after =
    let at : (make_node (some (parent, base)) bytes s).1 ≡ (new_name base s, bytes) ∷ s =
      rw e refl in
    subst (Sequenced parent bytes p names s) (sym at ∙ after)
      (front-Sequenced parent base bytes p names s e n listed)
made-Sequenced parent base bytes p names s s' false e n listed made after =
    let no : (make_node (some (parent, base)) bytes s).0 ≡ create_failed = rw e refl in
    absurd (cc (no, made))

pub laws : ZooKeeperLaws server
unfolding server
laws = record {
  existing = λ path names s h. refl;
  sequence = λ parent base bytes p names s s' n listed made after.
      let split = split_last-join parent base n in
      made-Sequenced parent base bytes p names s s' (bytes_eq.beq parent echo) refl n listed
        (ap (λ k. (make_node k bytes s).0) (sym split) ∙ made)
        (ap (λ k. (make_node k bytes s).1) (sym split) ∙ after);
}
