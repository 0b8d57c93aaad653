-- ===== src/LoadBalancer/LeastConnection/Counts.antt =====
-- updateStats counts the calls that are running on each instance.
use my_mprpc.Prelude.{
  ℕ, zero, suc, ◌+◌, ◌<◌, ◌≡◌, refl, sym, ◌∙◌, Bool, true, false, arith, Bytes, bytes_eq,
  if◌then◌else◌, inl, inr, Bool-cases, List, [], ◌∷◌, length, subst,
}
use my_mprpc.Prelude.Int.{ℤ, pos, ◌+ℤ◌, ◌-ℤ◌, int32}
use my_mprpc.Prelude.Map.{Map, put, find-put}
use my_mprpc.LoadBalancer.LeastConnection.{LeastConnection, count, init_count, update_stats}

count-put :
    (id other : Bytes) (n : ℤ) (counts : Map Bytes ℤ)
    → count other (put id n counts) ≡ (if bytes_eq.beq id other then n else count other counts)
unfolding count
count-put id other n counts = ground (arith, find-put id other n counts)

count-init_count :
    (id other : Bytes) (counts : Map Bytes ℤ)
    → count other (init_count id counts) ≡ count other counts
unfolding init_count count
count-init_count id other counts =
    ground (arith, find-put id other (pos 0) counts, bytes_eq.beq_iff id other)

-- One more call, or one less, but not less than none.
abbrev pub counted : Bool → ℕ → ℕ
counted true n = suc n
counted false zero = zero
counted false (suc n) = n

count-put_same : (id : Bytes) (n : ℤ) (counts : Map Bytes ℤ) → count id (put id n counts) ≡ n
count-put_same id n counts =
    count-put id id n counts ∙ (let same = (bytes_eq.beq_iff id id).1 refl in rw same refl)

count-put_other :
    (id other : Bytes) (n : ℤ) (counts : Map Bytes ℤ)
    → bytes_eq.beq id other ≡ false
    → count other (put id n counts) ≡ count other counts
count-put_other id other n counts h = count-put id other n counts ∙ rw h refl

counted_small : (start : Bool) (n l : ℕ) → n + suc l < 2147483648 → counted start n + l < 2147483648
counted_small true n l h = omega arith
counted_small false zero l h = omega arith
counted_small false (suc n) l h = omega arith

pub update_same :
    (id : Bytes) (start : Bool) (n : ℕ) (b : LeastConnection)
    → n + 1 < 2147483648
    → count id b.connection_counts ≡ pos n
    → count id (update_stats id start b).connection_counts ≡ pos (counted start n)
unfolding update_stats int32 ◌+ℤ◌ ◌-ℤ◌
update_same id true n b small h =
    let e : count id (init_count id b.connection_counts) ≡ pos n =
      count-init_count id id b.connection_counts ∙ h in
    rw e (
      count-put_same id (int32 (pos n +ℤ pos 1)) (init_count id b.connection_counts) ∙ ground arith)
update_same id false zero b small h =
    let e : count id (init_count id b.connection_counts) ≡ pos 0 =
      count-init_count id id b.connection_counts ∙ h in
    rw e e
update_same id false (suc n) b small h =
    let e : count id (init_count id b.connection_counts) ≡ pos (suc n) =
      count-init_count id id b.connection_counts ∙ h in
    ground (
      arith,
      e,
      count-put_same id (int32 (pos (suc n) -ℤ pos 1)) (init_count id b.connection_counts),
    )

update_other :
    (id other : Bytes) (start : Bool) (b : LeastConnection)
    → bytes_eq.beq id other ≡ false
    → count other (update_stats id start b).connection_counts ≡ count other b.connection_counts
unfolding update_stats
update_other id other start b h = ground (
  arith,
  h,
  count-put_other id other (int32 (count id (init_count id b.connection_counts) +ℤ pos 1))
      (init_count id b.connection_counts) h,
  count-put_other id other (int32 (count id (init_count id b.connection_counts) -ℤ pos 1))
      (init_count id b.connection_counts) h,
  count-init_count id other b.connection_counts,
)

-- Several calls of updateStats.
abbrev pub updates : List (Bytes × Bool) → LeastConnection → LeastConnection
updates [] b = b
updates ((id, start) ∷ more) b = updates more (update_stats id start b)

-- The calls on one instance that are running after these starts and ends; an end with none running
-- is not counted.
abbrev pub running : Bytes → ℕ → List (Bytes × Bool) → ℕ
running id n [] = n
running id n ((other, start) ∷ more) =
    if bytes_eq.beq other id then running id (counted start n) more else running id n more

-- The counter of an instance is the number of the calls on it that are running, whatever happens on
-- the others, after as many starts and ends, on all instances, as keep that number at the outset and
-- these together below 2^31.
pub count-updates :
    (id : Bytes) (n : ℕ) (more : List (Bytes × Bool)) (b : LeastConnection)
    → n + length more < 2147483648
    → count id b.connection_counts ≡ pos n
    → count id (updates more b).connection_counts ≡ pos (running id n more)
count-updates id n [] b small h = h
count-updates id n ((other, start) ∷ more) b small h = elim (Bool-cases (bytes_eq.beq other id)) [
  | inl same ↦
      let s : other ≡ id = (bytes_eq.beq_iff other id).0 same in
      rw same (
        count-updates id (counted start n) more (update_stats other start b)
          (counted_small start n (length more) small)
          (subst (λ i. count id (update_stats i start b).connection_counts ≡ pos (counted start n))
            (sym s) (update_same id start n b (omega arith) h)))
  | inr differ ↦ rw differ (
      count-updates id n more (update_stats other start b) (omega arith)
        (update_other other id start b differ ∙ h))
]
