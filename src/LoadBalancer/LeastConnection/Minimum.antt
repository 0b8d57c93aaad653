-- ===== src/LoadBalancer/LeastConnection/Minimum.antt =====
-- select returns an instance with the fewest connections.
use my_mprpc.Prelude.{
  suc, ◌≡◌, refl, sym, ap, subst, ◌⊎◌, inl, inr, true, false, some, List, [], ◌∷◌, arith, Bytes,
  All, Bool-cases,
}
use my_mprpc.Prelude.Result.{ok}
use my_mprpc.Prelude.Int.{ℤ, ◌≤ℤ◌, ltb_ℤ, eq_of_parts}
use my_mprpc.Prelude.Map.{Map}
use my_mprpc.Registry.Instance.{ServiceInstance, get_id}
use my_mprpc.LoadBalancer.Healthy.{
  healthy, checked_some, Selected, Chooses, Among, checked-Selected,
}
use my_mprpc.LoadBalancer.LeastConnection.{
  LeastConnection, int_max, count, init_counts, least, choose, select,
}

-- The counter of an instance.
abbrev pub load_of : Map Bytes ℤ → ServiceInstance → ℤ
load_of counts s = count (get_id s) counts

≤ℤ_refl : (a : ℤ) → a ≤ℤ a
≤ℤ_refl a = omega arith

≤ℤ_trans : (a b c : ℤ) → a ≤ℤ b → b ≤ℤ c → a ≤ℤ c
≤ℤ_trans a b c h k = omega arith

ltb_ℤ→≤ℤ : (a b : ℤ) → ltb_ℤ a b ≡ true → a ≤ℤ b
ltb_ℤ→≤ℤ a b h = ground arith

not_ltb_ℤ→≤ℤ : (a b : ℤ) → ltb_ℤ a b ≡ false → b ≤ℤ a
not_ltb_ℤ→≤ℤ a b h = ground arith

-- The result has no more connections than the instance selected before, or than any in the list,
-- and is one of these.
record Least (counts : Map Bytes ℤ) (instances : List ServiceInstance)
    (selected result : ServiceInstance) : Type 0 where
  first : load_of counts result ≤ℤ load_of counts selected
  below : All (λ s. load_of counts result ≤ℤ load_of counts s) instances
  from : (result ≡ selected) ⊎ Among result instances

pick_later :
    {counts : Map Bytes ℤ} {instances : List ServiceInstance} {s selected result : ServiceInstance}
    → load_of counts s ≤ℤ load_of counts selected
    → Least counts instances s result
    → Least counts (s ∷ instances) selected result
pick_later {counts} {instances} {s} {selected} {result} h l = record {
  first = ≤ℤ_trans (load_of counts result) (load_of counts s) (load_of counts selected) l.first h;
  below = (l.first, l.below);
  from = elim l.from [ inl e ↦ inr (0, ap some (sym e)) | inr (i, e) ↦ inr (suc i, e) ];
}

keep_earlier :
    {counts : Map Bytes ℤ} {instances : List ServiceInstance} {s selected result : ServiceInstance}
    → load_of counts selected ≤ℤ load_of counts s
    → Least counts instances selected result
    → Least counts (s ∷ instances) selected result
keep_earlier {counts} {instances} {s} {selected} {result} h l = record {
  first = l.first;
  below = (
    ≤ℤ_trans (load_of counts result) (load_of counts selected) (load_of counts s) l.first h,
    l.below,
  );
  from = elim l.from [ inl e ↦ inl e | inr (i, e) ↦ inr (suc i, e) ];
}

least-Least :
    (counts : Map Bytes ℤ) (instances : List ServiceInstance) (selected : ServiceInstance)
    → Least counts instances selected (least counts instances (load_of counts selected) selected)
unfolding least
least-Least counts [] selected = record {
  first = ≤ℤ_refl (load_of counts selected);
  below = tt;
  from = inl refl;
}
least-Least counts (s ∷ instances) selected =
    elim (Bool-cases (ltb_ℤ (load_of counts s) (load_of counts selected))) [
      | inl fewer ↦ rw fewer (
          pick_later (ltb_ℤ→≤ℤ (load_of counts s) (load_of counts selected) fewer)
            (least-Least counts instances s))
      | inr not_fewer ↦ rw not_fewer (
          keep_earlier (not_ltb_ℤ→≤ℤ (load_of counts s) (load_of counts selected) not_fewer)
            (least-Least counts instances selected))
    ]

eq_of_le : (a b : ℤ) → a ≤ℤ b → b ≤ℤ a → a ≡ b
eq_of_le a b h k = omega (arith, eq_of_parts a b)

-- The loop's first round makes the minimum the load of the first instance.
first_round :
    (counts : Map Bytes ℤ) (h : ServiceInstance) (hs : List ServiceInstance)
    → load_of counts h ≤ℤ int_max
    → least counts (h ∷ hs) int_max h ≡ least counts hs (load_of counts h) h
unfolding least
first_round counts h hs small = elim (Bool-cases (ltb_ℤ (load_of counts h) int_max)) [
  | inl fewer ↦ rw fewer refl
  | inr most ↦ rw most (
      ap (λ m. least counts hs m h)
        (eq_of_le int_max (load_of counts h) (not_ltb_ℤ→≤ℤ (load_of counts h) int_max most) small))
]

later-Among :
    {s selected result : ServiceInstance} (instances : List ServiceInstance)
    → (result ≡ selected) ⊎ Among result instances
    → (result ≡ selected) ⊎ Among result (s ∷ instances)
later-Among instances (inl e) = inl e
later-Among instances (inr (i, e)) = inr (suc i, e)

-- The loop keeps the instance that it was given or takes one of the list.
least-Among :
    (counts : Map Bytes ℤ) (instances : List ServiceInstance) (m : ℤ) (selected : ServiceInstance)
    → (least counts instances m selected ≡ selected)
      ⊎ Among (least counts instances m selected) instances
unfolding least
least-Among counts [] m selected = inl refl
least-Among counts (s ∷ instances) m selected = elim (Bool-cases (ltb_ℤ (load_of counts s) m)) [
  | inl fewer ↦ rw fewer (elim (least-Among counts instances (load_of counts s) s) [
    | inl e ↦ inr (0, ap some (sym e))
    | inr (i, e) ↦ inr (suc i, e)
  ])
  | inr not_fewer ↦ rw not_fewer (later-Among instances (least-Among counts instances m selected))
]

choose-Chooses : Chooses choose
unfolding choose
choose-Chooses h hs b =
    let counts = init_counts (h ∷ hs) b.connection_counts in
    (
      least counts (h ∷ hs) int_max h,
      refl,
      elim (least-Among counts (h ∷ hs) int_max h) [ inl e ↦ (0, ap some (sym e)) | inr a ↦ a ],
    )

-- select throws exactly when there is no instance, or none that is healthy; else it returns one of
-- the healthy instances.
pub select-Selected :
    (instances : List ServiceInstance) (b : LeastConnection)
    → Selected instances (select instances b).0
unfolding select
select-Selected instances b = checked-Selected choose instances b choose-Chooses

chosen_least :
    (counts : Map Bytes ℤ) (h : ServiceInstance) (hs : List ServiceInstance)
    → load_of counts h ≤ℤ int_max
    → All (λ x. load_of counts (least counts (h ∷ hs) int_max h) ≤ℤ load_of counts x) (h ∷ hs)
chosen_least counts h hs small =
    let l = least-Least counts hs h in
    subst (λ r. All (λ x. load_of counts r ≤ℤ load_of counts x) (h ∷ hs))
      (sym (first_round counts h hs small)) (l.first, l.below)

-- With counters of at most INT_MAX, select returns a healthy instance, and none of the healthy
-- instances has fewer connections by the counters that select leaves.
pub select_least :
    (instances hs : List ServiceInstance) (h : ServiceInstance) (b : LeastConnection)
    → healthy instances ≡ h ∷ hs
    → load_of (init_counts (h ∷ hs) b.connection_counts) h ≤ℤ int_max
    → let b' = (select instances b).1 in
      (s : ServiceInstance) × ((select instances b).0 ≡ ok s)
      × Among s (healthy instances)
      × All
          (λ x. load_of b'.connection_counts s ≤ℤ load_of b'.connection_counts x)
          (healthy instances)
unfolding select choose least choose-Chooses
select_least instances hs h b e small =
    rw (checked_some choose instances h hs b e, e)
      (
        least (init_counts (h ∷ hs) b.connection_counts) (h ∷ hs) int_max h,
        refl,
        (choose-Chooses h hs b).2,
        chosen_least (init_counts (h ∷ hs) b.connection_counts) h hs small,
      )
