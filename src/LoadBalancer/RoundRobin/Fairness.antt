-- ===== src/LoadBalancer/RoundRobin/Fairness.antt =====
-- Who is selected, over one call and over a round of calls.
use mathlib.Core.List.{map-append}
use my_mprpc.Prelude.{
  ℕ, zero, suc, ◌+◌, ◌%◌, ◌^◌, ◌≤◌, ◌<◌, ◌≡◌, refl, sym, ap, ◌∙◌, some, List, [], ◌∷◌, ◌++◌, map,
  arith, length, take, drop, get_elem?, get_elem?-total, ◌-◌, take_all, length-drop,
}
use my_mprpc.Prelude.Result.{Result, ok}
use my_mprpc.Registry.Instance.{ServiceInstance}
use my_mprpc.LoadBalancer.Healthy.{
  SelectError, healthy, Selected, Chooses, checked-Selected, checked_some,
}
use my_mprpc.LoadBalancer.RoundRobin.{RoundRobin, element, choose, select, select_many}

element-some :
    (hs : List ServiceInstance) (i : ℕ) (x : ServiceInstance)
    → get_elem? hs i ≡ some x
    → element hs i ≡ ok x
unfolding element
element-some hs i x e = rw (e, element) refl

element-total :
    (hs : List ServiceInstance) (i : ℕ)
    → i < length hs
    → (x : ServiceInstance) × (element hs i ≡ ok x) × (get_elem? hs i ≡ some x)
unfolding element
element-total hs i h = let (x, e) = get_elem?-total hs i h in (x, rw (e, element) refl, e)

choose-Chooses : Chooses choose
unfolding choose
choose-Chooses h hs b =
    let i = b.current_index % length (h ∷ hs) in
    let (x, run, at) = element-total (h ∷ hs) i (omega arith) in (x, run, (i, at))

-- select throws exactly when there is no instance, or none that is healthy; else it returns one of
-- the healthy instances, and never reads outside their vector.
pub select-Selected :
    (instances : List ServiceInstance) (b : RoundRobin) → Selected instances (select instances b).0
unfolding select
select-Selected instances b = checked-Selected choose instances b choose-Chooses

abbrev at_index : ℕ → RoundRobin
at_index c = record { current_index = c }

mod_next : (c n i : ℕ) → c % n ≡ i → i + 1 < n → (c + 1) % n ≡ i + 1
mod_next c n i e h = grind arith

mod_round : (c n i : ℕ) → c % n ≡ i → i < n → (c + (n - i)) % n ≡ 0
mod_round c n i e h = grind arith

drop_element :
    (hs : List ServiceInstance) (i : ℕ) (x : ServiceInstance)
    → get_elem? hs i ≡ some x
    → drop i hs ≡ x ∷ drop (i + 1) hs
drop_element [] i x e = cc
drop_element (h ∷ hs) zero x e = ground arith
drop_element (h ∷ hs) (suc i) x e =
    drop_element hs i x e ∙ (let s : suc i + 1 ≡ suc (i + 1) = omega arith in rw s refl)

module _ (instances : List ServiceInstance) (h : ServiceInstance) (hs : List ServiceInstance)
    (e : healthy instances ≡ h ∷ hs) where
  select_at :
      (c i : ℕ) (x : ServiceInstance)
      → c % length (h ∷ hs) ≡ i
      → get_elem? (h ∷ hs) i ≡ some x
      → c + 1 < 2 ^ 64
      → select instances (at_index c) ≡ (ok x, at_index (c + 1))
  unfolding select choose
  select_at c i x m g small =
      checked_some choose instances h hs (at_index c) e
      ∙ (let w : (c + 1) % 2 ^ 64 ≡ c + 1 = omega arith in
          rw (m, w, element-some (h ∷ hs) i x g) refl)

  select_many_step :
      (k c : ℕ) (x : ServiceInstance) (rs : List (Result SelectError ServiceInstance)) (d : ℕ)
      → select instances (at_index c) ≡ (ok x, at_index (c + 1))
      → select_many k instances (at_index (c + 1)) ≡ (rs, at_index d)
      → select_many (suc k) instances (at_index c) ≡ (ok x ∷ rs, at_index d)
  unfolding select_many
  select_many_step k c x rs d one many = rw (one, select_many) (rw (many, select_many) refl)

  taken_next :
      (k i : ℕ) (x : ServiceInstance)
      → get_elem? (h ∷ hs) i ≡ some x
      → ok x ∷ map {B = Result SelectError ServiceInstance} ok (take k (drop (i + 1) (h ∷ hs)))
        ≡ map {B = Result SelectError ServiceInstance} ok (take (suc k) (drop i (h ∷ hs)))
  taken_next k i x at = rw (drop_element (h ∷ hs) i x at) refl

  -- Calls that do not pass the end of the vector.
  select_run :
      (k c i : ℕ)
      → c % length (h ∷ hs) ≡ i
      → i + k ≤ length (h ∷ hs)
      → c + k < 2 ^ 64
      → select_many k instances (at_index c) ≡ (map ok (take k (drop i (h ∷ hs))), at_index (c + k))
  unfolding select_many
  select_run zero c i m g small = let s : c + 0 ≡ c = omega arith in rw s refl
  select_run (suc zero) c i m g small =
      let (x, at) = get_elem?-total (h ∷ hs) i (omega arith) in
      select_many_step 0 c x [] (c + 1) (select_at c i x m at (omega arith)) refl
      ∙ ap (λ r. (r, at_index (c + 1))) (taken_next 0 i x at)
  select_run (suc (suc k)) c i m g small =
      let (x, at) = get_elem?-total (h ∷ hs) i (omega arith) in
      let next : (c + 1) % length (h ∷ hs) ≡ i + 1 =
        mod_next c (length (h ∷ hs)) i m (omega arith) in
      let all : c + 1 + suc k ≡ c + suc (suc k) = omega arith in
      select_many_step (suc k) c x (map ok (take (suc k) (drop (i + 1) (h ∷ hs)))) (c + suc (suc k))
        (select_at c i x m at (omega arith))
        (select_run (suc k) (c + 1) (i + 1) next (omega arith) (omega arith)
          ∙ ap (λ d. (map ok (take (suc k) (drop (i + 1) (h ∷ hs))), at_index d)) all)
      ∙ ap (λ r. (r, at_index (c + suc (suc k)))) (taken_next (suc k) i x at)

  select_many-add :
      (k l : ℕ) (b b' b'' : RoundRobin) (rs rs' : List (Result SelectError ServiceInstance))
      → select_many k instances b ≡ (rs, b')
      → select_many l instances b' ≡ (rs', b'')
      → select_many (k + l) instances b ≡ (rs ++ rs', b'')
  unfolding select_many
  select_many-add zero l b b' b'' rs rs' p q =
      let s : 0 + l ≡ l = omega arith in
      let start : b ≡ b' = ap (λ r. r.1) p in
      let none_yet : [] ≡ rs = ap (λ r. r.0) p in rw (s, start, ← none_yet) q
  select_many-add (suc k) l b b' b'' rs rs' p q =
      let s : suc k + l ≡ suc (k + l) = omega arith in
      let b1 = (select instances b).1 in
      let many = select_many-add k l b1 b' b'' (select_many k instances b1).0 rs' (cc p) q in
      let front : (select instances b).0 ∷ (select_many k instances b1).0 ≡ rs = ap (λ r. r.0) p in
      rw (s, ← front) (rw (many, select_many) refl)

  -- Round robin: as many calls as there are healthy instances, on the same list, select each of
  -- them once, in the order of the list from the one that is next, and around. The counter does not
  -- wrap.
  pub select_many_round :
      (c : ℕ)
      → c + length (h ∷ hs) < 2 ^ 64
      → let i = c % length (h ∷ hs) in
        select_many (length (h ∷ hs)) instances (record { current_index = c }) ≡ (
          map ok (drop i (h ∷ hs) ++ take i (h ∷ hs)),
          record { current_index = c + length (h ∷ hs) },
        )
  select_many_round c small =
      ap (λ k. select_many k instances (at_index c)) (sym parts)
      ∙ select_many-add (n - i) i (at_index c) (at_index (c + (n - i))) (at_index (c + n))
          (map ok (drop i l)) (map ok (take i l)) front back
      ∙ ap (λ rs. (rs, at_index (c + n))) (sym (map-append ok (drop i l) (take i l)))
    where
      l : List ServiceInstance
      l = h ∷ hs

      n : ℕ
      n = length l

      i : ℕ
      i = c % n

      below : i < n
      below = omega arith

      parts : n - i + i ≡ n
      parts = omega (arith, below)

      sum : c + (n - i) + i ≡ c + n
      sum = omega (arith, below)

      front :
          select_many (n - i) instances (at_index c) ≡ (map ok (drop i l), at_index (c + (n - i)))
      front =
          select_run (n - i) c i refl (omega (arith, below)) (omega (arith, small))
          ∙ ap (λ xs. (map ok xs, at_index (c + (n - i))))
              (take_all (n - i) (drop i l) (omega (arith, length-drop i l)))

      back :
          select_many i instances (at_index (c + (n - i))) ≡ (map ok (take i l), at_index (c + n))
      back =
          select_run i (c + (n - i)) 0 (mod_round c n i refl below) (omega (arith, below))
            (omega (arith, sum, small))
          ∙ ap (λ k. (map ok (take i l), at_index k)) sum
