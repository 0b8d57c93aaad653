-- ===== src/Prelude/Map.antt =====
-- std::unordered_map and std::map lookups as association lists: at most one entry for a key, new
-- keys at the end.
use mathlib.Core.Path.{◌≡◌, refl, subst}
use mathlib.Core.Logic.{inl, inr}
use mathlib.Core.Bool.{Bool, true, false}
use mathlib.Core.List.{List, [], ◌∷◌, ◌++◌}
use mathlib.Core.Option.{Option, none, some}
use native.Mathlib.Omega.{arith}
use my_mprpc.Prelude.Tests.{if◌then◌else◌, Bool-cases}
use my_mprpc.Prelude.Equality.{Eq}

abbrev pub Map {ℓ} : Type ℓ → Type ℓ → Type ℓ
Map K V = List (K × V)

abbrev pub first_some {ℓ} : {V : Type ℓ} → Option V → Option V → Option V
first_some (some v) o = some v
first_some none o = o

module _ {ℓ} {K V : Type ℓ} ⦃e : Eq K⦄ where
  abbrev pub find : K → Map K V → Option V
  find k [] = none
  find k ((j, v) ∷ m) = if e.beq j k then some v else find k m

  -- m[k] = v
  abbrev pub put : K → V → Map K V → Map K V
  put k v [] = (k, v) ∷ []
  put k v ((j, w) ∷ m) = if e.beq j k then (j, v) ∷ m else (j, w) ∷ put k v m

  -- m.erase(k)
  abbrev pub erase : K → Map K V → Map K V
  erase k [] = []
  erase k ((j, w) ∷ m) = let rest = erase k m in if e.beq j k then rest else (j, w) ∷ rest

  abbrev pub has : K → Map K V → Bool
  has k m = elim (find k m) [ none ↦ false | some v ↦ true ]

  abbrev pub keys : Map K V → List K
  keys [] = []
  keys ((j, w) ∷ m) = j ∷ keys m

  pub find-put :
      (k j : K) (v : V) (m : Map K V)
      → find j (put k v m) ≡ (if e.beq k j then some v else find j m)
  find-put k j v [] = refl
  find-put k j v ((i, w) ∷ m) =
      ground (arith, e.beq_iff k j, e.beq_iff i k, e.beq_iff i j, find-put k j v m)

  pub find-erase :
      (k j : K) (m : Map K V) → find j (erase k m) ≡ (if e.beq k j then none else find j m)
  find-erase k j [] = ground arith
  find-erase k j ((i, w) ∷ m) =
      ground (arith, e.beq_iff k j, e.beq_iff i k, e.beq_iff i j, find-erase k j m)

  -- A new key goes to the end.
  pub put_new : (k : K) (v : V) (m : Map K V) → find k m ≡ none → put k v m ≡ m ++ (k, v) ∷ []
  put_new k v [] h = refl
  put_new k v ((i, w) ∷ m) h = ground (arith, put_new k v m)

  pub find-append : (k : K) (m n : Map K V) → find k (m ++ n) ≡ first_some (find k m) (find k n)
  find-append k [] n = refl
  find-append k ((j, w) ∷ m) n = ground (arith, find-append k m n)

  pub find_of_not_has : (k : K) (m : Map K V) → has k m ≡ false → find k m ≡ none
  find_of_not_has k m h = ground arith

  -- An entry behind one for the same key is not found.
  pub find_append_taken :
      (k j : K) (v : V) (m : Map K V) → has k m ≡ true → find j (m ++ (k, v) ∷ []) ≡ find j m
  find_append_taken k j v m h = elim (Bool-cases (e.beq k j)) [
    | inl same ↦
        let s : k ≡ j = (e.beq_iff k j).0 same in
        let h' = subst (λ i. has i m ≡ true) s h in
        ground (arith, find-append j m ((k, v) ∷ []), h')
    | inr other ↦ ground (arith, find-append j m ((k, v) ∷ []), other)
  ]
