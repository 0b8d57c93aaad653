-- ===== src/LoadBalancer/Healthy.antt =====
-- What the select methods share: the errors they throw and the healthy instances.
use mathlib.Core.List.{cons-ne-nil}
use my_mprpc.Prelude.{
  ℕ, ◌≡◌, ◌≢◌, refl, sym, ◌∙◌, suc, Bool-cases, ap, inl, inr, true, false, List, [], ◌∷◌, Option,
  none, some, if◌then◌else◌, get_elem?, Bytes, bytes_eq,
}
use my_mprpc.Prelude.Result.{Result, ok, err}
use my_mprpc.Registry.Instance.{ServiceInstance, get_id}

pub data SelectError : Type 0 where
  -- "No available service instances" and "No healthy service instances"
  no_available no_healthy : SelectError
  -- an index past the end of the vector of healthy instances
  out_of_range : SelectError

unfoldable pub healthy : List ServiceInstance → List ServiceInstance
healthy [] = []
healthy (s ∷ instances) = let rest = healthy instances in if s.is_healthy then s ∷ rest else rest

-- The two checks that each select begins with, and then its choice among the healthy instances.
unfoldable pub checked {ℓ} :
    {S : Type ℓ}
    → (ServiceInstance → List ServiceInstance → S → Result SelectError ServiceInstance × S)
    → List ServiceInstance
    → List ServiceInstance
    → S
    → Result SelectError ServiceInstance × S
checked choose [] available s = (err no_available, s)
checked choose (x ∷ instances) [] s = (err no_healthy, s)
checked choose (x ∷ instances) (h ∷ available) s = choose h available s

abbrev pub Among {ℓ} : {A : Type ℓ} → A → List A → Type ℓ
Among a xs = (i : ℕ) × (get_elem? xs i ≡ some a)

-- What a result of select says: an error exactly names why there is no choice, and a choice is one
-- of the healthy instances.
abbrev pub Selected : List ServiceInstance → Result SelectError ServiceInstance → Type 0
Selected instances (ok s) = Among s (healthy instances)
Selected instances (err no_available) = instances ≡ []
Selected instances (err no_healthy) = (healthy instances ≡ []) × (instances ≢ [])
Selected instances (err out_of_range) = ⊥

-- A choice that picks one of the healthy instances.
abbrev pub Chooses {ℓ} :
    {S : Type ℓ}
    → (ServiceInstance → List ServiceInstance → S → Result SelectError ServiceInstance × S)
    → Type ℓ
Chooses {S = S} choose =
    (h : ServiceInstance) (hs : List ServiceInstance) (s : S)
    → (x : ServiceInstance) × ((choose h hs s).0 ≡ ok x) × Among x (h ∷ hs)

checked-Selected_cases {ℓ} :
    {S : Type ℓ}
    (choose : ServiceInstance → List ServiceInstance → S → Result SelectError ServiceInstance × S)
    (instances available : List ServiceInstance) (s : S)
    → Chooses choose
    → healthy instances ≡ available
    → Selected instances (checked choose instances available s).0
unfolding checked
checked-Selected_cases choose [] available s c e = refl
checked-Selected_cases choose (x ∷ instances) [] s c e = (e, cons-ne-nil x instances)
checked-Selected_cases choose (x ∷ instances) (h ∷ available) s c e =
    let (y, run, among) = c h available s in rw run (rw e among)

pub checked-Selected {ℓ} :
    {S : Type ℓ}
    (choose : ServiceInstance → List ServiceInstance → S → Result SelectError ServiceInstance × S)
    (instances : List ServiceInstance) (s : S)
    → Chooses choose
    → Selected instances (checked choose instances (healthy instances) s).0
checked-Selected choose instances s c =
    checked-Selected_cases choose instances (healthy instances) s c refl

pub checked_some {ℓ} :
    {S : Type ℓ}
    (choose : ServiceInstance → List ServiceInstance → S → Result SelectError ServiceInstance × S)
    (instances : List ServiceInstance) (h : ServiceInstance) (hs : List ServiceInstance) (s : S)
    → healthy instances ≡ h ∷ hs
    → checked choose instances (healthy instances) s ≡ choose h hs s
unfolding checked healthy
checked_some choose [] h hs s e = cc
checked_some choose (x ∷ instances) h hs s e = ap (λ k. checked choose (x ∷ instances) k s) e

-- The loop that returns the first instance with an id.
unfoldable pub with_id : Bytes → List ServiceInstance → Option ServiceInstance
with_id id [] = none
with_id id (s ∷ instances) =
    let rest = with_id id instances in if bytes_eq.beq (get_id s) id then some s else rest

abbrev or_else : ServiceInstance → Option ServiceInstance → ServiceInstance
or_else h (some s) = s
or_else h none = h

-- The instance with an id, or else the given one.
unfoldable pub with_id_or : ServiceInstance → Bytes → List ServiceInstance → ServiceInstance
unfolding with_id
with_id_or h id instances = or_else h (with_id id instances)

with_id_same :
    (id : Bytes) (x : ServiceInstance) (instances : List ServiceInstance)
    → bytes_eq.beq (get_id x) id ≡ true
    → with_id id (x ∷ instances) ≡ some x
unfolding with_id
with_id_same id x instances same = rw same refl

with_id_other :
    (id : Bytes) (x : ServiceInstance) (instances : List ServiceInstance)
    → bytes_eq.beq (get_id x) id ≡ false
    → with_id id (x ∷ instances) ≡ with_id id instances
unfolding with_id
with_id_other id x instances other = rw other refl

pub with_id-Among :
    (id : Bytes) (instances : List ServiceInstance) (s : ServiceInstance)
    → with_id id instances ≡ some s
    → Among s instances
unfolding with_id
with_id-Among id [] s e = cc
with_id-Among id (x ∷ instances) s e = elim (Bool-cases (bytes_eq.beq (get_id x) id)) [
  | inl same ↦ (0, sym (with_id_same id x instances same) ∙ e)
  | inr other ↦
      let (i, at) = with_id-Among id instances s (sym (with_id_other id x instances other) ∙ e) in
      (suc i, at)
]

or_else-Among :
    (h : ServiceInstance) (hs : List ServiceInstance) (id : Bytes) (found : Option ServiceInstance)
    → with_id id (h ∷ hs) ≡ found
    → Among (or_else h found) (h ∷ hs)
or_else-Among h hs id none e = (0, refl)
or_else-Among h hs id (some s) e = with_id-Among id (h ∷ hs) s e

pub with_id_or-Among :
    (h : ServiceInstance) (hs : List ServiceInstance) (id : Bytes)
    → Among (with_id_or h id (h ∷ hs)) (h ∷ hs)
unfolding with_id_or
with_id_or-Among h hs id = or_else-Among h hs id (with_id id (h ∷ hs)) refl
