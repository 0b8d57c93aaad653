-- ===== src/ThreadPool/Workers.antt =====
-- The workers counted by where they stand, for the steps of ThreadPool/Steps.antt.
use my_mprpc.Prelude.{
  ℕ, zero, suc, ◌+◌, ◌≡◌, refl, List, [], ◌∷◌, ◌++◌, All, map, ◌==◌, arith, if◌then◌else◌,
  replicate,
}
use my_mprpc.ThreadPool.{Worker, ready, asleep, executed, exited, executing}
use my_mprpc.ThreadPool.Steps.{IsExited, wake}

abbrev pub total : (Worker → ℕ) → List Worker → ℕ
total f [] = 0
total f (w ∷ ws) = f w + total f ws

total-append :
    (f : Worker → ℕ) (ws : List Worker) (w : Worker) (us : List Worker)
    → total f (ws ++ w ∷ us) ≡ total f ws + f w + total f us
total-append f [] w us = omega arith
total-append f (v ∷ ws) w us = omega (arith, total-append f ws w us)

-- The number of workers does not change when one of them moves on.
pub total-at :
    (f : Worker → ℕ) {all : List Worker} (ws : List Worker) (w v : Worker) (us : List Worker)
    → all ≡ ws ++ w ∷ us
    → total f all + f v ≡ total f (ws ++ v ∷ us) + f w
total-at f ws w v us h = rw h (omega (arith, total-append f ws w us, total-append f ws v us))

pub total-same :
    (f : Worker → ℕ) {all : List Worker} (ws : List Worker) (w v : Worker) (us : List Worker)
    → all ≡ ws ++ w ∷ us
    → f w ≡ f v
    → total f (ws ++ v ∷ us) ≡ total f all
total-same f ws w v us h e = omega (arith, total-at f ws w v us h, e)

pub total-wake :
    (f : Worker → ℕ) → f asleep ≡ f ready → (ws : List Worker) → total f (map wake ws) ≡ total f ws
total-wake f h [] = refl
total-wake f h (ready ∷ ws) = omega (arith, total-wake f h ws)
total-wake f h (asleep ∷ ws) = omega (arith, total-wake f h ws, h)
total-wake f h (executed ∷ ws) = omega (arith, total-wake f h ws)
total-wake f h (exited ∷ ws) = omega (arith, total-wake f h ws)
total-wake f h (executing t ∷ ws) = omega (arith, total-wake f h ws)

pub total_of_exited :
    (f : Worker → ℕ) → f exited ≡ 0 → (ws : List Worker) → All IsExited ws → total f ws ≡ 0
total_of_exited f h [] a = refl
total_of_exited f h (w ∷ ws) (e, a) =
    let z : f w ≡ 0 = rw e h in omega (arith, z, total_of_exited f h ws a)

pub total-replicate_ready :
    (f : Worker → ℕ) → f ready ≡ 0 → (n : ℕ) → total f (replicate n ready) ≡ 0
total-replicate_ready f h zero = refl
total-replicate_ready f h (suc n) = omega (arith, h, total-replicate_ready f h n)

-- Between taking a task and the end of the loop.
abbrev pub busy : Worker → ℕ
busy ready = 0
busy asleep = 0
busy executed = 1
busy exited = 0
busy (executing t) = 1

abbrev pub runs : ℕ → Worker → ℕ
runs t ready = 0
runs t asleep = 0
runs t executed = 0
runs t exited = 0
runs t (executing u) = if t == u then 1 else 0

abbrev pub is_asleep : Worker → ℕ
is_asleep ready = 0
is_asleep asleep = 1
is_asleep executed = 0
is_asleep exited = 0
is_asleep (executing u) = 0

abbrev pub is_ready : Worker → ℕ
is_ready ready = 1
is_ready asleep = 0
is_ready executed = 0
is_ready exited = 0
is_ready (executing u) = 0

abbrev pub is_exited : Worker → ℕ
is_exited ready = 0
is_exited asleep = 0
is_exited executed = 0
is_exited exited = 1
is_exited (executing u) = 0

abbrev pub any : Worker → ℕ
any w = 1

abbrev pub occurrences : ℕ → List ℕ → ℕ
occurrences t [] = 0
occurrences t (u ∷ us) = (if t == u then 1 else 0) + occurrences t us

pub occurrences-append :
    (t : ℕ) (us vs : List ℕ) → occurrences t (us ++ vs) ≡ occurrences t us + occurrences t vs
occurrences-append t [] vs = omega arith
occurrences-append t (u ∷ us) vs = omega (arith, occurrences-append t us vs)

pub occurrences-end :
    (t u : ℕ) (us : List ℕ)
    → occurrences t (us ++ u ∷ []) ≡ occurrences t us + (if t == u then 1 else 0)
occurrences-end t u us = omega (arith, occurrences-append t us (u ∷ []))
