-- ===== src/ThreadPool/Steps.antt =====
-- One step of a thread on the pool.
use my_mprpc.Prelude.{ℕ, suc, ◌+◌, ◌-◌, ◌≡◌, ◌≢◌, true, false, List, [], ◌∷◌, ◌++◌, All, map}
use my_mprpc.ThreadPool.{ThreadPool, Worker, ready, asleep, executed, exited, executing, all_done}

abbrev pub IsExited : Worker → Type 0
IsExited w = w ≡ exited

abbrev pub wake : Worker → Worker
wake ready = ready
wake asleep = ready
wake executed = executed
wake exited = exited
wake (executing t) = executing t

-- A step of a worker: `ws` and `us` are the workers before and behind it.
pub data WorkerStep (p : ThreadPool) : ThreadPool → Type 0 where
  -- condition_.wait with the condition false
  worker_sleeps :
      (ws us : List Worker)
      → p.workers ≡ ws ++ ready ∷ us
      → p.stop ≡ false
      → p.tasks ≡ []
      → WorkerStep p (record p { workers = ws ++ asleep ∷ us })
  -- the front of the queue is moved out, and active_threads_ grows
  worker_takes :
      (ws us : List Worker) (t : ℕ) (rest : List ℕ)
      → p.workers ≡ ws ++ ready ∷ us
      → p.tasks ≡ t ∷ rest
      → WorkerStep p (record p {
        workers = ws ++ executing t ∷ us;
        tasks = rest;
        active_threads = p.active_threads + 1;
        started = p.started ++ t ∷ [];
      })
  -- stop_ is set and the queue is empty
  worker_leaves :
      (ws us : List Worker)
      → p.workers ≡ ws ++ ready ∷ us
      → p.stop ≡ true
      → p.tasks ≡ []
      → WorkerStep p (record p { workers = ws ++ exited ∷ us })
  -- task()
  worker_runs :
      (ws us : List Worker) (t : ℕ)
      → p.workers ≡ ws ++ executing t ∷ us
      → WorkerStep p (record p { workers = ws ++ executed ∷ us; finished = p.finished ++ t ∷ [] })
  -- active_threads_--
  worker_finishes :
      (ws us : List Worker)
      → p.workers ≡ ws ++ executed ∷ us
      → WorkerStep p
          (record p { workers = ws ++ ready ∷ us; active_threads = p.active_threads - 1 })

-- A step of stop: the flag, notify_all, and the end of the joins.
pub data StopStep (p : ThreadPool) : ThreadPool → Type 0 where
  stop_flagged : p.stop ≡ false → StopStep p (record p { stop = true })
  stop_notified :
      p.stop ≡ true → StopStep p (record p { workers = map wake p.workers; waiters = 0 })
  stop_joined : p.stop ≡ true → All IsExited p.workers → StopStep p (record p { workers = [] })

-- A step of any thread.
pub data Step (p : ThreadPool) : ThreadPool → Type 0 where
  work : {q : ThreadPool} → WorkerStep p q → Step p q
  -- submit and submitVoid: the test of stop_, the push, notify_one
  submit_accepted : (t : ℕ) → p.stop ≡ false → Step p (record p { accepted = t ∷ p.accepted })
  submit_pushed :
      (xs ys : List ℕ) (t : ℕ)
      → p.accepted ≡ xs ++ t ∷ ys
      → Step p (record p {
        accepted = xs ++ ys;
        tasks = p.tasks ++ t ∷ [];
        notifications = p.notifications + 1;
        pushed = p.pushed ++ t ∷ [];
      })
  notified_worker :
      (ws us : List Worker) (n : ℕ)
      → p.notifications ≡ suc n
      → p.workers ≡ ws ++ asleep ∷ us
      → Step p (record p { workers = ws ++ ready ∷ us; notifications = n })
  notified_waiter :
      (n m : ℕ)
      → p.notifications ≡ suc n
      → p.waiters ≡ suc m
      → Step p (record p { notifications = n; waiters = m })
  notified_nobody :
      (n : ℕ)
      → p.notifications ≡ suc n
      → All (λ w. w ≢ asleep) p.workers
      → p.waiters ≡ 0
      → Step p (record p { notifications = n })
  -- a thread may wake without a notification
  worker_woken :
      (ws us : List Worker)
      → p.workers ≡ ws ++ asleep ∷ us
      → Step p (record p { workers = ws ++ ready ∷ us })
  waiter_woken : (m : ℕ) → p.waiters ≡ suc m → Step p (record p { waiters = m })
  -- waitForAllTasks with the condition false
  waiter_sleeps : all_done p ≡ false → Step p (record p { waiters = p.waiters + 1 })
  shut : {q : ThreadPool} → StopStep p q → Step p q

pub data Steps (p : ThreadPool) : ThreadPool → Type 0 where
  here : Steps p p
  later : {q r : ThreadPool} → Steps p q → Step q r → Steps p r
