-- ===== src/ThreadPool/Wakeups.antt =====
-- Who is woken: notify_one of submit, and the two threads that share condition_.
use my_mprpc.Prelude.{
  ℕ, ◌+◌, ◌≤◌, ◌≡◌, ◌≢◌, refl, ap, List, [], ◌∷◌, ◌++◌, arith, map, All, ◌⊎◌, inl, inr, length,
  length-append,
}
use my_mprpc.ThreadPool.{
  ThreadPool, Worker, ready, asleep, executed, exited, executing, make_pool, thread_count_of,
}
use my_mprpc.ThreadPool.Steps.{
  WorkerStep, worker_sleeps, worker_takes, worker_leaves, worker_runs, worker_finishes, Step, work,
  shut, submit_accepted, submit_pushed, notified_worker, notified_waiter, notified_nobody,
  worker_woken, waiter_woken, waiter_sleeps, stop_flagged, stop_notified, stop_joined, wake,
}
use my_mprpc.ThreadPool.Workers.{total, total-at, total-replicate_ready, is_asleep, is_ready}

-- No thread is in waitForAllTasks.
pub data Unwatched (p : ThreadPool) : ThreadPool → Type 0 where
  at_start : Unwatched p p
  and_then : {q r : ThreadPool} → Unwatched p q → Step q r → r.waiters ≡ 0 → Unwatched p r

-- No worker sleeps, or a thread is on its way for every task of the queue.
abbrev pub IsServed : ThreadPool → Type 0
IsServed p =
    (total is_asleep p.workers ≡ 0) ⊎ (length p.tasks ≤ p.notifications + total is_ready p.workers)

none_asleep : (ws : List Worker) → All (λ w. w ≢ asleep) ws → total is_asleep ws ≡ 0
none_asleep [] a = refl
none_asleep (ready ∷ ws) (n, a) = omega (arith, none_asleep ws a)
none_asleep (asleep ∷ ws) (n, a) = absurd (n refl)
none_asleep (executed ∷ ws) (n, a) = omega (arith, none_asleep ws a)
none_asleep (exited ∷ ws) (n, a) = omega (arith, none_asleep ws a)
none_asleep (executing t ∷ ws) (n, a) = omega (arith, none_asleep ws a)

wake-none_asleep : (ws : List Worker) → total is_asleep (map wake ws) ≡ 0
wake-none_asleep [] = refl
wake-none_asleep (ready ∷ ws) = omega (arith, wake-none_asleep ws)
wake-none_asleep (asleep ∷ ws) = omega (arith, wake-none_asleep ws)
wake-none_asleep (executed ∷ ws) = omega (arith, wake-none_asleep ws)
wake-none_asleep (exited ∷ ws) = omega (arith, wake-none_asleep ws)
wake-none_asleep (executing t ∷ ws) = omega (arith, wake-none_asleep ws)

-- The numbers of sleeping workers, of tasks, and of threads on their way, before and after.
serve : {a b l m k j : ℕ} → b ≤ a → m + k ≤ l + j → (a ≡ 0) ⊎ (l ≤ k) → (b ≡ 0) ⊎ (m ≤ j)
serve h g (inl z) = inl (omega arith)
serve h g (inr o) = inr (omega arith)

moves-IsServed :
    (p : ThreadPool) (ws : List Worker) (w v : Worker) (us : List Worker)
    → p.workers ≡ ws ++ w ∷ us
    → is_asleep v ≡ 0
    → is_ready w ≤ is_ready v
    → IsServed p
    → IsServed (record p { workers = ws ++ v ∷ us })
moves-IsServed p ws w v us h z r s =
    serve (omega (arith, total-at is_asleep ws w v us h))
      (omega (arith, total-at is_ready ws w v us h)) s

WorkerStep-IsServed : {p q : ThreadPool} → WorkerStep p q → IsServed p → IsServed q
WorkerStep-IsServed (worker_sleeps ws us w h e) s = inr (omega (arith, ap length e))
WorkerStep-IsServed (worker_takes ws us t rest w e) s =
    serve (omega (arith, total-at is_asleep ws ready (executing t) us w))
      (omega (arith, total-at is_ready ws ready (executing t) us w, ap length e)) s
WorkerStep-IsServed (worker_leaves ws us w h e) s = inr (omega (arith, ap length e))
WorkerStep-IsServed {p = p} (worker_runs ws us t w) s =
    moves-IsServed p ws (executing t) executed us w refl (omega arith) s
WorkerStep-IsServed {p = p} (worker_finishes ws us w) s =
    moves-IsServed p ws executed ready us w refl (omega arith) s

Step-IsServed : {p q : ThreadPool} → Step p q → p.waiters ≡ 0 → IsServed p → IsServed q
Step-IsServed (work st) z s = WorkerStep-IsServed st s
Step-IsServed (submit_accepted t h) z s = s
Step-IsServed {p = p} (submit_pushed xs ys t h) z s =
    serve (omega arith) (omega (arith, length-append p.tasks (t ∷ []))) s
Step-IsServed (notified_worker ws us n h w) z s =
    serve (omega (arith, total-at is_asleep ws asleep ready us w))
      (omega (arith, total-at is_ready ws asleep ready us w)) s
Step-IsServed (notified_waiter n m h w) z s = absurd (omega arith)
Step-IsServed {p = p} (notified_nobody n h a w) z s = inl (none_asleep p.workers a)
Step-IsServed {p = p} (worker_woken ws us w) z s =
    moves-IsServed p ws asleep ready us w refl (omega arith) s
Step-IsServed (waiter_woken m w) z s = s
Step-IsServed (waiter_sleeps h) z s = s
Step-IsServed (shut (stop_flagged h)) z s = s
Step-IsServed {p = p} (shut (stop_notified h)) z s = inl (wake-none_asleep p.workers)
Step-IsServed (shut (stop_joined h a)) z s = inl refl

unwatched : (p : ThreadPool) {q : ThreadPool} → Unwatched p q → p.waiters ≡ 0 → q.waiters ≡ 0
unwatched p at_start z = z
unwatched p (and_then r st e) z = e

-- As long as no thread is asleep in waitForAllTasks, no notification is lost: when a worker of a
-- new pool is asleep, there are as many workers at the head of their loops and calls of notify_one
-- to come as there are tasks in the queue.
pub Unwatched-IsServed :
    (thread_count hardware : ℕ) {q : ThreadPool}
    → Unwatched (make_pool thread_count hardware) q
    → IsServed q
Unwatched-IsServed n hardware at_start =
    unfold make_pool in inl (total-replicate_ready is_asleep refl (thread_count_of n hardware))
Unwatched-IsServed n hardware (and_then r st e) =
    Step-IsServed st (unwatched (make_pool n hardware) r (unfold make_pool in refl))
      (Unwatched-IsServed n hardware r)
