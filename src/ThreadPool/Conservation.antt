-- ===== src/ThreadPool/Conservation.antt =====
-- No task of the pool is lost, run twice or started out of order: the threads of
-- src/utils/thread_pool.cpp between submit and waitForAllTasks.
use my_mprpc.Prelude.{
  ℕ, ◌+◌, ◌≡◌, refl, sym, ap, ◌∙◌, true, ◌&&◌, ◌==◌, List, [], ◌∷◌, ◌++◌, append_assoc, append-nil,
  arith, map,
}
use my_mprpc.ThreadPool.{
  ThreadPool, Worker, ready, asleep, executed, exited, executing, make_pool, thread_count_of,
  all_done, is_empty,
}
use my_mprpc.ThreadPool.Steps.{
  WorkerStep, worker_sleeps, worker_takes, worker_leaves, worker_runs, worker_finishes, Step, work,
  shut, submit_accepted, submit_pushed, notified_worker, notified_waiter, notified_nobody,
  worker_woken, waiter_woken, waiter_sleeps, stop_flagged, stop_notified, stop_joined, Steps, here,
  later, wake,
}
use my_mprpc.ThreadPool.Workers.{
  total, total-at, total-same, total-wake, total_of_exited, total-replicate_ready, busy, runs,
  occurrences, occurrences-end,
}

pub record IsSound (p : ThreadPool) : Type 0 where
  pub in_order : p.pushed ≡ p.started ++ p.tasks
  pub accounted :
      (t : ℕ) → occurrences t p.started ≡ occurrences t p.finished + total (runs t) p.workers
  pub counted : p.active_threads ≡ total busy p.workers

pub make_pool-IsSound : (n hardware : ℕ) → IsSound (make_pool n hardware)
unfolding make_pool
make_pool-IsSound n hardware = record {
  in_order = refl;
  accounted = λ t. omega (arith, total-replicate_ready (runs t) refl (thread_count_of n hardware));
  counted = omega (arith, total-replicate_ready busy refl (thread_count_of n hardware));
}

-- A change of the workers that no count sees.
same_workers :
    (p : ThreadPool) (ws : List Worker)
    → ((t : ℕ) → total (runs t) ws ≡ total (runs t) p.workers)
    → total busy ws ≡ total busy p.workers
    → IsSound p
    → IsSound (record p { workers = ws })
same_workers p ws r b s = record {
  in_order = s.in_order;
  accounted = λ t. omega (arith, s.accounted t, r t);
  counted = omega (arith, s.counted, b);
}

WorkerStep-IsSound : {p q : ThreadPool} → WorkerStep p q → IsSound p → IsSound q
WorkerStep-IsSound {p = p} (worker_sleeps ws us w h e) s =
    same_workers p (ws ++ asleep ∷ us) (λ t. total-same (runs t) ws ready asleep us w refl)
      (total-same busy ws ready asleep us w refl) s
WorkerStep-IsSound {p = p} (worker_takes ws us t rest w e) s = record {
  in_order = s.in_order ∙ ap (◌++◌ p.started) e ∙ sym (append_assoc p.started (t ∷ []) rest);
  accounted = λ u. omega (
    arith,
    s.accounted u,
    occurrences-end u t p.started,
    total-at (runs u) ws ready (executing t) us w,
  );
  counted = omega (arith, s.counted, total-at busy ws ready (executing t) us w);
}
WorkerStep-IsSound {p = p} (worker_leaves ws us w h e) s =
    same_workers p (ws ++ exited ∷ us) (λ t. total-same (runs t) ws ready exited us w refl)
      (total-same busy ws ready exited us w refl) s
WorkerStep-IsSound {p = p} (worker_runs ws us t w) s = record {
  in_order = s.in_order;
  accounted = λ u. omega (
    arith,
    s.accounted u,
    occurrences-end u t p.finished,
    total-at (runs u) ws (executing t) executed us w,
  );
  counted = omega (arith, s.counted, total-at busy ws (executing t) executed us w);
}
WorkerStep-IsSound {p = p} (worker_finishes ws us w) s = record {
  in_order = s.in_order;
  accounted = λ u. omega (arith, s.accounted u, total-at (runs u) ws executed ready us w);
  counted = omega (arith, s.counted, total-at busy ws executed ready us w);
}

-- A step that leaves the queue, the workers and the history alone.
same_tasks :
    {p q : ThreadPool}
    → q.pushed ≡ p.pushed
    → q.started ≡ p.started
    → q.tasks ≡ p.tasks
    → q.finished ≡ p.finished
    → q.workers ≡ p.workers
    → q.active_threads ≡ p.active_threads
    → IsSound p
    → IsSound q
same_tasks a b c d e f s = record {
  in_order = rw (a, b, c) s.in_order;
  accounted = λ t. rw (b, d, e) (s.accounted t);
  counted = rw (e, f) s.counted;
}

wakes_worker :
    (p : ThreadPool) (ws us : List Worker)
    → p.workers ≡ ws ++ asleep ∷ us
    → IsSound p
    → IsSound (record p { workers = ws ++ ready ∷ us })
wakes_worker p ws us w s =
    same_workers p (ws ++ ready ∷ us) (λ t. total-same (runs t) ws asleep ready us w refl)
      (total-same busy ws asleep ready us w refl) s

pub Step-IsSound : {p q : ThreadPool} → Step p q → IsSound p → IsSound q
Step-IsSound (work st) s = WorkerStep-IsSound st s
Step-IsSound {p = p} (submit_accepted t h) s = same_tasks refl refl refl refl refl refl s
Step-IsSound {p = p} (submit_pushed xs ys t h) s = record {
  in_order = ap (λ ts. ts ++ t ∷ []) s.in_order ∙ append_assoc p.started p.tasks (t ∷ []);
  accounted = s.accounted;
  counted = s.counted;
}
Step-IsSound {p = p} (notified_worker ws us n h w) s =
    same_tasks refl refl refl refl refl refl (wakes_worker p ws us w s)
Step-IsSound {p = p} (notified_waiter n m h w) s = same_tasks refl refl refl refl refl refl s
Step-IsSound {p = p} (notified_nobody n h a w) s = same_tasks refl refl refl refl refl refl s
Step-IsSound {p = p} (worker_woken ws us w) s = wakes_worker p ws us w s
Step-IsSound {p = p} (waiter_woken m w) s = same_tasks refl refl refl refl refl refl s
Step-IsSound {p = p} (waiter_sleeps h) s = same_tasks refl refl refl refl refl refl s
Step-IsSound {p = p} (shut (stop_flagged h)) s = same_tasks refl refl refl refl refl refl s
Step-IsSound {p = p} (shut (stop_notified h)) s = same_tasks refl refl refl refl refl refl (
    same_workers p (map wake p.workers) (λ t. total-wake (runs t) refl p.workers)
      (total-wake busy refl p.workers) s)
Step-IsSound {p = p} (shut (stop_joined h a)) s =
    same_workers p [] (λ t. sym (total_of_exited (runs t) refl p.workers a))
      (sym (total_of_exited busy refl p.workers a)) s

-- Whatever the threads of a new pool do, the tasks are started in the order of their pushes, each
-- of them once; a started task has run, or one worker is running it; and active_threads_ is the
-- number of workers between the start of a task and the end of the loop.
pub Steps-IsSound :
    (thread_count hardware : ℕ) {q : ThreadPool}
    → Steps (make_pool thread_count hardware) q
    → IsSound q
Steps-IsSound n hardware here = make_pool-IsSound n hardware
Steps-IsSound n hardware (later r st) = Step-IsSound st (Steps-IsSound n hardware r)

total_zero :
    (f g : Worker → ℕ)
    → ((w : Worker) → g w ≡ 0 → f w ≡ 0)
    → (ws : List Worker) → total g ws ≡ 0
    → total f ws ≡ 0
total_zero f g i [] h = refl
total_zero f g i (w ∷ ws) h = omega (arith, i w (omega arith), total_zero f g i ws (omega arith))

idle-runs : (t : ℕ) (w : Worker) → busy w ≡ 0 → runs t w ≡ 0
idle-runs t ready h = refl
idle-runs t asleep h = refl
idle-runs t executed h = refl
idle-runs t exited h = refl
idle-runs t (executing u) h = absurd (omega arith)

-- In a sound state with nothing queued and no worker busy all is done.
pub all_run :
    {q : ThreadPool}
    → IsSound q
    → q.tasks ≡ []
    → total busy q.workers ≡ 0
    → (t : ℕ) → occurrences t q.finished ≡ occurrences t q.pushed
all_run {q = q} s e b t =
    let started : q.pushed ≡ q.started =
      s.in_order ∙ ap (◌++◌ q.started) e ∙ append-nil q.started in
    omega (
      arith,
      s.accounted t,
      total_zero (runs t) busy (idle-runs t) q.workers b,
      ap (occurrences t) started,
    )

and_split : (tasks : List ℕ) (n : ℕ) → is_empty tasks && n == 0 ≡ true → (tasks ≡ []) × (n ≡ 0)
and_split [] n h = (refl, ground arith)
and_split (t ∷ tasks) n h = ground arith

-- When waitForAllTasks returns, every task has run as often as it was pushed before.
pub all_done-finished :
    (thread_count hardware : ℕ) {q : ThreadPool}
    → Steps (make_pool thread_count hardware) q
    → all_done q ≡ true
    → (t : ℕ) → occurrences t q.finished ≡ occurrences t q.pushed
unfolding all_done
all_done-finished n hardware {q} r h t =
    let s = Steps-IsSound n hardware r in
    let (e, z) = and_split q.tasks q.active_threads h in all_run s e (omega (arith, s.counted, z)) t
