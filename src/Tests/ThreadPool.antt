-- ===== src/Tests/ThreadPool.antt =====
-- The thread pool of src/utils/thread_pool.cpp at concrete runs of its threads.
use my_mprpc.Prelude.{ℕ, ◌≡◌, refl, true, false, [], ◌∷◌, List, arith, ap}
use my_mprpc.ThreadPool.{ThreadPool, ready, asleep, exited, make_pool, thread_count_of, all_done}
use my_mprpc.ThreadPool.Steps.{
  worker_sleeps, worker_takes, worker_leaves, worker_runs, worker_finishes, work, submit_accepted,
  submit_pushed, notified_waiter, notified_nobody, waiter_sleeps, Steps, here, later,
}
use my_mprpc.ThreadPool.Workers.{occurrences, is_ready}
use my_mprpc.ThreadPool.Conservation.{IsSound, Steps-IsSound, all_done-finished}
use my_mprpc.ThreadPool.Shutdown.{stop_drains}
use my_mprpc.ThreadPool.Abandoned.{tasks_lost}
use my_mprpc.ThreadPool.Wakeups.{Unwatched, at_start, and_then, IsServed, Unwatched-IsServed}

-- One worker, and the task 7 that was pushed while it was at the head of its loop.
abbrev after_push : ThreadPool
after_push = record {
  workers = ready ∷ [];
  tasks = 7 ∷ [];
  stop = false;
  active_threads = 0;
  accepted = [];
  notifications = 0;
  waiters = 0;
  pushed = 7 ∷ [];
  started = [];
  finished = [];
}

pushes : Steps (make_pool 1 4) after_push
unfolding make_pool thread_count_of
pushes =
    later (later (later here (submit_accepted 7 refl)) (submit_pushed [] [] 7 refl))
      (notified_nobody 0 refl ((λ e. omega (arith, ap is_ready e), tt)) refl)

-- The same pool when the task has run.
abbrev after_run : ThreadPool
after_run = record after_push { tasks = []; started = 7 ∷ []; finished = 7 ∷ [] }

runs_7 : Steps (make_pool 1 4) after_run
runs_7 =
    later
      (later (later pushes (work (worker_takes [] [] 7 [] refl refl)))
        (work (worker_runs [] [] 7 refl)))
      (work (worker_finishes [] [] refl))

Steps-IsSound_example : IsSound after_push
Steps-IsSound_example = Steps-IsSound 1 4 pushes

all_done-finished_example : occurrences 7 after_run.finished ≡ occurrences 7 after_run.pushed
all_done-finished_example = all_done-finished 1 4 runs_7 (unfold all_done in refl) 7

-- stop while the task is still in the queue.
abbrev after_stop : ThreadPool
after_stop = record after_run { stop = true; workers = exited ∷ [] }

stops : Steps (record after_push { stop = true }) after_stop
stops =
    later
      (later
        (later (later here (work (worker_takes [] [] 7 [] refl refl)))
          (work (worker_runs [] [] 7 refl)))
        (work (worker_finishes [] [] refl)))
      (work (worker_leaves [] [] refl refl refl))

stop_drains_example : occurrences 7 after_stop.finished ≡ occurrences 7 after_stop.pushed
stop_drains_example = stop_drains 1 4 pushes refl refl stops (refl, tt) 7

tasks_lost_example :
    (q : ThreadPool) × Steps (make_pool 2 4) q
    × (q.pushed ≡ 8 ∷ [])
    × ((r : ThreadPool)
        → Steps q r
        → (r.started ≡ []) × (r.finished ≡ []) × ((more : List ℕ) × (r.tasks ≡ 8 ∷ more)))
tasks_lost_example = tasks_lost 2 4 8

pushes_one : Unwatched (make_pool 1 4) after_push
unfolding make_pool thread_count_of
pushes_one =
    and_then
      (and_then (and_then at_start (submit_accepted 7 refl) refl) (submit_pushed [] [] 7 refl) refl)
      (notified_nobody 0 refl ((λ e. omega (arith, ap is_ready e), tt)) refl) refl

Unwatched-IsServed_example : IsServed after_push
Unwatched-IsServed_example = Unwatched-IsServed 1 4 pushes_one

-- waitForAllTasks sleeps while 7 runs; nothing wakes it when 7 is done. The notification of the
-- next task then goes to it instead of the sleeping worker.
abbrev stuck : ThreadPool
stuck = record after_run { workers = asleep ∷ []; tasks = 9 ∷ []; pushed = 7 ∷ 9 ∷ []; waiters = 1 }

sticks : Steps (make_pool 1 4) stuck
sticks =
    let running = later pushes (work (worker_takes [] [] 7 [] refl refl)) in
    let waiting = later running (waiter_sleeps (unfold all_done in refl)) in
    let done =
      later (later waiting (work (worker_runs [] [] 7 refl))) (work (worker_finishes [] [] refl)) in
    let sleeping = later done (work (worker_sleeps [] [] refl refl refl)) in
    let pushed = later (later sleeping (submit_accepted 9 refl)) (submit_pushed [] [] 9 refl) in
    later (later pushed (notified_waiter 0 0 refl refl)) (waiter_sleeps (unfold all_done in refl))
