-- ===== src/ThreadPool.antt =====
-- include/thread_pool.h and src/utils/thread_pool.cpp. The threads are interleaved in any order: a
-- step is one critical section, one access to an atomic, or one run of a task. A task is known by a
-- number; a packaged_task keeps what its function throws, so that a run always ends normally.
pub mod Steps
pub mod Workers
pub mod Conservation
pub mod Shutdown
pub mod Abandoned
pub mod Wakeups
use my_mprpc.Prelude.{
  ℕ, zero, suc, ◌+◌, ◌≡◌, refl, Bool, true, false, ◌&&◌, not, List, [], ◌∷◌, length, replicate,
  ◌==◌, if◌then◌else◌,
}
use my_mprpc.Prelude.Result.{Result, ok, err}

-- Where a worker stands: at the head of its loop, asleep in condition_.wait, in task(), behind it,
-- or returned.
pub data Worker : Type 0 where
  ready asleep executed exited : Worker
  executing : ℕ → Worker

pub record ThreadPool : Type 0 where
  pub workers : List Worker
  pub tasks : List ℕ
  pub stop : Bool
  pub active_threads : ℕ
  -- calls of submit between the test of stop_ and the push, pushes whose notify_one is still to
  -- come, and calls of waitForAllTasks that are asleep
  pub accepted : List ℕ
  pub notifications : ℕ
  pub waiters : ℕ
  -- what was pushed, taken from the queue, and run so far, in this order
  pub pushed : List ℕ
  pub started : List ℕ
  pub finished : List ℕ

-- The number of threads, of a constructor's argument and std::thread::hardware_concurrency().
unfoldable pub thread_count_of : ℕ → ℕ → ℕ
thread_count_of thread_count hardware =
    if thread_count == 0 then (if hardware == 0 then 1 else hardware) else thread_count

unfoldable pub make_pool : ℕ → ℕ → ThreadPool
unfolding thread_count_of
make_pool thread_count hardware = record {
  workers = replicate (thread_count_of thread_count hardware) ready;
  tasks = [];
  stop = false;
  active_threads = 0;
  accepted = [];
  notifications = 0;
  waiters = 0;
  pushed = [];
  started = [];
  finished = [];
}

pub data SubmitError : Type 0 where
  stopped_pool : SubmitError

-- What submit does before its critical section: it throws, or goes on.
unfoldable pub submit_check : ℕ → ThreadPool → Result SubmitError ThreadPool
submit_check t p = if p.stop then err stopped_pool else ok (record p { accepted = t ∷ p.accepted })

pub get_queue_size : ThreadPool → ℕ
get_queue_size p = length p.tasks

pub get_active_thread_count : ThreadPool → ℕ
get_active_thread_count p = p.active_threads

pub get_thread_count : ThreadPool → ℕ
get_thread_count p = length p.workers

pub is_running : ThreadPool → Bool
is_running p = not p.stop

abbrev pub is_empty : List ℕ → Bool
is_empty [] = true
is_empty (t ∷ tasks) = false

-- The condition that waitForAllTasks waits for.
unfoldable pub all_done : ThreadPool → Bool
all_done p = is_empty p.tasks && p.active_threads == 0
