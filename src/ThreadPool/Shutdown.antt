-- ===== src/ThreadPool/Shutdown.antt =====
-- stop of src/utils/thread_pool.cpp, beside submit of include/thread_pool.h.
use my_mprpc.Prelude.{
  ℕ, zero, suc, ◌<◌, ◌≡◌, refl, sym, ap, ◌∙◌, Bool, true, false, List, [], ◌∷◌, ◌++◌, arith, map,
  ◌⊎◌, inl, inr, length, length-append, All, replicate,
}
use my_mprpc.ThreadPool.{
  ThreadPool, Worker, ready, asleep, executed, executing, make_pool, thread_count_of,
}
use my_mprpc.ThreadPool.Steps.{
  WorkerStep, worker_sleeps, worker_takes, worker_leaves, worker_runs, worker_finishes, Step, work,
  shut, submit_accepted, submit_pushed, notified_worker, notified_waiter, notified_nobody,
  worker_woken, waiter_woken, waiter_sleeps, stop_flagged, stop_notified, stop_joined, Steps, here,
  later, wake, IsExited,
}
use my_mprpc.ThreadPool.Workers.{
  total, total-at, total-wake, total_of_exited, total-replicate_ready, busy, occurrences, any,
  is_exited,
}
use my_mprpc.ThreadPool.Conservation.{IsSound, Steps-IsSound, Step-IsSound, all_run}

-- There are workers, and none of them has returned.
abbrev pub IsStaffed : List Worker → Type 0
IsStaffed ws = (total is_exited ws ≡ 0) × (0 < total any ws)

moved-IsStaffed :
    {all : List Worker} (ws : List Worker) (w v : Worker) (us : List Worker)
    → all ≡ ws ++ w ∷ us
    → is_exited v ≡ 0
    → IsStaffed all
    → IsStaffed (ws ++ v ∷ us)
moved-IsStaffed ws w v us h e (z, l) =
    (omega (arith, total-at is_exited ws w v us h), omega (arith, total-at any ws w v us h))

wake-IsStaffed : (ws : List Worker) → IsStaffed ws → IsStaffed (map wake ws)
wake-IsStaffed ws (z, l) =
    (omega (arith, total-wake is_exited refl ws), omega (arith, total-wake any refl ws))

total_of_replicate : (n : ℕ) (w : Worker) → total any (replicate n w) ≡ n
total_of_replicate zero w = refl
total_of_replicate (suc n) w = omega (arith, total_of_replicate n w)

thread_count_of-positive : (n hardware : ℕ) → 0 < thread_count_of n hardware
unfolding thread_count_of
thread_count_of-positive n hardware = ground arith

make_pool-IsStaffed : (n hardware : ℕ) → IsStaffed (make_pool n hardware).workers
unfolding make_pool
make_pool-IsStaffed n hardware = (
  total-replicate_ready is_exited refl (thread_count_of n hardware),
  omega (
    arith,
    total_of_replicate (thread_count_of n hardware) ready,
    thread_count_of-positive n hardware,
  ),
)

abbrev IsOpen : ThreadPool → Type 0
IsOpen p = p.stop ≡ false → IsStaffed p.workers

clash : {A : Type 0} {b : Bool} → b ≡ true → b ≡ false → A
clash h g = absurd (ground arith)

WorkerStep-IsOpen : {p q : ThreadPool} → WorkerStep p q → IsOpen p → IsOpen q
WorkerStep-IsOpen (worker_sleeps ws us w h e) o s = moved-IsStaffed ws ready asleep us w refl (o s)
WorkerStep-IsOpen (worker_takes ws us t rest w e) o s =
    moved-IsStaffed ws ready (executing t) us w refl (o s)
WorkerStep-IsOpen (worker_leaves ws us w h e) o s = clash h s
WorkerStep-IsOpen (worker_runs ws us t w) o s =
    moved-IsStaffed ws (executing t) executed us w refl (o s)
WorkerStep-IsOpen (worker_finishes ws us w) o s = moved-IsStaffed ws executed ready us w refl (o s)

Step-IsOpen : {p q : ThreadPool} → Step p q → IsOpen p → IsOpen q
Step-IsOpen (work st) o s = WorkerStep-IsOpen st o s
Step-IsOpen (submit_accepted t h) o s = o s
Step-IsOpen (submit_pushed xs ys t h) o s = o s
Step-IsOpen (notified_worker ws us n h w) o s = moved-IsStaffed ws asleep ready us w refl (o s)
Step-IsOpen (notified_waiter n m h w) o s = o s
Step-IsOpen (notified_nobody n h a w) o s = o s
Step-IsOpen (worker_woken ws us w) o s = moved-IsStaffed ws asleep ready us w refl (o s)
Step-IsOpen (waiter_woken m w) o s = o s
Step-IsOpen (waiter_sleeps h) o s = o s
Step-IsOpen (shut (stop_flagged h)) o s = clash refl s
Step-IsOpen {p = p} (shut (stop_notified h)) o s = wake-IsStaffed p.workers (o s)
Step-IsOpen (shut (stop_joined h a)) o s = clash h s

-- Until stop has set its flag no worker of a new pool has returned, and there is at least one.
Steps-IsStaffed :
    (thread_count hardware : ℕ) {q : ThreadPool}
    → Steps (make_pool thread_count hardware) q
    → q.stop ≡ false
    → IsStaffed q.workers
Steps-IsStaffed n hardware here s = make_pool-IsStaffed n hardware
Steps-IsStaffed n hardware (later r st) s = Step-IsOpen st (Steps-IsStaffed n hardware r) s

-- stop has set its flag, no call of submit is under way, and the workers have not left tasks behind.
record IsClosing (p : ThreadPool) : Type 0 where
  stopped : p.stop ≡ true
  nothing_accepted : p.accepted ≡ []
  drained : (p.tasks ≡ []) ⊎ IsStaffed p.workers

moved-drained :
    {tasks : List ℕ} {all : List Worker} (ws : List Worker) (w v : Worker) (us : List Worker)
    → all ≡ ws ++ w ∷ us
    → is_exited v ≡ 0
    → (tasks ≡ []) ⊎ IsStaffed all
    → (tasks ≡ []) ⊎ IsStaffed (ws ++ v ∷ us)
moved-drained ws w v us h e (inl d) = inl d
moved-drained ws w v us h e (inr s) = inr (moved-IsStaffed ws w v us h e s)

taken-drained :
    {tasks rest : List ℕ} {all : List Worker} (ws : List Worker) (t : ℕ) (us : List Worker)
    → tasks ≡ t ∷ rest
    → all ≡ ws ++ ready ∷ us
    → (tasks ≡ []) ⊎ IsStaffed all
    → (rest ≡ []) ⊎ IsStaffed (ws ++ executing t ∷ us)
taken-drained ws t us e h (inl d) = absurd (omega (arith, ap length (sym e ∙ d)))
taken-drained ws t us e h (inr s) = inr (moved-IsStaffed ws ready (executing t) us h refl s)

woken-drained :
    {tasks : List ℕ} (ws : List Worker)
    → (tasks ≡ []) ⊎ IsStaffed ws
    → (tasks ≡ []) ⊎ IsStaffed (map wake ws)
woken-drained ws (inl d) = inl d
woken-drained ws (inr s) = inr (wake-IsStaffed ws s)

returned_total : (ws : List Worker) → All IsExited ws → total is_exited ws ≡ total any ws
returned_total [] a = refl
returned_total (w ∷ ws) (e, a) =
    let one : is_exited w ≡ 1 = rw e refl in omega (arith, one, returned_total ws a)

joined-drained :
    {tasks : List ℕ} (ws : List Worker) → All IsExited ws → (tasks ≡ []) ⊎ IsStaffed ws → tasks ≡ []
joined-drained ws a (inl d) = d
joined-drained ws a (inr (z, l)) = absurd (omega (arith, returned_total ws a))

WorkerStep-IsClosing : {p q : ThreadPool} → WorkerStep p q → IsClosing p → IsClosing q
WorkerStep-IsClosing (worker_sleeps ws us w h e) c = clash c.stopped h
WorkerStep-IsClosing (worker_takes ws us t rest w e) c = record {
  stopped = c.stopped;
  nothing_accepted = c.nothing_accepted;
  drained = taken-drained ws t us e w c.drained;
}
WorkerStep-IsClosing (worker_leaves ws us w h e) c = record {
  stopped = c.stopped;
  nothing_accepted = c.nothing_accepted;
  drained = inl e;
}
WorkerStep-IsClosing (worker_runs ws us t w) c = record {
  stopped = c.stopped;
  nothing_accepted = c.nothing_accepted;
  drained = moved-drained ws (executing t) executed us w refl c.drained;
}
WorkerStep-IsClosing (worker_finishes ws us w) c = record {
  stopped = c.stopped;
  nothing_accepted = c.nothing_accepted;
  drained = moved-drained ws executed ready us w refl c.drained;
}

-- A step that leaves the flag, the queue and the calls of submit alone.
same_queue :
    {p q : ThreadPool}
    → q.stop ≡ p.stop
    → q.accepted ≡ p.accepted
    → ((p.tasks ≡ []) ⊎ IsStaffed p.workers → (q.tasks ≡ []) ⊎ IsStaffed q.workers)
    → IsClosing p
    → IsClosing q
same_queue s a d c = record {
  stopped = s ∙ c.stopped;
  nothing_accepted = a ∙ c.nothing_accepted;
  drained = d c.drained;
}

Step-IsClosing : {p q : ThreadPool} → Step p q → IsClosing p → IsClosing q
Step-IsClosing (work st) c = WorkerStep-IsClosing st c
Step-IsClosing (submit_accepted t h) c = clash c.stopped h
Step-IsClosing (submit_pushed xs ys t h) c =
    absurd (omega (arith, length-append xs (t ∷ ys), ap length (sym h ∙ c.nothing_accepted)))
Step-IsClosing (notified_worker ws us n h w) c =
    same_queue refl refl (moved-drained ws asleep ready us w refl) c
Step-IsClosing (notified_waiter n m h w) c = same_queue refl refl (λ d. d) c
Step-IsClosing (notified_nobody n h a w) c = same_queue refl refl (λ d. d) c
Step-IsClosing (worker_woken ws us w) c =
    same_queue refl refl (moved-drained ws asleep ready us w refl) c
Step-IsClosing (waiter_woken m w) c = same_queue refl refl (λ d. d) c
Step-IsClosing (waiter_sleeps h) c = same_queue refl refl (λ d. d) c
Step-IsClosing (shut (stop_flagged h)) c = clash c.stopped h
Step-IsClosing {p = p} (shut (stop_notified h)) c = same_queue refl refl (woken-drained p.workers) c
Step-IsClosing {p = p} (shut (stop_joined h a)) c =
    same_queue refl refl (λ d. inl (joined-drained p.workers a d)) c

closing :
    (p : ThreadPool) {q : ThreadPool}
    → Steps (record p { stop = true }) q
    → p.accepted ≡ []
    → IsStaffed p.workers
    → IsClosing q
closing p here a s = record { stopped = refl; nothing_accepted = a; drained = inr s }
closing p (later r st) a s = Step-IsClosing st (closing p r a s)

kept_along : {p q : ThreadPool} → Steps p q → IsSound p → IsSound q
kept_along here s = s
kept_along (later r st) s = Step-IsSound st (kept_along r s)

-- When stop sets its flag in a pool that no call of submit is in the middle of, and all workers have
-- returned, then every task that was ever pushed has run.
pub stop_drains :
    (thread_count hardware : ℕ) {p q : ThreadPool}
    → Steps (make_pool thread_count hardware) p
    → p.stop ≡ false
    → p.accepted ≡ []
    → Steps (record p { stop = true }) q
    → All IsExited q.workers
    → (t : ℕ) → occurrences t q.finished ≡ occurrences t q.pushed
stop_drains n hardware {p} {q} r s a after left t =
    let sound =
      kept_along after (Step-IsSound (shut (stop_flagged s)) (Steps-IsSound n hardware r)) in
    let c = closing p after a (Steps-IsStaffed n hardware r s) in
    all_run sound (joined-drained q.workers left c.drained)
      (total_of_exited busy refl q.workers left) t
