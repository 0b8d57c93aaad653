-- ===== src/ThreadPool/Abandoned.antt =====
-- A submit of include/thread_pool.h that is between its test of stop_ and its push while stop runs.
use my_mprpc.Prelude.{
  ℕ, zero, suc, replicate, ◌≡◌, refl, sym, ap, ◌∙◌, true, List, [], ◌∷◌, ◌++◌, append_assoc,
  append-nil, arith, map, All, subst,
}
use my_mprpc.ThreadPool.{
  ThreadPool, make_pool, thread_count_of, Worker, ready, asleep, executed, exited, executing,
}
use my_mprpc.ThreadPool.Steps.{
  WorkerStep, worker_sleeps, worker_takes, worker_leaves, worker_runs, worker_finishes, Step, work,
  shut, submit_accepted, submit_pushed, notified_worker, notified_waiter, notified_nobody,
  worker_woken, waiter_woken, waiter_sleeps, stop_flagged, stop_notified, stop_joined, Steps, here,
  later, wake, IsExited,
}
use my_mprpc.ThreadPool.Workers.{is_exited}

exited_in :
    (ws : List Worker) (w : Worker) (us : List Worker)
    → All IsExited (ws ++ w ∷ us)
    → is_exited w ≡ 1
exited_in [] w us (e, a) = rw e refl
exited_in (v ∷ ws) w us (e, a) = exited_in ws w us a

exited_at :
    {all : List Worker} (ws : List Worker) (w : Worker) (us : List Worker)
    → all ≡ ws ++ w ∷ us
    → All IsExited all
    → is_exited w ≡ 1
exited_at ws w us h a = exited_in ws w us (subst (All IsExited) h a)

wake-All : (ws : List Worker) → All IsExited ws → All IsExited (map wake ws)
wake-All [] a = tt
wake-All (w ∷ ws) (e, a) = (ap wake e, wake-All ws a)

-- From `p` on all workers have returned, none of the queue was started, and tasks only join it.
record IsAbandoned (p q : ThreadPool) : Type 0 where
  stopped : q.stop ≡ true
  all_exited : All IsExited q.workers
  none_started : q.started ≡ p.started
  none_run : q.finished ≡ p.finished
  queued : (more : List ℕ) × (q.tasks ≡ p.tasks ++ more)

idle :
    {A : Type 0} {p q : ThreadPool} (ws : List Worker) (w : Worker) (us : List Worker)
    → q.workers ≡ ws ++ w ∷ us
    → is_exited w ≡ 0
    → IsAbandoned p q
    → A
idle ws w us h z a = absurd (omega (arith, exited_at ws w us h a.all_exited))

left_alone :
    {p q r : ThreadPool}
    → r.stop ≡ q.stop
    → All IsExited r.workers
    → r.started ≡ q.started
    → r.finished ≡ q.finished
    → r.tasks ≡ q.tasks
    → IsAbandoned p q
    → IsAbandoned p r
left_alone s w b f t a = record {
  stopped = s ∙ a.stopped;
  all_exited = w;
  none_started = b ∙ a.none_started;
  none_run = f ∙ a.none_run;
  queued = (a.queued.0, t ∙ a.queued.1);
}

WorkerStep-IsAbandoned : {p q r : ThreadPool} → WorkerStep q r → IsAbandoned p q → IsAbandoned p r
WorkerStep-IsAbandoned (worker_sleeps ws us w h e) a = idle ws ready us w refl a
WorkerStep-IsAbandoned (worker_takes ws us t rest w e) a = idle ws ready us w refl a
WorkerStep-IsAbandoned (worker_leaves ws us w h e) a = idle ws ready us w refl a
WorkerStep-IsAbandoned (worker_runs ws us t w) a = idle ws (executing t) us w refl a
WorkerStep-IsAbandoned (worker_finishes ws us w) a = idle ws executed us w refl a

Step-IsAbandoned : {p q r : ThreadPool} → Step q r → IsAbandoned p q → IsAbandoned p r
Step-IsAbandoned (work st) a = WorkerStep-IsAbandoned st a
Step-IsAbandoned (submit_accepted t h) a = left_alone refl a.all_exited refl refl refl a
Step-IsAbandoned {p = p} (submit_pushed xs ys t h) a = record {
  stopped = a.stopped;
  all_exited = a.all_exited;
  none_started = a.none_started;
  none_run = a.none_run;
  queued = (
    a.queued.0 ++ t ∷ [],
    ap (λ ts. ts ++ t ∷ []) a.queued.1 ∙ append_assoc p.tasks a.queued.0 (t ∷ []),
  );
}
Step-IsAbandoned (notified_worker ws us n h w) a = idle ws asleep us w refl a
Step-IsAbandoned (notified_waiter n m h w) a = left_alone refl a.all_exited refl refl refl a
Step-IsAbandoned (notified_nobody n h b w) a = left_alone refl a.all_exited refl refl refl a
Step-IsAbandoned (worker_woken ws us w) a = idle ws asleep us w refl a
Step-IsAbandoned (waiter_woken m w) a = left_alone refl a.all_exited refl refl refl a
Step-IsAbandoned (waiter_sleeps h) a = left_alone refl a.all_exited refl refl refl a
Step-IsAbandoned (shut (stop_flagged h)) a =
    left_alone (sym a.stopped) a.all_exited refl refl refl a
Step-IsAbandoned {q = q} (shut (stop_notified h)) a =
    left_alone refl (wake-All q.workers a.all_exited) refl refl refl a
Step-IsAbandoned (shut (stop_joined h b)) a = left_alone refl tt refl refl refl a

abandoned :
    {p q : ThreadPool} → p.stop ≡ true → All IsExited p.workers → Steps p q → IsAbandoned p q
abandoned {p = p} s w here = record {
  stopped = s;
  all_exited = w;
  none_started = refl;
  none_run = refl;
  queued = ([], sym (append-nil p.tasks));
}
abandoned s w (later r st) = Step-IsAbandoned st (abandoned s w r)

-- Once stop has set its flag and all workers have returned, nothing that is or comes into the queue
-- is ever run: its order is kept, no task is started and none finishes.
tasks_abandoned :
    {p q : ThreadPool}
    → p.stop ≡ true
    → All IsExited p.workers
    → Steps p q
    → (q.started ≡ p.started)
      × (q.finished ≡ p.finished)
      × ((more : List ℕ) × (q.tasks ≡ p.tasks ++ more))
tasks_abandoned s w r = let a = abandoned s w r in (a.none_started, a.none_run, a.queued)

All-append : (ws us : List Worker) → All IsExited ws → All IsExited us → All IsExited (ws ++ us)
All-append [] us a b = b
All-append (w ∷ ws) us (e, a) b = (e, All-append ws us a b)

-- With the queue empty and the flag set, the workers at the heads of their loops return one after
-- the other.
workers_leave :
    {p : ThreadPool} (n : ℕ) (gone : List Worker) (q : ThreadPool)
    → q.stop ≡ true
    → q.tasks ≡ []
    → All IsExited gone
    → Steps p (record q { workers = gone ++ replicate n ready })
    → (ws : List Worker) × All IsExited ws × Steps p (record q { workers = ws })
workers_leave zero gone q s e a run = (gone ++ [], All-append gone [] a tt, run)
workers_leave {p = p} (suc n) gone q s e a run =
    let left : Steps p (record q { workers = gone ++ exited ∷ replicate n ready }) =
      later run (work (worker_leaves gone (replicate n ready) refl s e)) in
    workers_leave n (gone ++ exited ∷ []) q s e (All-append gone (exited ∷ []) a (refl, tt)) (
      subst (λ ws. Steps p (record q { workers = ws }))
        (sym (append_assoc gone (exited ∷ []) (replicate n ready))) left)

-- Without its condition on calls of submit, stop_drains fails for pools of every size: a new pool
-- can come to a state in which submit has tested stop_, stop has set it, the workers have returned,
-- and submit has pushed its task; whatever the threads do from there, no task is ever run, and this
-- one stays at the head of the queue.
pub tasks_lost :
    (thread_count hardware t : ℕ)
    → (q : ThreadPool) × Steps (make_pool thread_count hardware) q
      × (q.pushed ≡ t ∷ [])
      × ((r : ThreadPool)
          → Steps q r
          → (r.started ≡ []) × (r.finished ≡ []) × ((more : List ℕ) × (r.tasks ≡ t ∷ more)))
unfolding make_pool
tasks_lost thread_count hardware t =
    let n = thread_count_of thread_count hardware in
    let p = make_pool thread_count hardware in
    let flagged : ThreadPool = record p { accepted = t ∷ []; stop = true } in
    let (ws, gone, run) =
      workers_leave {p = p} n [] flagged refl refl tt
        (later (later here (submit_accepted t refl)) (shut (stop_flagged refl))) in
    let q : ThreadPool = record flagged {
      workers = ws;
      accepted = [];
      tasks = t ∷ [];
      notifications = 1;
      pushed = t ∷ [];
    } in
    (
      q,
      later run (submit_pushed [] [] t refl),
      refl,
      λ r st. tasks_abandoned {p = q} {q = r} refl gone st,
    )
