-- ===== src/Concurrency/ThreadPool/Shutdown.antt =====
-- What the destructor leaves.
use neural_kv.Prelude.{
  ℕ, zero, suc, ◌≤◌, ◌≡◌, refl, ap, ◌∙◌, inl, inr, List, [], ◌∷◌, ◌++◌, Bool, true, false, ◌||◌,
  arith, Bool-cases, append-nil, length, length-append,
}
use neural_kv.Concurrency.ThreadPool.{
  Worker, waiting, running, returned, Pool, idle_workers, thread_pool, submit, begin_stop, wake,
  advance, submits, stops, advances, Run, start, next, all_returned,
}
use neural_kv.Concurrency.ThreadPool.Order.{count, in_hand, thread_pool-IsOrderly}

any_returned : List Worker → Bool
any_returned [] = false
any_returned (returned ∷ ws) = true
any_returned (waiting ∷ ws) = any_returned ws
any_returned (running task ∷ ws) = any_returned ws

any_returned-append :
    (ws us : List Worker) → any_returned (ws ++ us) ≡ (any_returned ws || any_returned us)
unfolding any_returned
any_returned-append [] us = refl
any_returned-append (returned ∷ ws) us = refl
any_returned-append (waiting ∷ ws) us = any_returned-append ws us
any_returned-append (running task ∷ ws) us = any_returned-append ws us

-- No worker returns before the pool is told to stop and its queue is empty, and no worker is lost.
record IsDraining (n : ℕ) (p : Pool) : Type 0 where
  leaves : any_returned p.workers ≡ true → (p.stop ≡ true) × (p.tasks ≡ [])
  workers_there : length p.workers ≡ n

submit-IsDraining : (n : ℕ) (p : Pool) → IsDraining n p → IsDraining n (submit p)
unfolding submit
submit-IsDraining n p d = elim (Bool-cases p.stop) [
  | inl stopped ↦
      rw (submit, stopped)
        (record {
          leaves = λ some_left. (refl, (d.leaves some_left).1);
          workers_there = d.workers_there;
        })
  | inr accepts ↦
      rw (submit, accepts)
        (record {
          leaves = λ some_left. absurd (ground (arith, accepts, (d.leaves some_left).0));
          workers_there = d.workers_there;
        })
]

wake-IsDraining :
    (n : ℕ) (tasks : List ℕ) (p : Pool) (before behind : List Worker)
    → p.tasks ≡ tasks
    → p.workers ≡ before ++ (waiting ∷ behind)
    → IsDraining n p
    → IsDraining n (record (wake tasks p).1 { workers = before ++ ((wake tasks p).0 ∷ behind) })
unfolding wake any_returned
wake-IsDraining n [] p before behind here at d = elim (Bool-cases p.stop) [
  | inl stopped ↦
      rw (wake, stopped)
        (record {
          leaves = λ some_left. (refl, here);
          workers_there = ground (
            arith,
            at,
            d.workers_there,
            length-append before (waiting ∷ behind),
            length-append before (returned ∷ behind),
          );
        })
  | inr accepts ↦
      rw (wake, accepts)
        (record {
          leaves = λ some_left.
              absurd (ground (arith, accepts, d.leaves (ground (arith, at, some_left))));
          workers_there = ground (arith, at, d.workers_there);
        })
]
wake-IsDraining n (task ∷ tasks) p before behind here at d = record {
  leaves = λ some_left. absurd (
      ground (
        arith,
        here,
        d.leaves (
            ground (
              arith,
              at,
              some_left,
              any_returned-append before (waiting ∷ behind),
              any_returned-append before (running task ∷ behind),
            )),
      ));
  workers_there = ground (
    arith,
    at,
    d.workers_there,
    length-append before (waiting ∷ behind),
    length-append before (running task ∷ behind),
  );
}

advance-IsDraining :
    (n : ℕ) (p : Pool) (before behind : List Worker) (w : Worker)
    → p.workers ≡ before ++ (w ∷ behind)
    → IsDraining n p
    → IsDraining n (record (advance w p).1 { workers = before ++ ((advance w p).0 ∷ behind) })
unfolding advance any_returned
advance-IsDraining n p before behind waiting at d =
    wake-IsDraining n p.tasks p before behind refl at d
advance-IsDraining n p before behind (running task) at d = record {
  leaves = λ some_left. d.leaves (
      ground (
        arith,
        at,
        some_left,
        any_returned-append before (waiting ∷ behind),
        any_returned-append before (running task ∷ behind),
      ));
  workers_there = ground (
    arith,
    at,
    d.workers_there,
    length-append before (waiting ∷ behind),
    length-append before (running task ∷ behind),
  );
}
advance-IsDraining n p before behind returned at d = record {
  leaves = λ some_left. d.leaves (ground (arith, at, some_left));
  workers_there = ground (arith, at, d.workers_there);
}

run-IsDraining : {p q : Pool} (n : ℕ) → Run p q → IsDraining n p → IsDraining n q
unfolding begin_stop
run-IsDraining n (start p) d = d
run-IsDraining n (next run (submits p)) d = submit-IsDraining n p (run-IsDraining n run d)
run-IsDraining n (next run (stops p)) d =
    let here = run-IsDraining n run d in
    record {
      leaves = λ some_left. (refl, (here.leaves some_left).1);
      workers_there = here.workers_there;
    }
run-IsDraining n (next run (advances p before behind w at)) d =
    advance-IsDraining n p before behind w at (run-IsDraining n run d)

idle_return : (n : ℕ) → any_returned (idle_workers n) ≡ false
unfolding any_returned idle_workers
idle_return zero = refl
idle_return (suc n) = idle_return n

length-idle_workers : (n : ℕ) → length (idle_workers n) ≡ n
unfolding idle_workers
length-idle_workers zero = refl
length-idle_workers (suc n) = ap (λ k. suc k) (length-idle_workers n)

all_then_any :
    (ws : List Worker) (n : ℕ) → length ws ≡ suc n → all_returned ws ≡ true → any_returned ws ≡ true
unfolding all_returned any_returned
all_then_any [] n h all = absurd (ground (arith, h))
all_then_any (returned ∷ ws) n h all = refl
all_then_any (waiting ∷ ws) n h all = absurd (ground (arith, all))
all_then_any (running task ∷ ws) n h all = absurd (ground (arith, all))

all_idle : (t : ℕ) (ws : List Worker) → all_returned ws ≡ true → in_hand t ws ≡ 0
unfolding all_returned in_hand
all_idle t [] all = refl
all_idle t (returned ∷ ws) all = all_idle t ws all
all_idle t (waiting ∷ ws) all = absurd (ground (arith, all))
all_idle t (running task ∷ ws) all = absurd (ground (arith, all))

-- When every worker of a pool with at least one has returned, as the destructor waits for: the pool
-- was told to stop, no task is left in the queue, and each task that was queued was run to its end
-- exactly once.
pub all_returned_drained :
    (n : ℕ) (p : Pool)
    → Run (thread_pool (suc n)) p
    → all_returned p.workers ≡ true
    → (p.stop ≡ true)
      × (p.tasks ≡ [])
      × ((t : ℕ) → count t p.ended ≡ count t p.queued)
      × ((t : ℕ) → count t p.ended ≤ 1)
unfolding idle_workers
all_returned_drained n p run all =
    let first : IsDraining (suc n) (thread_pool (suc n)) = record {
      leaves = λ some_left. absurd (ground (arith, idle_return (suc n), some_left));
      workers_there = length-idle_workers (suc n);
    } in
    let d = run-IsDraining (suc n) run first in
    let o = thread_pool-IsOrderly (suc n) p run in
    let (stopped, drained) = d.leaves (all_then_any p.workers n d.workers_there all) in
    let whole : p.queued ≡ p.taken = o.fifo ∙ ap (λ q. p.taken ++ q) drained ∙ append-nil p.taken in
    let same : (t : ℕ) → count t p.ended ≡ count t p.queued =
      λ t. ground (arith, whole, o.busy t, all_idle t p.workers all) in
    (stopped, drained, same, λ t. ground (arith, same t, o.once t))
