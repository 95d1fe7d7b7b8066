-- ===== src/Concurrency/ThreadPool/Order.antt =====
-- The order in which the tasks are taken, and that each is run once.
use neural_kv.Prelude.{
  ℕ, zero, suc, ◌+◌, ◌≤◌, ◌≡◌, refl, sym, ap, ◌∙◌, inl, inr, List, [], ◌∷◌, ◌++◌, arith, Bool-cases,
  ◌==◌, if◌then◌else◌, append_assoc,
}
use neural_kv.Concurrency.ThreadPool.{
  Worker, waiting, running, returned, Pool, idle_workers, thread_pool, submit, begin_stop, wake,
  advance, submits, stops, advances, Run, start, next,
}

-- How often a task occurs in a list.
unfoldable pub count : ℕ → List ℕ → ℕ
count t [] = 0
count t (x ∷ xs) = let rest = count t xs in if x == t then suc rest else rest

-- How many workers are running it.
unfoldable pub in_hand : ℕ → List Worker → ℕ
in_hand t [] = 0
in_hand t (waiting ∷ ws) = in_hand t ws
in_hand t (running task ∷ ws) = let rest = in_hand t ws in if task == t then suc rest else rest
in_hand t (returned ∷ ws) = in_hand t ws

pub count-append : (t : ℕ) (xs ys : List ℕ) → count t (xs ++ ys) ≡ count t xs + count t ys
unfolding count
count-append t [] ys = omega arith
count-append t (x ∷ xs) ys = ground (arith, count-append t xs ys)

in_hand-append : (t : ℕ) (ws us : List Worker) → in_hand t (ws ++ us) ≡ in_hand t ws + in_hand t us
unfolding in_hand
in_hand-append t [] us = omega arith
in_hand-append t (waiting ∷ ws) us = in_hand-append t ws us
in_hand-append t (running task ∷ ws) us = ground (arith, in_hand-append t ws us)
in_hand-append t (returned ∷ ws) us = in_hand-append t ws us

-- The tasks that were taken, with those that wait, are those that were queued, in that order; no task was
-- queued twice, and none that is still to come; a task was taken as often as it ended or is being run.
pub record IsOrderly (p : Pool) : Type 0 where
  pub fifo : p.queued ≡ p.taken ++ p.tasks
  pub to_come : (t : ℕ) → p.submitted ≤ t → count t p.queued ≡ 0
  pub once : (t : ℕ) → count t p.queued ≤ 1
  pub busy : (t : ℕ) → count t p.taken ≡ count t p.ended + in_hand t p.workers

submit-IsOrderly : (p : Pool) → IsOrderly p → IsOrderly (submit p)
unfolding submit count
submit-IsOrderly p o = elim (Bool-cases p.stop) [
  | inl stopped ↦
      rw (submit, stopped)
        (record {
          fifo = o.fifo;
          to_come = λ t above. o.to_come t (omega arith);
          once = o.once;
          busy = o.busy;
        })
  | inr accepts ↦
      rw (submit, accepts)
        (record {
          fifo =
              ap (λ q. q ++ (p.submitted ∷ [])) o.fifo
              ∙ append_assoc p.taken p.tasks (p.submitted ∷ []);
          to_come =
              λ t above. ground (arith, count-append t p.queued (p.submitted ∷ []), o.to_come t);
          once = λ t.
              ground (arith, count-append t p.queued (p.submitted ∷ []), o.to_come t, o.once t);
          busy = o.busy;
        })
]

wake-IsOrderly :
    (tasks : List ℕ) (p : Pool) (before behind : List Worker)
    → p.tasks ≡ tasks
    → p.workers ≡ before ++ (waiting ∷ behind)
    → IsOrderly p
    → IsOrderly (record (wake tasks p).1 { workers = before ++ ((wake tasks p).0 ∷ behind) })
unfolding wake in_hand count
wake-IsOrderly [] p before behind here at o = elim (Bool-cases p.stop) [
  | inl stopped ↦
      rw (wake, stopped)
        (record {
          fifo = o.fifo;
          to_come = o.to_come;
          once = o.once;
          busy = λ t. ground (
            arith,
            at,
            o.busy t,
            in_hand-append t before (waiting ∷ behind),
            in_hand-append t before (returned ∷ behind),
          );
        })
  | inr accepts ↦
      rw (wake, accepts)
        (record {
          fifo = o.fifo;
          to_come = o.to_come;
          once = o.once;
          busy = λ t. ground (arith, at, o.busy t);
        })
]
wake-IsOrderly (task ∷ tasks) p before behind here at o = record {
  fifo = o.fifo ∙ ap (λ q. p.taken ++ q) here ∙ sym (append_assoc p.taken (task ∷ []) tasks);
  to_come = o.to_come;
  once = o.once;
  busy = λ t. ground (
    arith,
    at,
    o.busy t,
    in_hand-append t before (waiting ∷ behind),
    in_hand-append t before (running task ∷ behind),
    count-append t p.taken (task ∷ []),
  );
}

advance-IsOrderly :
    (p : Pool) (before behind : List Worker) (w : Worker)
    → p.workers ≡ before ++ (w ∷ behind)
    → IsOrderly p
    → IsOrderly (record (advance w p).1 { workers = before ++ ((advance w p).0 ∷ behind) })
unfolding advance in_hand count
advance-IsOrderly p before behind waiting at o = wake-IsOrderly p.tasks p before behind refl at o
advance-IsOrderly p before behind (running task) at o = record {
  fifo = o.fifo;
  to_come = o.to_come;
  once = o.once;
  busy = λ t. ground (
    arith,
    at,
    o.busy t,
    in_hand-append t before (waiting ∷ behind),
    in_hand-append t before (running task ∷ behind),
    count-append t p.ended (task ∷ []),
  );
}
advance-IsOrderly p before behind returned at o = record {
  fifo = o.fifo;
  to_come = o.to_come;
  once = o.once;
  busy = λ t. ground (arith, at, o.busy t);
}

run-IsOrderly : {p q : Pool} → Run p q → IsOrderly p → IsOrderly q
unfolding begin_stop
run-IsOrderly (start p) o = o
run-IsOrderly (next run (submits p)) o = submit-IsOrderly p (run-IsOrderly run o)
run-IsOrderly (next run (stops p)) o =
    let here = run-IsOrderly run o in
    record { fifo = here.fifo; to_come = here.to_come; once = here.once; busy = here.busy }
run-IsOrderly (next run (advances p before behind w at)) o =
    advance-IsOrderly p before behind w at (run-IsOrderly run o)

idle_in_hand : (t n : ℕ) → in_hand t (idle_workers n) ≡ 0
unfolding in_hand idle_workers
idle_in_hand t zero = refl
idle_in_hand t (suc n) = idle_in_hand t n

-- However calls of Submit, the destructor and the workers follow one another: the tasks that
-- workers took, with those that wait, are those that were queued in the order in which they were;
-- none was queued twice; and a task that was taken has ended or is being run by one worker.
pub thread_pool-IsOrderly :
    (num_workers : ℕ) (p : Pool) → Run (thread_pool num_workers) p → IsOrderly p
unfolding count
thread_pool-IsOrderly num_workers p run = run-IsOrderly run (record {
  fifo = refl;
  to_come = λ t above. refl;
  once = λ t. omega arith;
  busy = λ t. ground (arith, idle_in_hand t num_workers);
})
