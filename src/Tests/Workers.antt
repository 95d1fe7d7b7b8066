-- ===== src/Tests/Workers.antt =====
-- The pool of threads: one worker, two tasks, and the destructor.
use neural_kv.Prelude.{ℕ, ◌≤◌, ◌≡◌, refl, List, [], ◌∷◌, true}
use neural_kv.Concurrency.ThreadPool.{
  Pool, Worker, waiting, running, returned, thread_pool, idle_workers, submit, begin_stop, wake,
  advance, Step, submits, stops, advances, Run, start, next, all_returned,
}
use neural_kv.Concurrency.ThreadPool.Order.{count, IsOrderly, thread_pool-IsOrderly}
use neural_kv.Concurrency.ThreadPool.Shutdown.{all_returned_drained}

-- The pool of one worker with `workers` as its state, after two calls of Submit.
abbrev pool : Worker → List ℕ → List ℕ → List ℕ → Pool
pool w tasks taken ended = record {
  workers = w ∷ [];
  tasks = tasks;
  stop = true;
  submitted = 2;
  queued = 0 ∷ 1 ∷ [];
  taken = taken;
  ended = ended;
}

one_moves :
    (p : Pool) (w : Worker)
    → p.workers ≡ w ∷ []
    → Step p (record (advance w p).1 { workers = (advance w p).0 ∷ [] })
one_moves p w here = advances p [] [] w here

two_submitted : Run (thread_pool 1) (pool waiting (0 ∷ 1 ∷ []) [] [])
unfolding submit begin_stop idle_workers
two_submitted = next (next (next (start (thread_pool 1)) (submits _)) (submits _)) (stops _)

all_done : Run (thread_pool 1) (pool returned [] (0 ∷ 1 ∷ []) (0 ∷ 1 ∷ []))
unfolding advance wake
all_done =
    let r₁ : Run (thread_pool 1) (pool (running 0) (1 ∷ []) (0 ∷ []) []) =
      next two_submitted (one_moves (pool waiting (0 ∷ 1 ∷ []) [] []) waiting refl) in
    let r₂ : Run (thread_pool 1) (pool waiting (1 ∷ []) (0 ∷ []) (0 ∷ [])) =
      next r₁ (one_moves (pool (running 0) (1 ∷ []) (0 ∷ []) []) (running 0) refl) in
    let r₃ : Run (thread_pool 1) (pool (running 1) [] (0 ∷ 1 ∷ []) (0 ∷ [])) =
      next r₂ (one_moves (pool waiting (1 ∷ []) (0 ∷ []) (0 ∷ [])) waiting refl) in
    let r₄ : Run (thread_pool 1) (pool waiting [] (0 ∷ 1 ∷ []) (0 ∷ 1 ∷ [])) =
      next r₃ (one_moves (pool (running 1) [] (0 ∷ 1 ∷ []) (0 ∷ [])) (running 1) refl) in
    next r₄ (one_moves (pool waiting [] (0 ∷ 1 ∷ []) (0 ∷ 1 ∷ [])) waiting refl)

done_returned : all_returned (returned ∷ []) ≡ true
unfolding all_returned
done_returned = refl

thread_pool-IsOrderly_example : IsOrderly (pool returned [] (0 ∷ 1 ∷ []) (0 ∷ 1 ∷ []))
thread_pool-IsOrderly_example =
    thread_pool-IsOrderly 1 (pool returned [] (0 ∷ 1 ∷ []) (0 ∷ 1 ∷ [])) all_done

all_returned_drained_example :
    let p = pool returned [] (0 ∷ 1 ∷ []) (0 ∷ 1 ∷ []) in
    (p.stop ≡ true)
    × (p.tasks ≡ [])
    × ((t : ℕ) → count t p.ended ≡ count t p.queued)
    × ((t : ℕ) → count t p.ended ≤ 1)
all_returned_drained_example =
    all_returned_drained 0 (pool returned [] (0 ∷ 1 ∷ []) (0 ∷ 1 ∷ [])) all_done done_returned
