-- ===== src/Concurrency/ThreadPool.antt =====
-- concurrency/thread_pool.cpp. The mutex makes what a thread does between taking and releasing it one
-- step; a task runs outside of it, from the step that takes it to the one that ends it. A task is the
-- number of the call of Submit that brought it.
pub mod Order
pub mod Shutdown
use neural_kv.Prelude.{
  ℕ, zero, suc, List, [], ◌∷◌, ◌++◌, Bool, true, false, ◌≡◌, if◌then◌else◌, length,
}

-- What a worker is doing: at the wait of its loop, in a task, or returned.
pub data Worker : Type 0 where
  waiting : Worker
  running : ℕ → Worker
  returned : Worker

-- The members, with what a history of the pool is needed for: the tasks that were queued, those that a
-- worker took and those that ended, each in the order in which it happened.
pub record Pool : Type 0 where
  pub workers : List Worker
  pub tasks : List ℕ
  pub stop : Bool
  pub submitted : ℕ
  pub queued : List ℕ
  pub taken : List ℕ
  pub ended : List ℕ

unfoldable pub idle_workers : ℕ → List Worker
idle_workers zero = []
idle_workers (suc n) = waiting ∷ idle_workers n

-- The constructor
abbrev pub thread_pool : ℕ → Pool
thread_pool num_workers = record {
  workers = idle_workers num_workers;
  tasks = [];
  stop = false;
  submitted = 0;
  queued = [];
  taken = [];
  ended = [];
}

-- Submit
unfoldable pub submit : Pool → Pool
submit p = if p.stop then record p { submitted = suc p.submitted } else record p {
  submitted = suc p.submitted;
  tasks = p.tasks ++ (p.submitted ∷ []);
  queued = p.queued ++ (p.submitted ∷ []);
}

-- The destructor until it joins.
unfoldable pub begin_stop : Pool → Pool
begin_stop p = record p { stop = true }

-- What a worker at its wait does when it is scheduled: nothing while the predicate of the wait is false,
-- else it returns or takes the front of the queue, which is given apart.
unfoldable pub wake : List ℕ → Pool → Worker × Pool
wake [] p = if p.stop then (returned, p) else (waiting, p)
wake (task ∷ tasks) p = (running task, record p { tasks = tasks; taken = p.taken ++ (task ∷ []) })

-- WorkerLoop, from one release of the mutex to the next.
unfoldable pub advance : Worker → Pool → Worker × Pool
unfolding wake
advance waiting p = wake p.tasks p
advance (running task) p = (waiting, record p { ended = p.ended ++ (task ∷ []) })
advance returned p = (returned, p)

-- A step of the pool: a call of Submit, the destructor, or one of the threads, with the threads before and
-- behind it left as they are.
pub data Step : Pool → Pool → Type 0 where
  submits : (p : Pool) → Step p (submit p)
  stops : (p : Pool) → Step p (begin_stop p)
  advances :
      (p : Pool) (before behind : List Worker) (w : Worker)
      → p.workers ≡ before ++ (w ∷ behind)
      → Step p (record (advance w p).1 { workers = before ++ ((advance w p).0 ∷ behind) })

pub data Run : Pool → Pool → Type 0 where
  start : (p : Pool) → Run p p
  next : {p q r : Pool} → Run p q → Step q r → Run p r

-- ~ThreadPool returns when every worker has.
unfoldable pub all_returned : List Worker → Bool
all_returned [] = true
all_returned (returned ∷ ws) = all_returned ws
all_returned (waiting ∷ ws) = false
all_returned (running task ∷ ws) = false
