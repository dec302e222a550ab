-- ===== src/ThreadPool.antt =====
-- src/resolver/thread_pool.c: the workers and the main thread, interleaved in any order. A step is
-- one access to what the threads share: a section under `mutex_workers_alive` or under the mutex of
-- a semaphore is one step, and so is a lock or an unlock of `mutex_queue`. A thread that has to wait
-- takes a step that changes nothing. The queue is the list of its tasks, in order (its linked nodes
-- are those of resolver/queue.c); `added` and `done` are the tasks that were put into it and those
-- that were executed, the last first.
pub mod Invariant
pub mod Calm
pub mod Moves
pub mod Progress
pub mod Shutdown
mod Tests
use netproc.Base.{
  ℕ, zero, suc, ◌+◌, ◌-◌, Bool, true, false, Option, none, some, List, [], ◌∷◌, ◌++◌, if◌then◌else◌,
  ◌==◌, get_elem?, set, replicate,
}

abbrev pub default_num_workers : ℕ
default_num_workers = 3

-- The static variables of the file: `bsem_jobs.value`, `bsem_exit.value`, `worker_stop`,
-- `workers_alive`, whether `mutex_queue` is locked, the queue, and whether it was destroyed.
pub record Pool : Type 0 where
  pub jobs : Bool
  pub exit : Bool
  pub worker_stop : Bool
  pub workers_alive : ℕ
  pub locked : Bool
  pub queue : List ℕ
  pub destroyed : Bool
  pub added : List ℕ
  pub done : List ℕ

-- Where a worker stands in `th_worker`.
pub data Pc : Type 0 where
  starting : Pc
  testing : Pc
  waiting : Pc
  woken : Pc
  locking : Pc
  popping : Pc
  rearming : Option ℕ → Pc
  unlocking : Option ℕ → Pc
  running : ℕ → Pc
  leaving : Pc
  announcing : Pc
  gone : Pc

abbrev pub bsem_post : Pool → Pool
bsem_post p = record p { jobs = true }

-- `bsem_wait` of the jobs, when it may go on.
abbrev pub bsem_wait : Pool → Pool × Pc
bsem_wait p = if p.jobs then (record p { jobs = false }, woken) else (p, waiting)

-- `dequeue ( queue_task )`
abbrev pub pop : Pool → List ℕ → Pool × Pc
pop p [] = (p, rearming none)
pop p (t ∷ queue) = (record p { queue = queue }, rearming (some t))

-- `get_queue_size ( queue_task )` decides whether another thread is woken.
abbrev pub rearm : Pool → List ℕ → Pool
rearm p [] = p
rearm p (t ∷ queue) = bsem_post p

-- After the unlock there is a task to execute, or none.
abbrev pub next_task : Option ℕ → Pc
next_task none = testing
next_task (some t) = running t

-- One step of `th_worker`.
unfoldable pub th_worker : Pool → Pc → Pool × Pc
th_worker p starting = (record p { workers_alive = p.workers_alive + 1 }, testing)
th_worker p testing = (p, if p.worker_stop then leaving else waiting)
th_worker p waiting = bsem_wait p
th_worker p woken = (p, if p.worker_stop then leaving else locking)
th_worker p locking = if p.locked then (p, locking) else (record p { locked = true }, popping)
th_worker p popping = pop p p.queue
th_worker p (rearming t) = (rearm p p.queue, unlocking t)
th_worker p (unlocking t) = (record p { locked = false }, next_task t)
th_worker p (running t) = (record p { done = t ∷ p.done }, testing)
th_worker p leaving = (record p { workers_alive = p.workers_alive - 1 }, announcing)
th_worker p announcing = (record p { exit = true }, gone)
th_worker p gone = (p, gone)

-- Where the main thread stands in `add_task` and `thpool_free`.
pub data MainPc : Type 0 where
  at_rest : MainPc
  add_locking : ℕ → MainPc
  add_pushing : ℕ → MainPc
  add_posting : MainPc
  add_unlocking : MainPc
  free_testing : ℕ → MainPc
  free_waiting : ℕ → MainPc
  free_locking : MainPc
  free_destroying : MainPc
  free_unlocking : MainPc
  finished : MainPc

-- What the main thread is to do: begin a call where it is at rest, or go on, with or without memory
-- for the node of the queue.
pub data Command : Type 0 where
  add_task : ℕ → Command
  thpool_free : Command
  go_on : Command
  no_memory : Command

abbrev pub begin : Command → Pool → Pool × MainPc
begin (add_task t) p = (p, add_locking t)
begin thpool_free p = (record p { worker_stop = true }, free_testing default_num_workers)
begin go_on p = (p, at_rest)
begin no_memory p = (p, at_rest)

-- `enqueue`, or its failure.
abbrev pub push : Command → Pool → ℕ → Pool × MainPc
push no_memory p t = (p, add_unlocking)
push go_on p t = (record p { queue = p.queue ++ (t ∷ []); added = t ∷ p.added }, add_posting)
push (add_task u) p t = (record p { queue = p.queue ++ (t ∷ []); added = t ∷ p.added }, add_posting)
push thpool_free p t = (record p { queue = p.queue ++ (t ∷ []); added = t ∷ p.added }, add_posting)

-- `workers_alive && wait--`, and the broadcast.
abbrev pub test_alive : Pool → ℕ → Pool × MainPc
test_alive p zero = (p, free_locking)
test_alive p (suc wait) =
    if p.workers_alive == 0 then (p, free_locking) else (bsem_post p, free_waiting wait)

unfoldable pub main_step : Command → Pool → MainPc → Pool × MainPc
main_step c p at_rest = begin c p
main_step c p (add_locking t) =
    if p.locked then (p, add_locking t) else (record p { locked = true }, add_pushing t)
main_step c p (add_pushing t) = push c p t
main_step c p add_posting = (bsem_post p, add_unlocking)
main_step c p add_unlocking = (record p { locked = false }, at_rest)
main_step c p (free_testing wait) = test_alive p wait
main_step c p (free_waiting wait) =
    if p.exit then (record p { exit = false }, free_testing wait) else (p, free_waiting wait)
main_step c p free_locking =
    if p.locked then (p, free_locking) else (record p { locked = true }, free_destroying)
main_step c p free_destroying = (record p { queue = []; destroyed = true }, free_unlocking)
main_step c p free_unlocking = (record p { locked = false }, finished)
main_step c p finished = (p, finished)

pub record System : Type 0 where
  pub pool : Pool
  pub main : MainPc
  pub workers : List Pc

-- Whose turn it is.
pub data Turn : Type 0 where
  worker : ℕ → Turn
  main_thread : Command → Turn

abbrev pub worker_at : System → ℕ → Option Pc → System
worker_at s i none = s
worker_at s i (some pc) =
    let (p, pc') = th_worker s.pool pc in record s { pool = p; workers = set s.workers i pc' }

unfoldable pub turn : Turn → System → System
unfolding th_worker main_step
turn (worker i) s = worker_at s i (get_elem? s.workers i)
turn (main_thread c) s = let (p, m) = main_step c s.pool s.main in record s { pool = p; main = m }

-- `thpool_init`: a pool of `n` workers that have been created.
abbrev pub thpool_init : ℕ → System
thpool_init n = record {
  pool = record {
    jobs = false;
    exit = false;
    worker_stop = false;
    workers_alive = 0;
    locked = false;
    queue = [];
    destroyed = false;
    added = [];
    done = [];
  };
  main = at_rest;
  workers = replicate n starting;
}

-- Turns in any order, the last first.
unfoldable pub run : List Turn → ℕ → System
unfolding turn
run [] n = thpool_init n
run (t ∷ turns) n = turn t (run turns n)
