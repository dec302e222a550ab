-- ===== src/ThreadPool/Tests.antt =====
-- Runs of the thread pool of src/resolver/thread_pool.c, and the theorems at them.
use netproc.Base.{
  ap, ◌≤◌, ℕ, zero, suc, ◌<◌, ◌≡◌, refl, true, some, List, [], ◌∷◌, ◌++◌, get_elem?, arith, to_nat,
  ◌+◌, total,
}
use netproc.ThreadPool.{
  unlocking, rearming, popping, waiting, gone, th_worker, main_step, add_task, thpool_free, go_on,
  Turn, worker, main_thread, turn, run,
}
use netproc.ThreadPool.Invariant.{
  main_holds, comes, main_comes, carries, is_task, run-exclusive, run-awake, run-kept,
}
use netproc.ThreadPool.Shutdown.{uses, run-destroyed}
use netproc.ThreadPool.Progress.{effort, AllChange, run-bounded, run-settled}

-- `k` turns of one thread.
abbrev times : ℕ → Turn → List Turn
times zero t = []
times (suc k) t = t ∷ times k t

-- Two workers that wait, then a task added by the main thread.
abbrev added : List Turn
added =
    times 4 (main_thread go_on)
    ++ (main_thread (add_task 7) ∷ (times 2 (worker 1) ++ times 2 (worker 0)))

abbrev popped : List Turn
popped = times 4 (worker 0) ++ added

abbrev executed : List Turn
executed = times 4 (worker 0) ++ popped

popped_test :
    (get_elem? (run popped 2).workers 0 ≡ some (rearming (some 7)))
    × ((run popped 2).pool.queue ≡ [])
unfolding run turn th_worker main_step
popped_test = (refl, refl)

executed_test :
    ((run executed 2).pool.done ≡ 7 ∷ []) × ((run executed 2).workers ≡ waiting ∷ waiting ∷ [])
unfolding run turn th_worker main_step
executed_test = (refl, refl)

-- A worker leaves in a round of `thpool_free`.
abbrev round_of : ℕ → List Turn
round_of i = main_thread go_on ∷ (times 4 (worker i) ++ (main_thread go_on ∷ []))

-- Four workers: the last is woken for a task and stands before the lock when `thpool_free` begins;
-- after three rounds the queue is destroyed, and that worker then takes the lock and goes on to it.
abbrev four : List Turn
four =
    worker 3
    ∷ (times 4 (main_thread go_on)
        ++ (round_of 2
            ++ (round_of 1
                ++ (round_of 0
                    ++ (main_thread thpool_free
                        ∷ (times 2 (worker 3)
                            ++ (times 4 (main_thread go_on)
                                ++ (main_thread (add_task 7)
                                    ∷ (times 2 (worker 3)
                                        ++ (times 2 (worker 2)
                                            ++ (times 2 (worker 1) ++ times 2 (worker 0))))))))))))

four_test : (get_elem? (run four 4).workers 3 ≡ some popping) × ((run four 4).pool.destroyed ≡ true)
unfolding run turn th_worker main_step
four_test = (refl, refl)

-- Two workers, both gone before the queue is destroyed.
abbrev two_gone : List Turn
two_gone =
    times 4 (main_thread go_on)
    ++ (round_of 1
        ++ (round_of 0 ++ (main_thread thpool_free ∷ (times 2 (worker 1) ++ times 2 (worker 0)))))

run-exclusive_example : (◌≡◌ {A = ℕ} 0 0) × (main_holds (run popped 2).main ≡ 0)
unfolding run turn th_worker main_step
run-exclusive_example =
    run-exclusive popped 2 0 0 (rearming (some 7)) (rearming (some 7)) refl refl refl refl

run-awake_example :
    0
    < to_nat (run added 2).pool.jobs
      + total comes (run added 2).workers
      + main_comes (run added 2).main
unfolding run turn th_worker main_step
run-awake_example = run-awake added 2 refl (omega arith)

run-kept_example :
    total (is_task 7) (run popped 2).pool.added
    ≡ total (is_task 7) (run popped 2).pool.queue
      + total (carries 7) (run popped 2).workers
      + total (is_task 7) (run popped 2).pool.done
unfolding run turn th_worker main_step
run-kept_example = run-kept popped 2 7 refl

moved : some (unlocking (some 7)) ≡ some (rearming (some 7)) → ⊥
moved e = absurd (cc)

-- The worker that has popped a task goes on.
popped_changes : AllChange (0 ∷ []) popped 2
unfolding run turn th_worker main_step
popped_changes = (λ e. absurd (moved (ap (λ s. get_elem? s.workers 0) e)), tt)

run-bounded_example : 1 + effort (run (worker 0 ∷ popped) 2) ≤ effort (run popped 2)
run-bounded_example = run-bounded popped 2 (0 ∷ []) popped_changes

executed_fixed : (i : ℕ) → turn (worker i) (run executed 2) ≡ run executed 2
unfolding run turn th_worker main_step
executed_fixed zero = refl
executed_fixed (suc zero) = refl
executed_fixed (suc (suc i)) = refl

run-settled_example :
    ((run executed 2).pool.queue ≡ [])
    × ((t : ℕ)
        → total (is_task t) (run executed 2).pool.done
          ≡ total (is_task t) (run executed 2).pool.added)
unfolding run turn th_worker main_step
run-settled_example = run-settled executed 2 (omega arith) refl refl executed_fixed

run-destroyed_example : uses gone ≡ 0
unfolding run turn th_worker main_step
run-destroyed_example = run-destroyed two_gone 2 1 gone (omega arith) refl refl
