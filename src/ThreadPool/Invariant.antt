-- ===== src/ThreadPool/Invariant.antt =====
-- What holds in src/resolver/thread_pool.c after any turns: who holds `mutex_queue`, how many workers
-- are alive, that a waiting task has somebody who will come for it, and where each task is.
use netproc.Base.{
  Bool-cases, total-one, total-two, ℕ, zero, suc, ◌+◌, ◌<◌, ◌≡◌, inl, inr, refl, sym, ◌∙◌, false,
  Option, none, some, List, [], ◌∷◌, ◌==◌, to_nat, arith, length, get_elem?, set, total, total-set,
  total-append, total-replicate,
}
use netproc.ThreadPool.{
  Pool, Pc, starting, testing, waiting, woken, locking, popping, rearming, unlocking, running,
  leaving, announcing, gone, th_worker, MainPc, at_rest, add_locking, add_pushing, add_posting,
  add_unlocking, free_testing, free_waiting, free_locking, free_destroying, free_unlocking,
  finished, Command, add_task, thpool_free, go_on, no_memory, main_step, System, Turn, worker,
  main_thread, worker_at, turn, thpool_init, run,
}

-- Who holds `mutex_queue`.
abbrev pub holds : Pc → ℕ
holds popping = 1
holds (rearming t) = 1
holds (unlocking t) = 1
holds starting = 0
holds testing = 0
holds waiting = 0
holds woken = 0
holds locking = 0
holds (running t) = 0
holds leaving = 0
holds announcing = 0
holds gone = 0

abbrev pub main_holds : MainPc → ℕ
main_holds (add_pushing t) = 1
main_holds add_posting = 1
main_holds add_unlocking = 1
main_holds free_destroying = 1
main_holds free_unlocking = 1
main_holds at_rest = 0
main_holds (add_locking t) = 0
main_holds (free_testing wait) = 0
main_holds (free_waiting wait) = 0
main_holds free_locking = 0
main_holds finished = 0

-- A worker that was woken and has not yet looked whether to wake another, and a main thread that is
-- about to wake one.
abbrev pub comes : Pc → ℕ
comes woken = 1
comes locking = 1
comes popping = 1
comes (rearming t) = 1
comes (unlocking t) = 0
comes starting = 0
comes testing = 0
comes waiting = 0
comes (running t) = 0
comes leaving = 0
comes announcing = 0
comes gone = 0

abbrev pub main_comes : MainPc → ℕ
main_comes add_posting = 1
main_comes (add_pushing t) = 0
main_comes add_unlocking = 0
main_comes free_destroying = 0
main_comes free_unlocking = 0
main_comes at_rest = 0
main_comes (add_locking t) = 0
main_comes (free_testing wait) = 0
main_comes (free_waiting wait) = 0
main_comes free_locking = 0
main_comes finished = 0

abbrev pub is_alive : Pc → ℕ
is_alive starting = 0
is_alive announcing = 0
is_alive gone = 0
is_alive testing = 1
is_alive waiting = 1
is_alive woken = 1
is_alive locking = 1
is_alive popping = 1
is_alive (rearming t) = 1
is_alive (unlocking t) = 1
is_alive (running t) = 1
is_alive leaving = 1

abbrev pub is_task : ℕ → ℕ → ℕ
is_task t u = to_nat (u == t)

abbrev pub of_option : ℕ → Option ℕ → ℕ
of_option t none = 0
of_option t (some u) = is_task t u

-- The task that a worker has taken from the queue and not yet executed.
abbrev pub carries : ℕ → Pc → ℕ
carries t (rearming o) = of_option t o
carries t (unlocking o) = of_option t o
carries t (running u) = is_task t u
carries t starting = 0
carries t testing = 0
carries t waiting = 0
carries t woken = 0
carries t locking = 0
carries t popping = 0
carries t leaving = 0
carries t announcing = 0
carries t gone = 0

unfoldable Kept : Pool → ℕ → ℕ → Type 0
Kept r k t = total (is_task t) r.added ≡ total (is_task t) r.queue + k + total (is_task t) r.done

-- The invariant of what is shared, where the workers' weights have these sums.
pub record Shared (p : Pool) (m : MainPc) (h c a : ℕ) (k : ℕ → ℕ) : Type 0 where
  pub exclusive : h + main_holds m ≡ to_nat p.locked
  pub awake : p.worker_stop ≡ false → 0 < length p.queue → 0 < to_nat p.jobs + c + main_comes m
  pub alive : p.workers_alive ≡ a
  pub kept :
      p.destroyed ≡ false
      → (t : ℕ)
      → total (is_task t) p.added ≡ total (is_task t) p.queue + k t + total (is_task t) p.done

abbrev pub Inv : System → Type 0
Inv s =
    Shared s.pool s.main (total holds s.workers) (total comes s.workers) (total is_alive s.workers)
      (λ t. total (carries t) s.workers)

-- One step of a worker, and the sums after it.
module _ {p : Pool} {m : MainPc} {h c a : ℕ} {k : ℕ → ℕ} (v : Shared p m h c a k) where
  worker-exclusive :
      (pc : Pc) (h' : ℕ)
      → h' + holds pc ≡ h + holds (th_worker p pc).1
      → h' + main_holds m ≡ to_nat (th_worker p pc).0.locked
  unfolding th_worker
  worker-exclusive starting h' e = ground (arith, v.exclusive)
  worker-exclusive testing h' e = ground (arith, v.exclusive)
  worker-exclusive waiting h' e = ground (arith, v.exclusive)
  worker-exclusive woken h' e = ground (arith, v.exclusive)
  worker-exclusive locking h' e = ground (arith, v.exclusive)
  worker-exclusive popping h' e = ground (arith, v.exclusive)
  worker-exclusive (rearming none) h' e = ground (arith, v.exclusive)
  worker-exclusive (rearming (some u)) h' e = ground (arith, v.exclusive)
  worker-exclusive (unlocking none) h' e = ground (arith, v.exclusive)
  worker-exclusive (unlocking (some u)) h' e = ground (arith, v.exclusive)
  worker-exclusive (running u) h' e = ground (arith, v.exclusive)
  worker-exclusive leaving h' e = ground (arith, v.exclusive)
  worker-exclusive announcing h' e = ground (arith, v.exclusive)
  worker-exclusive gone h' e = ground (arith, v.exclusive)

  worker-awake :
      (pc : Pc) (c' : ℕ)
      → c' + comes pc ≡ c + comes (th_worker p pc).1
      → (th_worker p pc).0.worker_stop ≡ false
      → 0 < length (th_worker p pc).0.queue
      → 0 < to_nat (th_worker p pc).0.jobs + c' + main_comes m
  unfolding th_worker
  worker-awake starting c' e s q = ground (arith, v.awake)
  worker-awake testing c' e s q = ground (arith, v.awake)
  worker-awake waiting c' e s q = ground (arith, v.awake)
  worker-awake woken c' e s q = ground (arith, v.awake)
  worker-awake locking c' e s q = ground (arith, v.awake)
  worker-awake popping c' e s q = ground (arith, v.awake)
  worker-awake (rearming none) c' e s q = ground (arith, v.awake)
  worker-awake (rearming (some u)) c' e s q = ground (arith, v.awake)
  worker-awake (unlocking none) c' e s q = ground (arith, v.awake)
  worker-awake (unlocking (some u)) c' e s q = ground (arith, v.awake)
  worker-awake (running u) c' e s q = ground (arith, v.awake)
  worker-awake leaving c' e s q = ground (arith, v.awake)
  worker-awake announcing c' e s q = ground (arith, v.awake)
  worker-awake gone c' e s q = ground (arith, v.awake)

  worker-alive :
      (pc : Pc) (a' : ℕ)
      → a' + is_alive pc ≡ a + is_alive (th_worker p pc).1
      → (th_worker p pc).0.workers_alive ≡ a'
  unfolding th_worker
  worker-alive starting a' e = ground (arith, v.alive)
  worker-alive testing a' e = ground (arith, v.alive)
  worker-alive waiting a' e = ground (arith, v.alive)
  worker-alive woken a' e = ground (arith, v.alive)
  worker-alive locking a' e = ground (arith, v.alive)
  worker-alive popping a' e = ground (arith, v.alive)
  worker-alive (rearming none) a' e = ground (arith, v.alive)
  worker-alive (rearming (some u)) a' e = ground (arith, v.alive)
  worker-alive (unlocking none) a' e = ground (arith, v.alive)
  worker-alive (unlocking (some u)) a' e = ground (arith, v.alive)
  worker-alive (running u) a' e = ground (arith, v.alive)
  worker-alive leaving a' e = ground (arith, v.alive)
  worker-alive announcing a' e = ground (arith, v.alive)
  worker-alive gone a' e = ground (arith, v.alive)

  worker-destroyed :
      (pc : Pc) (q : List ℕ) → p.queue ≡ q → (th_worker p pc).0.destroyed ≡ p.destroyed
  unfolding th_worker
  worker-destroyed starting q h = ground arith
  worker-destroyed testing q h = ground arith
  worker-destroyed waiting q h = ground arith
  worker-destroyed woken q h = ground arith
  worker-destroyed locking q h = ground arith
  worker-destroyed popping [] h = rw h refl
  worker-destroyed popping (u ∷ q) h = rw h refl
  worker-destroyed (rearming o) [] h = rw h refl
  worker-destroyed (rearming o) (u ∷ q) h = rw h refl
  worker-destroyed (unlocking o) q h = refl
  worker-destroyed (running u) q h = refl
  worker-destroyed leaving q h = refl
  worker-destroyed announcing q h = refl
  worker-destroyed gone q h = refl

  worker-Kept :
      (pc : Pc) (k' t : ℕ) (q : List ℕ)
      → p.queue ≡ q
      → k' + carries t pc ≡ k t + carries t (th_worker p pc).1
      → p.destroyed ≡ false
      → Kept (th_worker p pc).0 k' t
  unfolding th_worker total Kept
  worker-Kept starting k' t q h e d = ground (arith, v.kept d t)
  worker-Kept testing k' t q h e d = ground (arith, v.kept d t)
  worker-Kept waiting k' t q h e d = ground (arith, v.kept d t)
  worker-Kept woken k' t q h e d = ground (arith, v.kept d t)
  worker-Kept locking k' t q h e d = ground (arith, v.kept d t)
  worker-Kept popping k' t [] h e d = ground (arith, h, v.kept d t)
  worker-Kept popping k' t (u ∷ q) h e d = ground (arith, h, v.kept d t)
  worker-Kept (rearming o) k' t [] h e d = ground (arith, h, v.kept d t)
  worker-Kept (rearming o) k' t (u ∷ q) h e d = ground (arith, h, v.kept d t)
  worker-Kept (unlocking none) k' t q h e d = ground (arith, v.kept d t)
  worker-Kept (unlocking (some u)) k' t q h e d = ground (arith, v.kept d t)
  worker-Kept (running u) k' t q h e d = ground (arith, v.kept d t)
  worker-Kept leaving k' t q h e d = ground (arith, v.kept d t)
  worker-Kept announcing k' t q h e d = ground (arith, v.kept d t)
  worker-Kept gone k' t q h e d = ground (arith, v.kept d t)

-- One step of the main thread.
module _ {p : Pool} {h c a : ℕ} {k : ℕ → ℕ} where
  main-exclusive :
      (x : Command) (m : MainPc)
      → Shared p m h c a k
      → h + main_holds (main_step x p m).1 ≡ to_nat (main_step x p m).0.locked
  unfolding main_step
  main-exclusive (add_task y) at_rest v = ground (arith, v.exclusive)
  main-exclusive thpool_free at_rest v = ground (arith, v.exclusive)
  main-exclusive go_on at_rest v = ground (arith, v.exclusive)
  main-exclusive no_memory at_rest v = ground (arith, v.exclusive)
  main-exclusive x (add_locking u) v = ground (arith, v.exclusive)
  main-exclusive (add_task y) (add_pushing u) v = ground (arith, v.exclusive)
  main-exclusive thpool_free (add_pushing u) v = ground (arith, v.exclusive)
  main-exclusive go_on (add_pushing u) v = ground (arith, v.exclusive)
  main-exclusive no_memory (add_pushing u) v = ground (arith, v.exclusive)
  main-exclusive x add_posting v = ground (arith, v.exclusive)
  main-exclusive x add_unlocking v = ground (arith, v.exclusive)
  main-exclusive x (free_testing zero) v = ground (arith, v.exclusive)
  main-exclusive x (free_testing (suc wait)) v = ground (arith, v.exclusive)
  main-exclusive x (free_waiting wait) v = ground (arith, v.exclusive)
  main-exclusive x free_locking v = ground (arith, v.exclusive)
  main-exclusive x free_destroying v = ground (arith, v.exclusive)
  main-exclusive x free_unlocking v = ground (arith, v.exclusive)
  main-exclusive x finished v = ground (arith, v.exclusive)

  main-awake :
      (x : Command) (m : MainPc)
      → Shared p m h c a k
      → (main_step x p m).0.worker_stop ≡ false
      → 0 < length (main_step x p m).0.queue
      → 0 < to_nat (main_step x p m).0.jobs + c + main_comes (main_step x p m).1
  unfolding main_step
  main-awake (add_task y) at_rest v s q = ground (arith, v.awake)
  main-awake thpool_free at_rest v s q = ground (arith, v.awake)
  main-awake go_on at_rest v s q = ground (arith, v.awake)
  main-awake no_memory at_rest v s q = ground (arith, v.awake)
  main-awake x (add_locking u) v s q = ground (arith, v.awake)
  main-awake (add_task y) (add_pushing u) v s q = ground (arith, v.awake)
  main-awake thpool_free (add_pushing u) v s q = ground (arith, v.awake)
  main-awake go_on (add_pushing u) v s q = ground (arith, v.awake)
  main-awake no_memory (add_pushing u) v s q = ground (arith, v.awake)
  main-awake x add_posting v s q = ground (arith, v.awake)
  main-awake x add_unlocking v s q = ground (arith, v.awake)
  main-awake x (free_testing zero) v s q = ground (arith, v.awake)
  main-awake x (free_testing (suc wait)) v s q = ground (arith, v.awake)
  main-awake x (free_waiting wait) v s q = ground (arith, v.awake)
  main-awake x free_locking v s q = ground (arith, v.awake)
  main-awake x free_destroying v s q = ground (arith, v.awake)
  main-awake x free_unlocking v s q = ground (arith, v.awake)
  main-awake x finished v s q = ground (arith, v.awake)

  main-alive :
      (x : Command) (m : MainPc) → Shared p m h c a k → (main_step x p m).0.workers_alive ≡ a
  unfolding main_step
  main-alive (add_task y) at_rest v = ground (arith, v.alive)
  main-alive thpool_free at_rest v = ground (arith, v.alive)
  main-alive go_on at_rest v = ground (arith, v.alive)
  main-alive no_memory at_rest v = ground (arith, v.alive)
  main-alive x (add_locking u) v = ground (arith, v.alive)
  main-alive (add_task y) (add_pushing u) v = ground (arith, v.alive)
  main-alive thpool_free (add_pushing u) v = ground (arith, v.alive)
  main-alive go_on (add_pushing u) v = ground (arith, v.alive)
  main-alive no_memory (add_pushing u) v = ground (arith, v.alive)
  main-alive x add_posting v = ground (arith, v.alive)
  main-alive x add_unlocking v = ground (arith, v.alive)
  main-alive x (free_testing zero) v = ground (arith, v.alive)
  main-alive x (free_testing (suc wait)) v = ground (arith, v.alive)
  main-alive x (free_waiting wait) v = ground (arith, v.alive)
  main-alive x free_locking v = ground (arith, v.alive)
  main-alive x free_destroying v = ground (arith, v.alive)
  main-alive x free_unlocking v = ground (arith, v.alive)
  main-alive x finished v = ground (arith, v.alive)

  main-Kept :
      (x : Command) (m : MainPc)
      → Shared p m h c a k
      → (main_step x p m).0.destroyed ≡ false
      → (t : ℕ) → Kept (main_step x p m).0 (k t) t
  unfolding main_step total Kept
  main-Kept (add_task y) at_rest v d t = v.kept d t
  main-Kept thpool_free at_rest v d t = v.kept d t
  main-Kept go_on at_rest v d t = v.kept d t
  main-Kept no_memory at_rest v d t = v.kept d t
  main-Kept x (add_locking u) v d t =
      let e : p.destroyed ≡ false = ground (arith, d) in ground (arith, v.kept e t)
  main-Kept (add_task y) (add_pushing u) v d t =
      omega (arith, v.kept d t, total-append (is_task t) p.queue (u ∷ []))
  main-Kept thpool_free (add_pushing u) v d t =
      omega (arith, v.kept d t, total-append (is_task t) p.queue (u ∷ []))
  main-Kept go_on (add_pushing u) v d t =
      omega (arith, v.kept d t, total-append (is_task t) p.queue (u ∷ []))
  main-Kept no_memory (add_pushing u) v d t = v.kept d t
  main-Kept x add_posting v d t = v.kept d t
  main-Kept x add_unlocking v d t = v.kept d t
  main-Kept x (free_testing zero) v d t = v.kept d t
  main-Kept x (free_testing (suc wait)) v d t =
      let e : p.destroyed ≡ false = ground (arith, d) in ground (arith, v.kept e t)
  main-Kept x (free_waiting wait) v d t =
      let e : p.destroyed ≡ false = ground (arith, d) in ground (arith, v.kept e t)
  main-Kept x free_locking v d t =
      let e : p.destroyed ≡ false = ground (arith, d) in ground (arith, v.kept e t)
  main-Kept x free_destroying v d t = absurd (ground (arith, d))
  main-Kept x free_unlocking v d t = v.kept d t
  main-Kept x finished v d t = v.kept d t

worker-Inv :
    (s : System) (i : ℕ) (o : Option Pc) → get_elem? s.workers i ≡ o → Inv s → Inv (worker_at s i o)
unfolding Kept
worker-Inv s i none h v = v
worker-Inv s i (some pc) h v =
    let pc' = (th_worker s.pool pc).1 in
    record {
      exclusive =
          worker-exclusive v pc (total holds (set s.workers i pc'))
            (total-set holds s.workers i pc pc' h);
      awake =
          worker-awake v pc (total comes (set s.workers i pc'))
            (total-set comes s.workers i pc pc' h);
      alive =
          worker-alive v pc (total is_alive (set s.workers i pc'))
            (total-set is_alive s.workers i pc pc' h);
      kept = λ d t.
          worker-Kept v pc (total (carries t) (set s.workers i pc')) t s.pool.queue refl
            (total-set (carries t) s.workers i pc pc' h)
            (sym (worker-destroyed v pc s.pool.queue refl) ∙ d);
    }

pub turn-Inv : (t : Turn) (s : System) → Inv s → Inv (turn t s)
unfolding turn Kept
turn-Inv (worker i) s v = worker-Inv s i (get_elem? s.workers i) refl v
turn-Inv (main_thread x) s v = record {
  exclusive = main-exclusive x s.main v;
  awake = main-awake x s.main v;
  alive = main-alive x s.main v;
  kept = main-Kept x s.main v;
}

init-Inv : (n : ℕ) → Inv (thpool_init n)
unfolding total
init-Inv n = record {
  exclusive = omega (arith, total-replicate holds n starting refl);
  awake = λ s q. absurd (omega (arith, q));
  alive = sym (total-replicate is_alive n starting refl);
  kept = λ d t. omega (arith, total-replicate (carries t) n starting refl);
}

pub run-Inv : (turns : List Turn) (n : ℕ) → Inv (run turns n)
unfolding run
run-Inv [] n = init-Inv n
run-Inv (t ∷ turns) n = turn-Inv t (run turns n) (run-Inv turns n)

-- Two threads are never both between the lock and the unlock of `mutex_queue`: two workers that are
-- there are one, and none is there while the main thread is.
pub run-exclusive :
    (turns : List Turn) (n i j : ℕ) (a b : Pc)
    → get_elem? (run turns n).workers i ≡ some a
    → get_elem? (run turns n).workers j ≡ some b
    → holds a ≡ 1
    → holds b ≡ 1
    → (i ≡ j) × (main_holds (run turns n).main ≡ 0)
run-exclusive turns n i j a b ha hb p q = elim (Bool-cases (i == j)) [
  | inl e ↦ (
    ground (arith, e),
    ground (arith, total-one holds (run turns n).workers i a ha, (run-Inv turns n).exclusive),
  )
  | inr d ↦ absurd (
      ground (
        arith,
        total-two holds (run turns n).workers i j a b (λ e. ground (arith, d, e)) ha hb,
        (run-Inv turns n).exclusive,
      ))
]

-- No wake-up is lost: while the pool is not to stop and a task waits, the semaphore of jobs is
-- posted, or a worker that was woken has yet to look at the queue, or the main thread is about to
-- post.
pub run-awake :
    (turns : List Turn) (n : ℕ)
    → (run turns n).pool.worker_stop ≡ false
    → 0 < length (run turns n).pool.queue
    → 0
      < to_nat (run turns n).pool.jobs
        + total comes (run turns n).workers
        + main_comes (run turns n).main
run-awake turns n s q = (run-Inv turns n).awake s q

-- Until the queue is destroyed, each task is as many times in the queue, in a worker's hands and
-- executed as it was added, after any turns; so none is lost and none executed twice.
pub run-kept :
    (turns : List Turn) (n t : ℕ)
    → (run turns n).pool.destroyed ≡ false
    → total (is_task t) (run turns n).pool.added
      ≡ total (is_task t) (run turns n).pool.queue
        + total (carries t) (run turns n).workers
        + total (is_task t) (run turns n).pool.done
run-kept turns n t d = (run-Inv turns n).kept d t
