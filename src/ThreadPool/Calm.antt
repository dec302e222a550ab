-- ===== src/ThreadPool/Calm.antt =====
-- What else holds in every state of src/resolver/thread_pool.c: nobody leaves before the stop, and a
-- queue that was found empty under the mutex still is.
use netproc.Base.{
  ℕ, zero, suc, ◌+◌, ◌<◌, ◌≤◌, ◌≡◌, refl, ◌∙◌, false, Option, none, some, List, [], ◌∷◌, to_nat,
  arith, length, length-set, length-replicate, get_elem?, set, total, total-set, total-le,
  total-replicate,
}
use netproc.ThreadPool.{
  Pool, Pc, starting, testing, waiting, woken, locking, popping, rearming, unlocking, running,
  leaving, announcing, gone, th_worker, MainPc, at_rest, add_locking, add_pushing, add_posting,
  add_unlocking, free_testing, free_waiting, free_locking, free_destroying, free_unlocking,
  finished, Command, add_task, thpool_free, go_on, no_memory, main_step, System, Turn, worker,
  main_thread, worker_at, turn, run,
}
use netproc.ThreadPool.Invariant.{holds, main_holds, Inv, run-Inv}

-- A worker that has seen the stop.
abbrev pub leaves : Pc → ℕ
leaves leaving = 1
leaves announcing = 1
leaves gone = 1
leaves starting = 0
leaves testing = 0
leaves waiting = 0
leaves woken = 0
leaves locking = 0
leaves popping = 0
leaves (rearming t) = 0
leaves (unlocking t) = 0
leaves (running t) = 0

-- The main thread in `thpool_free`.
abbrev pub frees : MainPc → ℕ
frees (free_testing wait) = 1
frees (free_waiting wait) = 1
frees free_locking = 1
frees free_destroying = 1
frees free_unlocking = 1
frees finished = 1
frees at_rest = 0
frees (add_locking t) = 0
frees (add_pushing t) = 0
frees add_posting = 0
frees add_unlocking = 0

-- A worker that holds the mutex and has found the queue empty.
abbrev pub empties : Pc → ℕ
empties (rearming none) = 1
empties (rearming (some t)) = 0
empties starting = 0
empties testing = 0
empties waiting = 0
empties woken = 0
empties locking = 0
empties popping = 0
empties (unlocking t) = 0
empties (running t) = 0
empties leaving = 0
empties announcing = 0
empties gone = 0

-- Nobody has left before the stop, and a queue that was found empty under the mutex still is.
pub record Calm (p : Pool) (m : MainPc) (l e : ℕ) : Type 0 where
  pub staying : p.worker_stop ≡ false → l + frees m + to_nat p.destroyed ≡ 0
  pub emptied : 0 < e → length p.queue ≡ 0

abbrev pub CalmAt : System → Type 0
CalmAt s = Calm s.pool s.main (total leaves s.workers) (total empties s.workers)

module _ {p : Pool} {m : MainPc} {l e : ℕ} (v : Calm p m l e) where
  worker-staying :
      (pc : Pc) (q : List ℕ) (l' : ℕ)
      → p.queue ≡ q
      → l' + leaves pc ≡ l + leaves (th_worker p pc).1
      → (th_worker p pc).0.worker_stop ≡ false
      → l' + frees m + to_nat (th_worker p pc).0.destroyed ≡ 0
  unfolding th_worker
  worker-staying starting q l' h d s = ground (arith, h, v.staying)
  worker-staying testing q l' h d s = ground (arith, h, v.staying)
  worker-staying waiting q l' h d s = ground (arith, h, v.staying)
  worker-staying woken q l' h d s = ground (arith, h, v.staying)
  worker-staying locking q l' h d s = ground (arith, h, v.staying)
  worker-staying popping [] l' h d s = ground (arith, h, v.staying)
  worker-staying popping (u ∷ q) l' h d s = ground (arith, h, v.staying)
  worker-staying (rearming none) [] l' h d s = ground (arith, h, v.staying)
  worker-staying (rearming none) (u ∷ q) l' h d s = ground (arith, h, v.staying)
  worker-staying (rearming (some t)) [] l' h d s = ground (arith, h, v.staying)
  worker-staying (rearming (some t)) (u ∷ q) l' h d s = ground (arith, h, v.staying)
  worker-staying (unlocking none) q l' h d s = ground (arith, h, v.staying)
  worker-staying (unlocking (some t)) q l' h d s = ground (arith, h, v.staying)
  worker-staying (running t) q l' h d s = ground (arith, h, v.staying)
  worker-staying leaving q l' h d s = ground (arith, h, v.staying)
  worker-staying announcing q l' h d s = ground (arith, h, v.staying)
  worker-staying gone q l' h d s = ground (arith, h, v.staying)

  worker-emptied :
      (pc : Pc) (q : List ℕ) (e' : ℕ)
      → p.queue ≡ q
      → e' + empties pc ≡ e + empties (th_worker p pc).1
      → 0 < e'
      → length (th_worker p pc).0.queue ≡ 0
  unfolding th_worker
  worker-emptied starting q e' h d s = ground (arith, h, v.emptied)
  worker-emptied testing q e' h d s = ground (arith, h, v.emptied)
  worker-emptied waiting q e' h d s = ground (arith, h, v.emptied)
  worker-emptied woken q e' h d s = ground (arith, h, v.emptied)
  worker-emptied locking q e' h d s = ground (arith, h, v.emptied)
  worker-emptied popping [] e' h d s = ground (arith, h, v.emptied)
  worker-emptied popping (u ∷ q) e' h d s = ground (arith, h, v.emptied)
  worker-emptied (rearming none) [] e' h d s = ground (arith, h, v.emptied)
  worker-emptied (rearming none) (u ∷ q) e' h d s = ground (arith, h, v.emptied)
  worker-emptied (rearming (some t)) [] e' h d s = ground (arith, h, v.emptied)
  worker-emptied (rearming (some t)) (u ∷ q) e' h d s = ground (arith, h, v.emptied)
  worker-emptied (unlocking none) q e' h d s = ground (arith, h, v.emptied)
  worker-emptied (unlocking (some t)) q e' h d s = ground (arith, h, v.emptied)
  worker-emptied (running t) q e' h d s = ground (arith, h, v.emptied)
  worker-emptied leaving q e' h d s = ground (arith, h, v.emptied)
  worker-emptied announcing q e' h d s = ground (arith, h, v.emptied)
  worker-emptied gone q e' h d s = ground (arith, h, v.emptied)

module _ {p : Pool} {l e : ℕ} where
  main-staying :
      (x : Command) (m : MainPc)
      → Calm p m l e
      → (main_step x p m).0.worker_stop ≡ false
      → l + frees (main_step x p m).1 + to_nat (main_step x p m).0.destroyed ≡ 0
  unfolding main_step
  main-staying (add_task y) at_rest v s = ground (arith, v.staying)
  main-staying thpool_free at_rest v s = ground (arith, v.staying)
  main-staying go_on at_rest v s = ground (arith, v.staying)
  main-staying no_memory at_rest v s = ground (arith, v.staying)
  main-staying x (add_locking u) v s = ground (arith, v.staying)
  main-staying (add_task y) (add_pushing u) v s = ground (arith, v.staying)
  main-staying thpool_free (add_pushing u) v s = ground (arith, v.staying)
  main-staying go_on (add_pushing u) v s = ground (arith, v.staying)
  main-staying no_memory (add_pushing u) v s = ground (arith, v.staying)
  main-staying x add_posting v s = ground (arith, v.staying)
  main-staying x add_unlocking v s = ground (arith, v.staying)
  main-staying x (free_testing zero) v s = ground (arith, v.staying)
  main-staying x (free_testing (suc wait)) v s = ground (arith, v.staying)
  main-staying x (free_waiting wait) v s = ground (arith, v.staying)
  main-staying x free_locking v s = ground (arith, v.staying)
  main-staying x free_destroying v s = ground (arith, v.staying)
  main-staying x free_unlocking v s = ground (arith, v.staying)
  main-staying x finished v s = ground (arith, v.staying)

  main-emptied :
      (x : Command) (m : MainPc)
      → Calm p m l e
      → (0 < main_holds m → e ≡ 0)
      → 0 < e
      → length (main_step x p m).0.queue ≡ 0
  unfolding main_step
  main-emptied (add_task y) at_rest v z s = ground (arith, v.emptied, z)
  main-emptied thpool_free at_rest v z s = ground (arith, v.emptied, z)
  main-emptied go_on at_rest v z s = ground (arith, v.emptied, z)
  main-emptied no_memory at_rest v z s = ground (arith, v.emptied, z)
  main-emptied x (add_locking u) v z s = ground (arith, v.emptied, z)
  main-emptied (add_task y) (add_pushing u) v z s = ground (arith, v.emptied, z)
  main-emptied thpool_free (add_pushing u) v z s = ground (arith, v.emptied, z)
  main-emptied go_on (add_pushing u) v z s = ground (arith, v.emptied, z)
  main-emptied no_memory (add_pushing u) v z s = ground (arith, v.emptied, z)
  main-emptied x add_posting v z s = ground (arith, v.emptied, z)
  main-emptied x add_unlocking v z s = ground (arith, v.emptied, z)
  main-emptied x (free_testing zero) v z s = ground (arith, v.emptied, z)
  main-emptied x (free_testing (suc wait)) v z s = ground (arith, v.emptied, z)
  main-emptied x (free_waiting wait) v z s = ground (arith, v.emptied, z)
  main-emptied x free_locking v z s = ground (arith, v.emptied, z)
  main-emptied x free_destroying v z s = ground (arith, v.emptied, z)
  main-emptied x free_unlocking v z s = ground (arith, v.emptied, z)
  main-emptied x finished v z s = ground (arith, v.emptied, z)

empties-holds : (pc : Pc) → empties pc ≤ holds pc
empties-holds starting = ground arith
empties-holds testing = ground arith
empties-holds waiting = ground arith
empties-holds woken = ground arith
empties-holds locking = ground arith
empties-holds popping = ground arith
empties-holds (rearming none) = ground arith
empties-holds (rearming (some t)) = ground arith
empties-holds (unlocking t) = ground arith
empties-holds (running t) = ground arith
empties-holds leaving = ground arith
empties-holds announcing = ground arith
empties-holds gone = ground arith

-- While the main thread holds the mutex, no worker does.
main_alone : (s : System) → Inv s → 0 < main_holds s.main → total empties s.workers ≡ 0
main_alone s v h = ground (arith, v.exclusive, total-le empties holds empties-holds s.workers)

worker-CalmAt :
    (s : System) (i : ℕ) (o : Option Pc)
    → get_elem? s.workers i ≡ o
    → CalmAt s
    → CalmAt (worker_at s i o)
worker-CalmAt s i none h v = v
worker-CalmAt s i (some pc) h v =
    let pc' = (th_worker s.pool pc).1 in
    record {
      staying =
          worker-staying v pc s.pool.queue (total leaves (set s.workers i pc')) refl
            (total-set leaves s.workers i pc pc' h);
      emptied =
          worker-emptied v pc s.pool.queue (total empties (set s.workers i pc')) refl
            (total-set empties s.workers i pc pc' h);
    }

turn-CalmAt : (t : Turn) (s : System) → Inv s → CalmAt s → CalmAt (turn t s)
unfolding turn
turn-CalmAt (worker i) s w v = worker-CalmAt s i (get_elem? s.workers i) refl v
turn-CalmAt (main_thread x) s w v = record {
  staying = main-staying x s.main v;
  emptied = main-emptied x s.main v (main_alone s w);
}

pub run-CalmAt : (turns : List Turn) (n : ℕ) → CalmAt (run turns n)
unfolding run
run-CalmAt [] n = record {
  staying = λ s. omega (arith, total-replicate leaves n starting refl);
  emptied = λ h. refl;
}
run-CalmAt (t ∷ turns) n = turn-CalmAt t (run turns n) (run-Inv turns n) (run-CalmAt turns n)

length-worker_at :
    (s : System) (i : ℕ) (o : Option Pc) → length (worker_at s i o).workers ≡ length s.workers
length-worker_at s i none = refl
length-worker_at s i (some pc) = length-set s.workers i (th_worker s.pool pc).1

pub length-workers : (turns : List Turn) (n : ℕ) → length (run turns n).workers ≡ n
unfolding run turn
length-workers [] n = length-replicate n starting
length-workers (worker i ∷ turns) n =
    length-worker_at (run turns n) i (get_elem? (run turns n).workers i) ∙ length-workers turns n
length-workers (main_thread x ∷ turns) n = length-workers turns n
