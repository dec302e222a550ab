-- ===== src/ThreadPool/Shutdown.antt =====
-- `thpool_free` of src/resolver/thread_pool.c: when the queue is destroyed.
use netproc.Base.{
  ℕ, zero, suc, ◌+◌, ◌<◌, ◌≤◌, ◌≡◌, refl, true, Option, none, some, List, [], ◌∷◌, to_nat, arith,
  length, get_elem?, set, total, total-set, total-le, total-one,
}
use netproc.ThreadPool.{
  Pool, Pc, starting, testing, waiting, woken, locking, popping, rearming, unlocking, running,
  leaving, announcing, gone, th_worker, MainPc, at_rest, add_locking, add_pushing, add_posting,
  add_unlocking, free_testing, free_waiting, free_locking, free_destroying, free_unlocking,
  finished, Command, add_task, thpool_free, go_on, no_memory, main_step, System, Turn, worker,
  main_thread, worker_at, turn, run,
}
use netproc.ThreadPool.Invariant.{is_alive, Inv, run-Inv}
use netproc.ThreadPool.Calm.{length-workers}

-- A worker that is to use the queue, whatever happens.
abbrev pub uses : Pc → ℕ
uses starting = 0
uses testing = 0
uses waiting = 0
uses woken = 0
uses locking = 1
uses popping = 1
uses (rearming t) = 1
uses (unlocking t) = 0
uses (running t) = 0
uses leaving = 0
uses announcing = 0
uses gone = 0

-- A worker that has posted `bsem_exit`.
abbrev pub is_gone : Pc → ℕ
is_gone starting = 0
is_gone testing = 0
is_gone waiting = 0
is_gone woken = 0
is_gone locking = 0
is_gone popping = 0
is_gone (rearming t) = 0
is_gone (unlocking t) = 0
is_gone (running t) = 0
is_gone leaving = 0
is_gone announcing = 0
is_gone gone = 1

-- The rounds that `thpool_free` has left, before its loop ends.
abbrev left : MainPc → ℕ
left (free_testing wait) = wait
left (free_waiting wait) = suc wait
left at_rest = 3
left (add_locking t) = 3
left (add_pushing t) = 3
left add_posting = 3
left add_unlocking = 3
left free_locking = 3
left free_destroying = 3
left free_unlocking = 3
left finished = 3

abbrev in_free : MainPc → ℕ
in_free (free_testing wait) = 1
in_free (free_waiting wait) = 1
in_free at_rest = 0
in_free (add_locking t) = 0
in_free (add_pushing t) = 0
in_free add_posting = 0
in_free add_unlocking = 0
in_free free_locking = 1
in_free free_destroying = 1
in_free free_unlocking = 1
in_free finished = 1

-- The main thread after the loop.
abbrev after_loop : MainPc → ℕ
after_loop (free_testing wait) = 0
after_loop (free_waiting wait) = 0
after_loop at_rest = 0
after_loop (add_locking t) = 0
after_loop (add_pushing t) = 0
after_loop add_posting = 0
after_loop add_unlocking = 0
after_loop free_locking = 1
after_loop free_destroying = 1
after_loop free_unlocking = 1
after_loop finished = 1

-- Each round is paid for by a worker that has gone, and after the loop none uses the queue.
record Quit (p : Pool) (m : MainPc) (g u : ℕ) : Type 0 where
  stopped : 0 < in_free m → p.worker_stop ≡ true
  counted : 3 + to_nat p.exit ≤ g + left m
  few : left m ≤ 3
  quiet : 0 < after_loop m → u ≡ 0
  kept_until : p.destroyed ≡ true → 0 < after_loop m

abbrev QuitAt : System → Type 0
QuitAt s = Quit s.pool s.main (total is_gone s.workers) (total uses s.workers)

module _ {p : Pool} {m : MainPc} {g u : ℕ} (v : Quit p m g u) where
  worker-stopped :
      (pc : Pc) (q : List ℕ) → p.queue ≡ q → 0 < in_free m → (th_worker p pc).0.worker_stop ≡ true
  unfolding th_worker
  worker-stopped starting q h z = ground (arith, h, v.stopped z)
  worker-stopped testing q h z = ground (arith, h, v.stopped z)
  worker-stopped waiting q h z = ground (arith, h, v.stopped z)
  worker-stopped woken q h z = ground (arith, h, v.stopped z)
  worker-stopped locking q h z = ground (arith, h, v.stopped z)
  worker-stopped popping [] h z = ground (arith, h, v.stopped z)
  worker-stopped popping (x ∷ q) h z = ground (arith, h, v.stopped z)
  worker-stopped (rearming o) [] h z = ground (arith, h, v.stopped z)
  worker-stopped (rearming o) (x ∷ q) h z = ground (arith, h, v.stopped z)
  worker-stopped (unlocking none) q h z = ground (arith, h, v.stopped z)
  worker-stopped (unlocking (some t)) q h z = ground (arith, h, v.stopped z)
  worker-stopped (running t) q h z = ground (arith, h, v.stopped z)
  worker-stopped leaving q h z = ground (arith, h, v.stopped z)
  worker-stopped announcing q h z = ground (arith, h, v.stopped z)
  worker-stopped gone q h z = ground (arith, h, v.stopped z)

  worker-counted :
      (pc : Pc) (q : List ℕ) (g' : ℕ)
      → p.queue ≡ q
      → g' + is_gone pc ≡ g + is_gone (th_worker p pc).1
      → 3 + to_nat (th_worker p pc).0.exit ≤ g' + left m
  unfolding th_worker
  worker-counted starting q g' h z = ground (arith, h, z, v.counted)
  worker-counted testing q g' h z = ground (arith, h, z, v.counted)
  worker-counted waiting q g' h z = ground (arith, h, z, v.counted)
  worker-counted woken q g' h z = ground (arith, h, z, v.counted)
  worker-counted locking q g' h z = ground (arith, h, z, v.counted)
  worker-counted popping [] g' h z = ground (arith, h, z, v.counted)
  worker-counted popping (x ∷ q) g' h z = ground (arith, h, z, v.counted)
  worker-counted (rearming o) [] g' h z = ground (arith, h, z, v.counted)
  worker-counted (rearming o) (x ∷ q) g' h z = ground (arith, h, z, v.counted)
  worker-counted (unlocking none) q g' h z = ground (arith, h, z, v.counted)
  worker-counted (unlocking (some t)) q g' h z = ground (arith, h, z, v.counted)
  worker-counted (running t) q g' h z = ground (arith, h, z, v.counted)
  worker-counted leaving q g' h z = ground (arith, h, z, v.counted)
  worker-counted announcing q g' h z = ground (arith, h, z, v.counted)
  worker-counted gone q g' h z = ground (arith, h, z, v.counted)

  worker-quiet :
      (pc : Pc) (q : List ℕ) (u' : ℕ)
      → p.queue ≡ q
      → u' + uses pc ≡ u + uses (th_worker p pc).1
      → after_loop m ≤ in_free m
      → 0 < after_loop m
      → u' ≡ 0
  unfolding th_worker
  worker-quiet starting q u' h z i a =
      ground (arith, h, z, v.quiet a, v.stopped (omega (arith, i, a)))
  worker-quiet testing q u' h z i a =
      ground (arith, h, z, v.quiet a, v.stopped (omega (arith, i, a)))
  worker-quiet waiting q u' h z i a =
      ground (arith, h, z, v.quiet a, v.stopped (omega (arith, i, a)))
  worker-quiet woken q u' h z i a = ground (arith, h, z, v.quiet a, v.stopped (omega (arith, i, a)))
  worker-quiet locking q u' h z i a =
      ground (arith, h, z, v.quiet a, v.stopped (omega (arith, i, a)))
  worker-quiet popping [] u' h z i a =
      ground (arith, h, z, v.quiet a, v.stopped (omega (arith, i, a)))
  worker-quiet popping (x ∷ q) u' h z i a =
      ground (arith, h, z, v.quiet a, v.stopped (omega (arith, i, a)))
  worker-quiet (rearming o) [] u' h z i a =
      ground (arith, h, z, v.quiet a, v.stopped (omega (arith, i, a)))
  worker-quiet (rearming o) (x ∷ q) u' h z i a =
      ground (arith, h, z, v.quiet a, v.stopped (omega (arith, i, a)))
  worker-quiet (unlocking none) q u' h z i a =
      ground (arith, h, z, v.quiet a, v.stopped (omega (arith, i, a)))
  worker-quiet (unlocking (some t)) q u' h z i a =
      ground (arith, h, z, v.quiet a, v.stopped (omega (arith, i, a)))
  worker-quiet (running t) q u' h z i a =
      ground (arith, h, z, v.quiet a, v.stopped (omega (arith, i, a)))
  worker-quiet leaving q u' h z i a =
      ground (arith, h, z, v.quiet a, v.stopped (omega (arith, i, a)))
  worker-quiet announcing q u' h z i a =
      ground (arith, h, z, v.quiet a, v.stopped (omega (arith, i, a)))
  worker-quiet gone q u' h z i a = ground (arith, h, z, v.quiet a, v.stopped (omega (arith, i, a)))

  worker-kept_until :
      (pc : Pc) (q : List ℕ) → p.queue ≡ q → (th_worker p pc).0.destroyed ≡ true → 0 < after_loop m
  unfolding th_worker
  worker-kept_until starting q h z = ground (arith, h, z, v.kept_until)
  worker-kept_until testing q h z = ground (arith, h, z, v.kept_until)
  worker-kept_until waiting q h z = ground (arith, h, z, v.kept_until)
  worker-kept_until woken q h z = ground (arith, h, z, v.kept_until)
  worker-kept_until locking q h z = ground (arith, h, z, v.kept_until)
  worker-kept_until popping [] h z = ground (arith, h, z, v.kept_until)
  worker-kept_until popping (x ∷ q) h z = ground (arith, h, z, v.kept_until)
  worker-kept_until (rearming o) [] h z = ground (arith, h, z, v.kept_until)
  worker-kept_until (rearming o) (x ∷ q) h z = ground (arith, h, z, v.kept_until)
  worker-kept_until (unlocking none) q h z = ground (arith, h, z, v.kept_until)
  worker-kept_until (unlocking (some t)) q h z = ground (arith, h, z, v.kept_until)
  worker-kept_until (running t) q h z = ground (arith, h, z, v.kept_until)
  worker-kept_until leaving q h z = ground (arith, h, z, v.kept_until)
  worker-kept_until announcing q h z = ground (arith, h, z, v.kept_until)
  worker-kept_until gone q h z = ground (arith, h, z, v.kept_until)

module _ {p : Pool} {g u : ℕ} where
  main-stopped :
      (x : Command) (m : MainPc)
      → Quit p m g u
      → 0 < in_free (main_step x p m).1
      → (main_step x p m).0.worker_stop ≡ true
  unfolding main_step
  main-stopped (add_task y) at_rest v z = ground (arith, z, v.stopped)
  main-stopped thpool_free at_rest v z = ground (arith, z, v.stopped)
  main-stopped go_on at_rest v z = ground (arith, z, v.stopped)
  main-stopped no_memory at_rest v z = ground (arith, z, v.stopped)
  main-stopped x (add_locking t) v z = ground (arith, z, v.stopped)
  main-stopped (add_task y) (add_pushing t) v z = ground (arith, z, v.stopped)
  main-stopped thpool_free (add_pushing t) v z = ground (arith, z, v.stopped)
  main-stopped go_on (add_pushing t) v z = ground (arith, z, v.stopped)
  main-stopped no_memory (add_pushing t) v z = ground (arith, z, v.stopped)
  main-stopped x add_posting v z = ground (arith, z, v.stopped)
  main-stopped x add_unlocking v z = ground (arith, z, v.stopped)
  main-stopped x (free_testing zero) v z = ground (arith, z, v.stopped)
  main-stopped x (free_testing (suc wait)) v z = ground (arith, z, v.stopped)
  main-stopped x (free_waiting wait) v z = ground (arith, z, v.stopped)
  main-stopped x free_locking v z = ground (arith, z, v.stopped)
  main-stopped x free_destroying v z = ground (arith, z, v.stopped)
  main-stopped x free_unlocking v z = ground (arith, z, v.stopped)
  main-stopped x finished v z = ground (arith, z, v.stopped)

  main-counted :
      (x : Command) (m : MainPc)
      → Quit p m g u
      → 3 + to_nat (main_step x p m).0.exit ≤ g + left (main_step x p m).1
  unfolding main_step
  main-counted (add_task y) at_rest v = ground (arith, v.counted, v.few)
  main-counted thpool_free at_rest v = ground (arith, v.counted, v.few)
  main-counted go_on at_rest v = ground (arith, v.counted, v.few)
  main-counted no_memory at_rest v = ground (arith, v.counted, v.few)
  main-counted x (add_locking t) v = ground (arith, v.counted, v.few)
  main-counted (add_task y) (add_pushing t) v = ground (arith, v.counted, v.few)
  main-counted thpool_free (add_pushing t) v = ground (arith, v.counted, v.few)
  main-counted go_on (add_pushing t) v = ground (arith, v.counted, v.few)
  main-counted no_memory (add_pushing t) v = ground (arith, v.counted, v.few)
  main-counted x add_posting v = ground (arith, v.counted, v.few)
  main-counted x add_unlocking v = ground (arith, v.counted, v.few)
  main-counted x (free_testing zero) v = ground (arith, v.counted, v.few)
  main-counted x (free_testing (suc wait)) v = ground (arith, v.counted, v.few)
  main-counted x (free_waiting wait) v = ground (arith, v.counted, v.few)
  main-counted x free_locking v = ground (arith, v.counted, v.few)
  main-counted x free_destroying v = ground (arith, v.counted, v.few)
  main-counted x free_unlocking v = ground (arith, v.counted, v.few)
  main-counted x finished v = ground (arith, v.counted, v.few)

  main-few : (x : Command) (m : MainPc) → Quit p m g u → left (main_step x p m).1 ≤ 3
  unfolding main_step
  main-few (add_task y) at_rest v = ground (arith, v.few)
  main-few thpool_free at_rest v = ground (arith, v.few)
  main-few go_on at_rest v = ground (arith, v.few)
  main-few no_memory at_rest v = ground (arith, v.few)
  main-few x (add_locking t) v = ground (arith, v.few)
  main-few (add_task y) (add_pushing t) v = ground (arith, v.few)
  main-few thpool_free (add_pushing t) v = ground (arith, v.few)
  main-few go_on (add_pushing t) v = ground (arith, v.few)
  main-few no_memory (add_pushing t) v = ground (arith, v.few)
  main-few x add_posting v = ground (arith, v.few)
  main-few x add_unlocking v = ground (arith, v.few)
  main-few x (free_testing zero) v = ground (arith, v.few)
  main-few x (free_testing (suc wait)) v = ground (arith, v.few)
  main-few x (free_waiting wait) v = ground (arith, v.few)
  main-few x free_locking v = ground (arith, v.few)
  main-few x free_destroying v = ground (arith, v.few)
  main-few x free_unlocking v = ground (arith, v.few)
  main-few x finished v = ground (arith, v.few)

  main-quiet :
      (x : Command) (m : MainPc)
      → Quit p m g u
      → g + u ≤ 3
      → u ≤ p.workers_alive
      → 0 < after_loop (main_step x p m).1
      → u ≡ 0
  unfolding main_step
  main-quiet (add_task y) at_rest v k a z = ground (arith, v.quiet, v.counted, k, a, z)
  main-quiet thpool_free at_rest v k a z = ground (arith, v.quiet, v.counted, k, a, z)
  main-quiet go_on at_rest v k a z = ground (arith, v.quiet, v.counted, k, a, z)
  main-quiet no_memory at_rest v k a z = ground (arith, v.quiet, v.counted, k, a, z)
  main-quiet x (add_locking t) v k a z = ground (arith, v.quiet, v.counted, k, a, z)
  main-quiet (add_task y) (add_pushing t) v k a z = ground (arith, v.quiet, v.counted, k, a, z)
  main-quiet thpool_free (add_pushing t) v k a z = ground (arith, v.quiet, v.counted, k, a, z)
  main-quiet go_on (add_pushing t) v k a z = ground (arith, v.quiet, v.counted, k, a, z)
  main-quiet no_memory (add_pushing t) v k a z = ground (arith, v.quiet, v.counted, k, a, z)
  main-quiet x add_posting v k a z = ground (arith, v.quiet, v.counted, k, a, z)
  main-quiet x add_unlocking v k a z = ground (arith, v.quiet, v.counted, k, a, z)
  main-quiet x (free_testing zero) v k a z = ground (arith, v.quiet, v.counted, k, a, z)
  main-quiet x (free_testing (suc wait)) v k a z = ground (arith, v.quiet, v.counted, k, a, z)
  main-quiet x (free_waiting wait) v k a z = ground (arith, v.quiet, v.counted, k, a, z)
  main-quiet x free_locking v k a z = ground (arith, v.quiet, v.counted, k, a, z)
  main-quiet x free_destroying v k a z = ground (arith, v.quiet, v.counted, k, a, z)
  main-quiet x free_unlocking v k a z = ground (arith, v.quiet, v.counted, k, a, z)
  main-quiet x finished v k a z = ground (arith, v.quiet, v.counted, k, a, z)

  main-kept_until :
      (x : Command) (m : MainPc)
      → Quit p m g u
      → (main_step x p m).0.destroyed ≡ true
      → 0 < after_loop (main_step x p m).1
  unfolding main_step
  main-kept_until (add_task y) at_rest v z = ground (arith, z, v.kept_until)
  main-kept_until thpool_free at_rest v z = ground (arith, z, v.kept_until)
  main-kept_until go_on at_rest v z = ground (arith, z, v.kept_until)
  main-kept_until no_memory at_rest v z = ground (arith, z, v.kept_until)
  main-kept_until x (add_locking t) v z = ground (arith, z, v.kept_until)
  main-kept_until (add_task y) (add_pushing t) v z = ground (arith, z, v.kept_until)
  main-kept_until thpool_free (add_pushing t) v z = ground (arith, z, v.kept_until)
  main-kept_until go_on (add_pushing t) v z = ground (arith, z, v.kept_until)
  main-kept_until no_memory (add_pushing t) v z = ground (arith, z, v.kept_until)
  main-kept_until x add_posting v z = ground (arith, z, v.kept_until)
  main-kept_until x add_unlocking v z = ground (arith, z, v.kept_until)
  main-kept_until x (free_testing zero) v z = ground (arith, z, v.kept_until)
  main-kept_until x (free_testing (suc wait)) v z = ground (arith, z, v.kept_until)
  main-kept_until x (free_waiting wait) v z = ground (arith, z, v.kept_until)
  main-kept_until x free_locking v z = ground (arith, z, v.kept_until)
  main-kept_until x free_destroying v z = ground (arith, z, v.kept_until)
  main-kept_until x free_unlocking v z = ground (arith, z, v.kept_until)
  main-kept_until x finished v z = ground (arith, z, v.kept_until)

uses-is_alive : (pc : Pc) → uses pc ≤ is_alive pc
uses-is_alive starting = ground arith
uses-is_alive testing = ground arith
uses-is_alive waiting = ground arith
uses-is_alive woken = ground arith
uses-is_alive locking = ground arith
uses-is_alive popping = ground arith
uses-is_alive (rearming t) = ground arith
uses-is_alive (unlocking t) = ground arith
uses-is_alive (running t) = ground arith
uses-is_alive leaving = ground arith
uses-is_alive announcing = ground arith
uses-is_alive gone = ground arith

is_gone-uses : (pc : Pc) → is_gone pc + uses pc ≤ 1
is_gone-uses starting = ground arith
is_gone-uses testing = ground arith
is_gone-uses waiting = ground arith
is_gone-uses woken = ground arith
is_gone-uses locking = ground arith
is_gone-uses popping = ground arith
is_gone-uses (rearming t) = ground arith
is_gone-uses (unlocking t) = ground arith
is_gone-uses (running t) = ground arith
is_gone-uses leaving = ground arith
is_gone-uses announcing = ground arith
is_gone-uses gone = ground arith

after_loop-in_free : (m : MainPc) → after_loop m ≤ in_free m
after_loop-in_free at_rest = ground arith
after_loop-in_free (add_locking t) = ground arith
after_loop-in_free (add_pushing t) = ground arith
after_loop-in_free add_posting = ground arith
after_loop-in_free add_unlocking = ground arith
after_loop-in_free (free_testing wait) = ground arith
after_loop-in_free (free_waiting wait) = ground arith
after_loop-in_free free_locking = ground arith
after_loop-in_free free_destroying = ground arith
after_loop-in_free free_unlocking = ground arith
after_loop-in_free finished = ground arith

total-is_gone-uses : (xs : List Pc) → total is_gone xs + total uses xs ≤ length xs
unfolding total
total-is_gone-uses [] = ground arith
total-is_gone-uses (pc ∷ xs) = omega (arith, is_gone-uses pc, total-is_gone-uses xs)

worker-QuitAt :
    (s : System) (i : ℕ) (o : Option Pc)
    → get_elem? s.workers i ≡ o
    → QuitAt s
    → QuitAt (worker_at s i o)
worker-QuitAt s i none h v = v
worker-QuitAt s i (some pc) h v =
    let pc' = (th_worker s.pool pc).1 in
    record {
      stopped = worker-stopped v pc s.pool.queue refl;
      counted =
          worker-counted v pc s.pool.queue (total is_gone (set s.workers i pc')) refl
            (total-set is_gone s.workers i pc pc' h);
      few = v.few;
      quiet =
          worker-quiet v pc s.pool.queue (total uses (set s.workers i pc')) refl
            (total-set uses s.workers i pc pc' h) (after_loop-in_free s.main);
      kept_until = worker-kept_until v pc s.pool.queue refl;
    }

turn-QuitAt : (t : Turn) (s : System) → length s.workers ≤ 3 → Inv s → QuitAt s → QuitAt (turn t s)
unfolding turn
turn-QuitAt (worker i) s few w v = worker-QuitAt s i (get_elem? s.workers i) refl v
turn-QuitAt (main_thread x) s few w v = record {
  stopped = main-stopped x s.main v;
  counted = main-counted x s.main v;
  few = main-few x s.main v;
  quiet =
      main-quiet x s.main v (omega (arith, few, total-is_gone-uses s.workers))
        (omega (arith, w.alive, total-le uses is_alive uses-is_alive s.workers));
  kept_until = main-kept_until x s.main v;
}

run-QuitAt : (turns : List Turn) (n : ℕ) → n ≤ 3 → QuitAt (run turns n)
unfolding run
run-QuitAt [] n few = record {
  stopped = λ z. absurd (omega (arith, z));
  counted = ground arith;
  few = ground arith;
  quiet = λ z. absurd (omega (arith, z));
  kept_until = λ z. absurd (cc);
}
run-QuitAt (t ∷ turns) n few =
    turn-QuitAt t (run turns n) (omega (arith, few, length-workers turns n)) (run-Inv turns n)
      (run-QuitAt turns n few)

-- In a pool of at most 3 workers, as many as `thpool_free` has rounds, once the queue has been
-- destroyed no worker is on its way to use it.
pub run-destroyed :
    (turns : List Turn) (n i : ℕ) (pc : Pc)
    → n ≤ 3
    → (run turns n).pool.destroyed ≡ true
    → get_elem? (run turns n).workers i ≡ some pc
    → uses pc ≡ 0
run-destroyed turns n i pc few gone_queue h =
    let v = run-QuitAt turns n few in
    omega (arith, total-one uses (run turns n).workers i pc h, v.quiet (v.kept_until gone_queue))
