-- ===== src/ThreadPool/Progress.antt =====
-- The workers of src/resolver/thread_pool.c get on: a worker's turn that changes something is work
-- done, and when none can change anything, everything that was added has been executed.
use native.Mathlib.Decide.{dec_lt}
use netproc.Base.{
  total-one, ℕ, zero, suc, ◌+◌, ◌*◌, ◌<◌, ◌≤◌, ◌≡◌, ◌⊎◌, inl, inr, refl, ap, ◌∙◌, true, false,
  Option, none, some, Bool-cases, List, [], ◌∷◌, to_nat, arith, length, get_elem?, set, set-same,
  total, total-set, total-pos,
}
use netproc.ThreadPool.{
  Pool, Pc, starting, testing, waiting, woken, locking, popping, rearming, unlocking, running,
  leaving, announcing, gone, th_worker, at_rest, System, Turn, worker, worker_at, turn, run,
}
use netproc.ThreadPool.Invariant.{
  holds, main_holds, main_comes, comes, carries, is_task, Inv, run-Inv, run-kept,
}
use netproc.ThreadPool.Calm.{leaves, empties, CalmAt, run-CalmAt, length-workers}
use netproc.ThreadPool.Moves.{cost, holds-moves, carries-moves, comes-moves, leaves-moves}

abbrev pub shared_cost : Pool → ℕ
shared_cost p = 10 * length p.queue + 9 * to_nat p.jobs

abbrev pub effort : System → ℕ
effort s = shared_cost s.pool + total cost s.workers

worker-cost :
    (p : Pool) (pc : Pc) (q : List ℕ)
    → p.queue ≡ q
    → (0 < empties pc → length p.queue ≡ 0)
    → (th_worker p pc ≡ (p, pc))
      ⊎ (shared_cost (th_worker p pc).0 + cost (th_worker p pc).1 < shared_cost p + cost pc)
unfolding th_worker
worker-cost p starting q h z = inr (ground arith)
worker-cost p testing q h z = inr (ground arith)
worker-cost p waiting q h z = elim (Bool-cases (p.jobs)) [
  | inl e ↦ inr (ground (arith, e))
  | inr e ↦ inl (rw e refl)
]
worker-cost p woken q h z = inr (ground arith)
worker-cost p locking q h z = elim (Bool-cases (p.locked)) [
  | inl e ↦ inl (rw e refl)
  | inr e ↦ inr (ground (arith, e))
]
worker-cost p popping [] h z = inr (ground (arith, h))
worker-cost p popping (u ∷ q) h z = inr (ground (arith, h))
worker-cost p (rearming none) [] h z = inr (ground (arith, h))
worker-cost p (rearming none) (u ∷ q) h z = absurd (ground (arith, h, z))
worker-cost p (rearming (some t)) [] h z = inr (ground (arith, h))
worker-cost p (rearming (some t)) (u ∷ q) h z = inr (ground (arith, h))
worker-cost p (unlocking none) q h z = inr (ground arith)
worker-cost p (unlocking (some t)) q h z = inr (ground arith)
worker-cost p (running t) q h z = inr (ground arith)
worker-cost p leaving q h z = inr (ground arith)
worker-cost p announcing q h z = inr (ground arith)
worker-cost p gone q h z = inl refl

same_or_less :
    (s : System) (i : ℕ) (o : Option Pc)
    → get_elem? s.workers i ≡ o
    → CalmAt s
    → (worker_at s i o ≡ s) ⊎ (effort (worker_at s i o) < effort s)
same_or_less s i none h v = inl refl
same_or_less s i (some pc) h v =
    elim (worker-cost s.pool pc s.pool.queue refl
      (λ z. v.emptied (ground (arith, z, total-one empties s.workers i pc h)))) [
        | inl e ↦ inl (rw (e, set-same s.workers i pc h) refl)
        | inr e ↦ inr (omega (arith, e, total-set cost s.workers i pc (th_worker s.pool pc).1 h))
      ]

-- A worker's turn changes nothing or lowers the effort that is left.
turn-effort :
    (turns : List Turn) (n i : ℕ)
    → (turn (worker i) (run turns n) ≡ run turns n)
      ⊎ (effort (turn (worker i) (run turns n)) < effort (run turns n))
unfolding turn
turn-effort turns n i =
    same_or_less (run turns n) i (get_elem? (run turns n).workers i) refl (run-CalmAt turns n)

-- Turns of the workers after others, the last first.
abbrev pub by_workers : List ℕ → List Turn → List Turn
by_workers [] turns = turns
by_workers (i ∷ ws) turns = worker i ∷ by_workers ws turns

-- Each of these turns changes something.
abbrev pub AllChange : List ℕ → List Turn → ℕ → Type 0
AllChange [] turns n = Unit
AllChange (i ∷ ws) turns n =
    ¬ (run (by_workers (i ∷ ws) turns) n ≡ run (by_workers ws turns) n) × AllChange ws turns n

-- After any turns, the workers alone take no more turns that change something than the number
-- `effort` of the state they start from, in whatever order they take them: they come to a stop.
pub run-bounded :
    (turns : List Turn) (n : ℕ) (ws : List ℕ)
    → AllChange ws turns n
    → length ws + effort (run (by_workers ws turns) n) ≤ effort (run turns n)
unfolding run
run-bounded turns n [] change = omega arith
run-bounded turns n (i ∷ ws) (change, changes) = elim (turn-effort (by_workers ws turns) n i) [
  | inl same ↦ absurd (change same)
  | inr less ↦ omega (arith, less, run-bounded turns n ws changes)
]

-- Where nobody's turn moves a worker, a weight that only workers that can move have is 0 in all.
module _ (s : System)
    (settled : (i : ℕ) (pc : Pc)
      → get_elem? s.workers i ≡ some pc
      → (th_worker s.pool pc).1 ≡ pc) where
  settled-total :
      (w : Pc → ℕ) → ((pc : Pc) → (th_worker s.pool pc).1 ≡ pc → w pc ≡ 0) → total w s.workers ≡ 0
  settled-total w f = elim (dec_lt 0 (total w s.workers)) [
    | yes p ↦
        let (i, pc, e, pos) = total-pos w s.workers p in
        absurd (omega (arith, pos, f pc (settled i pc e)))
    | no p ↦ omega (arith, p)
  ]

first_elem : (xs : List Pc) → 0 < length xs → (a : Pc) × (get_elem? xs 0 ≡ some a)
first_elem [] h = absurd (omega arith)
first_elem (x ∷ xs) h = (x, refl)

length-zero : (xs : List ℕ) → length xs ≡ 0 → xs ≡ []
length-zero [] h = refl
length-zero (x ∷ xs) h = absurd (omega (arith, h))

get_elem?-set-same :
    (xs : List Pc) (i : ℕ) (a b : Pc) → get_elem? xs i ≡ some a → set xs i b ≡ xs → b ≡ a
get_elem?-set-same [] i a b h e = absurd (cc)
get_elem?-set-same (x ∷ xs) zero a b h e = cc
get_elem?-set-same (x ∷ xs) (suc i) a b h e = get_elem?-set-same xs i a b h (cc)

still :
    (s : System) (i : ℕ) (o : Option Pc) (pc : Pc)
    → get_elem? s.workers i ≡ o
    → worker_at s i o ≡ s
    → o ≡ some pc
    → (th_worker s.pool pc).1 ≡ pc
still s i none pc h e k = absurd (cc)
still s i (some pc') pc h e k =
    get_elem?-set-same s.workers i pc (th_worker s.pool pc).1 (h ∙ k)
      (ap (λ x. set s.workers i (th_worker s.pool x).1) (cc) ∙ ap (λ r. r.workers) e)

-- What is left to do where nothing moves, the pool is not to stop, and the main thread is at rest.
module _ (s : System)
    (settled : (i : ℕ) (pc : Pc) → get_elem? s.workers i ≡ some pc → (th_worker s.pool pc).1 ≡ pc)
    (v : Inv s) (rest : s.main ≡ at_rest) (on : s.pool.worker_stop ≡ false) where
  settled-unlocked : s.pool.locked ≡ false
  settled-unlocked =
      let e =
        settled-total s settled holds
          (λ pc k. holds-moves s.pool pc s.pool.queue refl (ap cost k)) in
      ground (arith, e, v.exclusive, ap main_holds rest)

  settled-comes : total comes s.workers ≡ 0
  settled-comes =
      settled-total s settled comes
        (λ pc k. comes-moves s.pool pc s.pool.queue refl on settled-unlocked (ap cost k))

  settled-carries : (t : ℕ) → total (carries t) s.workers ≡ 0
  settled-carries t =
      settled-total s settled (carries t)
        (λ pc k. carries-moves s.pool pc s.pool.queue t refl (ap cost k))

  settled-leaves : s.pool.jobs ≡ true → 0 < length s.workers → 0 < total leaves s.workers
  settled-leaves j w =
      let (pc, e) = first_elem s.workers w in
      omega (
        arith,
        total-one leaves s.workers 0 pc e,
        leaves-moves s.pool pc s.pool.queue refl on settled-unlocked j (ap cost (settled 0 pc e)),
      )

  settled-queue : CalmAt s → 0 < length s.workers → s.pool.queue ≡ []
  settled-queue k w = elim (Bool-cases (s.pool.jobs)) [
    | inl j ↦ absurd (omega (arith, settled-leaves j w, k.staying on))
    | inr j ↦ elim (dec_lt 0 (length s.pool.queue)) [
      | yes p ↦ absurd (omega (arith, v.awake on p, ap to_nat j, settled-comes, ap main_comes rest))
      | no p ↦ length-zero s.pool.queue (omega (arith, p))
    ]
  ]

-- While the pool has a worker and is not to stop, and the main thread is at rest: once no worker's
-- turn changes anything, after any turns, the queue is empty and each task has been executed as
-- often as it was added.
pub run-settled :
    (turns : List Turn) (n : ℕ)
    → 0 < n
    → (run turns n).pool.worker_stop ≡ false
    → (run turns n).main ≡ at_rest
    → ((i : ℕ) → turn (worker i) (run turns n) ≡ run turns n)
    → ((run turns n).pool.queue ≡ [])
      × ((t : ℕ)
          → total (is_task t) (run turns n).pool.done ≡ total (is_task t) (run turns n).pool.added)
unfolding turn total
run-settled turns n pos on rest fixed =
    let s = run turns n in
    let settled = λ (i : ℕ) (pc : Pc) (e : get_elem? s.workers i ≡ some pc).
      still s i (get_elem? s.workers i) pc refl (fixed i) e in
    let v = run-Inv turns n in
    let k = run-CalmAt turns n in
    let q = settled-queue s settled v rest on k (omega (arith, pos, length-workers turns n)) in
    (
      q,
      λ t. omega (
        arith,
        run-kept turns n t (ground (arith, k.staying on)),
        settled-carries s settled v rest on t,
        ap (total (is_task t)) q,
      ),
    )
