-- ===== src/ThreadPool/Moves.antt =====
-- Which workers of src/resolver/thread_pool.c can move, and how much each may still do.
use netproc.Base.{ℕ, ◌≡◌, true, false, none, some, List, [], ◌∷◌, arith}
use netproc.ThreadPool.{
  Pool, Pc, starting, testing, waiting, woken, locking, popping, rearming, unlocking, running,
  leaving, announcing, gone, th_worker,
}
use netproc.ThreadPool.Invariant.{holds, comes, carries}
use netproc.ThreadPool.Calm.{leaves}

-- How much a worker may still do before it waits, and what a post and a task add to that.
abbrev pub cost : Pc → ℕ
cost waiting = 0
cost testing = 3
cost starting = 4
cost (running t) = 4
cost (unlocking none) = 4
cost (unlocking (some t)) = 5
cost (rearming none) = 5
cost (rearming (some t)) = 15
cost popping = 6
cost locking = 7
cost woken = 8
cost leaving = 2
cost announcing = 1
cost gone = 0

-- Which workers can move.
pub holds-moves :
    (p : Pool) (pc : Pc) (q : List ℕ)
    → p.queue ≡ q
    → cost (th_worker p pc).1 ≡ cost pc
    → holds pc ≡ 0
unfolding th_worker
holds-moves p starting q h e = ground (arith, h, e)
holds-moves p testing q h e = ground (arith, h, e)
holds-moves p waiting q h e = ground (arith, h, e)
holds-moves p woken q h e = ground (arith, h, e)
holds-moves p locking q h e = ground (arith, h, e)
holds-moves p popping [] h e = ground (arith, h, e)
holds-moves p popping (u ∷ q) h e = ground (arith, h, e)
holds-moves p (rearming o) q h e = ground (arith, h, e)
holds-moves p (unlocking none) q h e = ground (arith, h, e)
holds-moves p (unlocking (some t)) q h e = ground (arith, h, e)
holds-moves p (running t) q h e = ground (arith, h, e)
holds-moves p leaving q h e = ground (arith, h, e)
holds-moves p announcing q h e = ground (arith, h, e)
holds-moves p gone q h e = ground (arith, h, e)

pub carries-moves :
    (p : Pool) (pc : Pc) (q : List ℕ) (t : ℕ)
    → p.queue ≡ q
    → cost (th_worker p pc).1 ≡ cost pc
    → carries t pc ≡ 0
unfolding th_worker
carries-moves p starting q t h e = ground (arith, h, e)
carries-moves p testing q t h e = ground (arith, h, e)
carries-moves p waiting q t h e = ground (arith, h, e)
carries-moves p woken q t h e = ground (arith, h, e)
carries-moves p locking q t h e = ground (arith, h, e)
carries-moves p popping [] t h e = ground (arith, h, e)
carries-moves p popping (u ∷ q) t h e = ground (arith, h, e)
carries-moves p (rearming o) q t h e = ground (arith, h, e)
carries-moves p (unlocking none) q t h e = ground (arith, h, e)
carries-moves p (unlocking (some u)) q t h e = ground (arith, h, e)
carries-moves p (running u) q t h e = ground (arith, h, e)
carries-moves p leaving q t h e = ground (arith, h, e)
carries-moves p announcing q t h e = ground (arith, h, e)
carries-moves p gone q t h e = ground (arith, h, e)

pub comes-moves :
    (p : Pool) (pc : Pc) (q : List ℕ)
    → p.queue ≡ q
    → p.worker_stop ≡ false
    → p.locked ≡ false
    → cost (th_worker p pc).1 ≡ cost pc
    → comes pc ≡ 0
unfolding th_worker
comes-moves p starting q h s l e = ground (arith, h, s, l, e)
comes-moves p testing q h s l e = ground (arith, h, s, l, e)
comes-moves p waiting q h s l e = ground (arith, h, s, l, e)
comes-moves p woken q h s l e = ground (arith, h, s, l, e)
comes-moves p locking q h s l e = ground (arith, h, s, l, e)
comes-moves p popping [] h s l e = ground (arith, h, s, l, e)
comes-moves p popping (u ∷ q) h s l e = ground (arith, h, s, l, e)
comes-moves p (rearming o) q h s l e = ground (arith, h, s, l, e)
comes-moves p (unlocking none) q h s l e = ground (arith, h, s, l, e)
comes-moves p (unlocking (some t)) q h s l e = ground (arith, h, s, l, e)
comes-moves p (running t) q h s l e = ground (arith, h, s, l, e)
comes-moves p leaving q h s l e = ground (arith, h, s, l, e)
comes-moves p announcing q h s l e = ground (arith, h, s, l, e)
comes-moves p gone q h s l e = ground (arith, h, s, l, e)

pub leaves-moves :
    (p : Pool) (pc : Pc) (q : List ℕ)
    → p.queue ≡ q
    → p.worker_stop ≡ false
    → p.locked ≡ false
    → p.jobs ≡ true
    → cost (th_worker p pc).1 ≡ cost pc
    → leaves pc ≡ 1
unfolding th_worker
leaves-moves p starting q h s l j e = ground (arith, h, s, l, j, e)
leaves-moves p testing q h s l j e = ground (arith, h, s, l, j, e)
leaves-moves p waiting q h s l j e = ground (arith, h, s, l, j, e)
leaves-moves p woken q h s l j e = ground (arith, h, s, l, j, e)
leaves-moves p locking q h s l j e = ground (arith, h, s, l, j, e)
leaves-moves p popping [] h s l j e = ground (arith, h, s, l, j, e)
leaves-moves p popping (u ∷ q) h s l j e = ground (arith, h, s, l, j, e)
leaves-moves p (rearming o) q h s l j e = ground (arith, h, s, l, j, e)
leaves-moves p (unlocking none) q h s l j e = ground (arith, h, s, l, j, e)
leaves-moves p (unlocking (some t)) q h s l j e = ground (arith, h, s, l, j, e)
leaves-moves p (running t) q h s l j e = ground (arith, h, s, l, j, e)
leaves-moves p leaving q h s l j e = ground (arith, h, s, l, j, e)
leaves-moves p announcing q h s l j e = ground (arith, h, s, l, j, e)
leaves-moves p gone q h s l j e = ground (arith, h, s, l, j, e)
