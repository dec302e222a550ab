-- ===== src/Queue/Tests.antt =====
-- Two elements through the queue.
use netproc.Base.{ℕ, ◌≡◌, refl, true, none, some, [], ◌∷◌, if◌then◌else◌, arith, ok, Returns, ◌>>=◌}
use netproc.Queue.{queue_destroy, Heap, Queue, update, enqueue, dequeue}
use netproc.Queue.Linked.{Cleared, queue_destroy-Cleared, Holds, enqueue-Holds}

abbrev empty_heap : Heap ℕ
empty_heap = record { fresh = 1; cell = λ p. none }

abbrev new : Queue
new = record { head = 0; tail = 0; size = 0 }

in_order :
    (enqueue true empty_heap new 30 >>= λ a.
    enqueue true a.0 a.1 40 >>= λ b. dequeue b.0 b.1 >>= λ c. dequeue c.0 c.1 >>= λ d. ok d.2)
    ≡ ok (some 40)
unfolding enqueue dequeue
in_order = refl

abbrev heap : Heap ℕ
heap = record { fresh = 2; cell = update empty_heap.cell 1 (some (none, 30)) }

abbrev one : Queue
one = record { head = 1; tail = 1; size = 1 }

one-Holds : Holds heap one (30 ∷ [])
one-Holds = record { counted = refl; nodes = (refl, omega arith, refl) }

enqueue-Holds_example :
    Returns
      (enqueue true heap one 40)
      λ r. if true then Holds r.0 r.1 (30 ∷ 40 ∷ []) × (r.2 ≡ 2) else (r ≡ (heap, one, 0))
enqueue-Holds_example = enqueue-Holds true (30 ∷ []) 40 one-Holds (omega arith)

queue_destroy-Cleared_example : Returns (queue_destroy heap one) (Cleared (30 ∷ []))
queue_destroy-Cleared_example = queue_destroy-Cleared (30 ∷ []) one-Holds (omega arith)
