-- ===== src/Queue.antt =====
-- src/resolver/queue.c: a queue of linked nodes, with pointers to the first and to the last. `malloc`
-- gives a place that was never given before, if there is memory; a place that was freed, or never
-- given, holds `none`, and to follow a pointer to it is a fault.
pub mod Linked
mod Tests
use netproc.Base.{
  ℕ, zero, suc, ◌+◌, ◌-◌, Bool, true, false, Option, none, some, List, [], ◌∷◌, if◌then◌else◌, ◌==◌,
  add32, sub32, Run, ok, fault, ◌>>=◌,
}

-- Every node of the heap, as its `next` and its `data`, and the next place to give.
pub record Heap {ℓ} (A : Type ℓ) : Type ℓ where
  pub fresh : ℕ
  pub cell : ℕ → Option (Option ℕ × A)

-- `struct queue`, but for its callback; what `queue_new` leaves in `head` and `tail` is 0.
pub record Queue : Type 0 where
  pub head : ℕ
  pub tail : ℕ
  pub size : ℕ

-- A `next` that is NULL is never followed; it is 0 here.
abbrev pub or_null : Option ℕ → ℕ
or_null none = 0
or_null (some p) = p

abbrev pub get_queue_size : Queue → ℕ
get_queue_size queue = queue.size

module _ {ℓ} {A : Type ℓ} where
  abbrev pub update :
      (ℕ → Option (Option ℕ × A)) → ℕ → Option (Option ℕ × A) → ℕ → Option (Option ℕ × A)
  update cell p v q = if p == q then v else cell q

  -- `*p`
  abbrev pub deref : Option (Option ℕ × A) → Run (Option ℕ × A)
  deref none = fault
  deref (some node) = ok node

  -- `queue->tail->next = element`
  abbrev pub link : Heap A → ℕ → ℕ → Run (Heap A)
  link h tail element = do
    node ← deref (h.cell tail)
    ok (record h { cell = update h.cell tail (some (some element, node.1)) })

  -- `create_element`, for a call of `malloc` that finds memory.
  abbrev pub create_element : Heap A → A → Heap A
  create_element h data' = record {
    fresh = h.fresh + 1;
    cell = update h.cell h.fresh (some (none, data'));
  }

  -- The heap and the queue afterwards, and the result.
  unfoldable pub enqueue : Bool → Heap A → Queue → A → Run (Heap A × Queue × ℕ)
  enqueue false h queue data' = ok (h, queue, 0)
  enqueue true h queue data' =
      let element = h.fresh in
      let made = create_element h data' in
      let size = add32 queue.size 1 in
      if queue.size == 0
      then ok (made, record { head = element; tail = element; size = size }, size)
      else (do
        linked ← link made queue.tail element
        ok (linked, record queue { tail = element; size = size }, size))

  unfoldable pub dequeue : Heap A → Queue → Run (Heap A × Queue × Option A)
  dequeue h queue = if queue.size == 0 then ok (h, queue, none) else (do
    node ← deref (h.cell queue.head)
    ok (
      record h { cell = update h.cell queue.head none },
      record queue { head = or_null node.0; size = sub32 queue.size 1 },
      some node.1,
    ))

  -- The loop of `queue_destroy`, for at most so many rounds: what is left, and what is handed to the
  -- callback, in order.
  unfoldable pub clear_loop : ℕ → Heap A → Queue → Run (Heap A × Queue × List (Option A))
  clear_loop zero h queue = ok (h, queue, [])
  clear_loop (suc rounds) h queue = if queue.size == 0 then ok (h, queue, []) else (do
    taken ← dequeue h queue
    rest ← clear_loop rounds taken.0 taken.1
    ok (rest.0, rest.1, taken.2 ∷ rest.2))

  -- Every round takes one element.
  unfoldable pub queue_destroy : Heap A → Queue → Run (Heap A × Queue × List (Option A))
  unfolding clear_loop
  queue_destroy h queue = clear_loop queue.size h queue
