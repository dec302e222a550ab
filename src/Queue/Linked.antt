-- ===== src/Queue/Linked.antt =====
-- The linked nodes of src/resolver/queue.c against the list of what they hold.
use netproc.Base.{
  ℕ, zero, suc, ◌+◌, ◌<◌, ◌≡◌, refl, ap, sym, ◌∙◌, Bool, true, false, Option, none, some, List, [],
  ◌∷◌, ◌++◌, if◌then◌else◌, ◌==◌, length, length-append, map, arith, u32_mod, Returns,
}
use netproc.Queue.{Heap, Queue, update, enqueue, dequeue, clear_loop, queue_destroy}

module _ {ℓ} {A : Type ℓ} where
  -- From `p` on the nodes hold the elements, to the one at `tail`; later nodes have later places.
  abbrev pub Nodes : (ℕ → Option (Option ℕ × A)) → ℕ → ℕ → ℕ → List A → Type ℓ
  Nodes cell fresh tail p [] = Unit
  Nodes cell fresh tail p (x ∷ []) = (p ≡ tail) × (p < fresh) × (cell p ≡ some (none, x))
  Nodes cell fresh tail p (x ∷ y ∷ xs) =
      (q : ℕ) × (p < q) × (cell p ≡ some (some q, x)) × Nodes cell fresh tail q (y ∷ xs)

  -- The queue holds the elements, from the first to the last.
  pub record Holds (h : Heap A) (queue : Queue) (xs : List A) : Type ℓ where
    pub counted : queue.size ≡ length xs
    pub nodes : Nodes h.cell h.fresh queue.tail queue.head xs

  -- The last node, and its place after all the others.
  Nodes-last :
      (cell : ℕ → Option (Option ℕ × A)) (fresh tail p : ℕ) (x : A) (xs : List A)
      → Nodes cell fresh tail p (x ∷ xs)
      → (y : A) × (cell tail ≡ some (none, y)) × (tail < fresh)
  Nodes-last cell fresh tail p x [] (e, h, c) = (x, ap cell (sym e) ∙ c, omega (arith, e, h))
  Nodes-last cell fresh tail p x (y ∷ xs) (q, lt, c, rest) = Nodes-last cell fresh tail q y xs rest

  Nodes-le :
      (cell : ℕ → Option (Option ℕ × A)) (fresh tail p : ℕ) (x y : A) (xs : List A)
      → Nodes cell fresh tail p (x ∷ y ∷ xs)
      → p < tail
  Nodes-le cell fresh tail p x y [] (q, lt, c, rest) = omega (arith, lt, rest.0)
  Nodes-le cell fresh tail p x y (z ∷ xs) (q, lt, c, rest) =
      omega (arith, lt, Nodes-le cell fresh tail q y z xs rest)

  -- Linking a new node behind the last one.
  Nodes-append :
      (cell : ℕ → Option (Option ℕ × A)) (fresh tail p : ℕ) (x : A) (xs : List A) (v y : A)
      → Nodes cell fresh tail p (x ∷ xs)
      → cell tail ≡ some (none, y)
      → tail < fresh
      → Nodes
          (update (update cell fresh (some (none, v))) tail (some (some fresh, y)))
          (fresh + 1)
          fresh
          p
          (x ∷ xs ++ (v ∷ []))
  Nodes-append cell fresh tail p x [] v y (e, h, c) last lt = (
    fresh,
    omega (arith, e, lt),
    ground (arith, e, c, last),
    (refl, omega arith, ground (arith, lt)),
  )
  Nodes-append cell fresh tail p x (z ∷ xs) v y n last lt =
      let (q, less, c, rest) = n in
      (
        q,
        less,
        ground (arith, c, Nodes-le cell fresh tail p x z xs n, lt),
        Nodes-append cell fresh tail q z xs v y rest last lt,
      )

  -- Freeing a node before all of these changes none of them.
  Nodes-free :
      (cell : ℕ → Option (Option ℕ × A)) (fresh tail p d : ℕ) (x : A) (xs : List A)
      → d < p
      → Nodes cell fresh tail p (x ∷ xs)
      → Nodes (update cell d none) fresh tail p (x ∷ xs)
  Nodes-free cell fresh tail p d x [] lt (e, h, c) = (e, h, ground (arith, c))
  Nodes-free cell fresh tail p d x (z ∷ xs) lt (q, less, c, rest) =
      (q, less, ground (arith, c), Nodes-free cell fresh tail q d z xs (omega arith) rest)

  -- What `dequeue` has done to a queue of the elements.
  abbrev pub Popped : Heap A → Queue → List A → Heap A × Queue × Option A → Type ℓ
  Popped h queue [] r = r ≡ (h, queue, none)
  Popped h queue (x ∷ xs) r = Holds r.0 r.1 xs × (r.2 ≡ some x) × (r.0.cell queue.head ≡ none)

  -- `enqueue` puts the element behind the others and returns the new size, while that fits the
  -- counter; without memory it changes nothing and returns 0. No freed node is followed.
  pub enqueue-Holds :
      (memory : Bool) {h : Heap A} {queue : Queue} (xs : List A) (v : A)
      → Holds h queue xs
      → length xs + 1 < u32_mod
      → Returns (enqueue memory h queue v) λ r.
        if memory
        then Holds r.0 r.1 (xs ++ (v ∷ [])) × (r.2 ≡ length xs + 1)
        else (r ≡ (h, queue, 0))
  unfolding enqueue
  enqueue-Holds false xs v holds small = (_, refl, refl)
  enqueue-Holds true {h} {queue} [] v holds small =
      rw holds.counted
        (_, refl, (record { counted = refl; nodes = (refl, omega arith, ground arith) }, refl))
  enqueue-Holds true {h} {queue} (x ∷ xs) v holds small =
      let (y, last, lt) = Nodes-last h.cell h.fresh queue.tail queue.head x xs holds.nodes in
      let positive : (queue.size == 0) ≡ false = ground (arith, holds.counted) in
      let found : update h.cell h.fresh (some (none, v)) queue.tail ≡ some (none, y) =
        ground (arith, last, lt) in
      rw (positive, found)
        (
          _,
          refl,
          (
            record {
              counted = omega (arith, holds.counted, small, length-append xs (v ∷ []));
              nodes =
                  Nodes-append h.cell h.fresh queue.tail queue.head x xs v y holds.nodes last lt;
            },
            omega (arith, holds.counted, small),
          ),
        )

  -- `dequeue` takes the first element and frees its node, or finds the queue empty and changes
  -- nothing; it never follows a freed node.
  pub dequeue-Holds :
      {h : Heap A} {queue : Queue} (xs : List A)
      → Holds h queue xs
      → length xs < u32_mod
      → Returns (dequeue h queue) (Popped h queue xs)
  unfolding dequeue
  dequeue-Holds {h} {queue} [] holds small = rw holds.counted (_, refl, refl)
  dequeue-Holds {h} {queue} (x ∷ []) holds small =
      let (e, within, here) = holds.nodes in
      let positive : (queue.size == 0) ≡ false = ground (arith, holds.counted) in
      rw (positive, here)
        (
          _,
          refl,
          (
            record { counted = omega (arith, holds.counted, small); nodes = tt },
            refl,
            ground arith,
          ),
        )
  dequeue-Holds {h} {queue} (x ∷ y ∷ xs) holds small =
      let (q, less, here, rest) = holds.nodes in
      let positive : (queue.size == 0) ≡ false = ground (arith, holds.counted) in
      rw (positive, here)
        (
          _,
          refl,
          (
            record {
              counted = omega (arith, holds.counted, small);
              nodes = Nodes-free h.cell h.fresh queue.tail q queue.head y xs less rest;
            },
            refl,
            ground arith,
          ),
        )

  abbrev pub Cleared : List A → Heap A × Queue × List (Option A) → Type ℓ
  Cleared xs r = (r.1.size ≡ 0) × (r.2 ≡ map some xs)

  clear_loop-Cleared :
      (xs : List A) (h : Heap A) (queue : Queue)
      → Holds h queue xs
      → length xs < u32_mod
      → (rounds : ℕ) → rounds ≡ length xs
      → Returns (clear_loop rounds h queue) (Cleared xs)
  unfolding clear_loop
  clear_loop-Cleared [] h queue holds small zero e = (_, refl, (holds.counted, refl))
  clear_loop-Cleared [] h queue holds small (suc rounds) e = absurd (omega (arith, e))
  clear_loop-Cleared (x ∷ xs) h queue holds small zero e = absurd (omega (arith, e))
  clear_loop-Cleared (x ∷ xs) h queue holds small (suc rounds) e =
      let positive : (queue.size == 0) ≡ false = ground (arith, holds.counted) in
      let (r, d, (left, value, freed)) = dequeue-Holds (x ∷ xs) holds small in
      let (s, f, (none_left, values)) =
        clear_loop-Cleared xs r.0 r.1 left (omega (arith, small)) rounds (omega (arith, e)) in
      rw (positive, d, f) (_, refl, (none_left, rw (value, values) refl))

  -- `queue_destroy` ends, follows no freed node, and hands each element to the callback once, from
  -- the first to the last.
  pub queue_destroy-Cleared :
      {h : Heap A} {queue : Queue} (xs : List A)
      → Holds h queue xs
      → length xs < u32_mod
      → Returns (queue_destroy h queue) (Cleared xs)
  unfolding queue_destroy
  queue_destroy-Cleared {h} {queue} xs holds small =
      clear_loop-Cleared xs h queue holds small queue.size holds.counted
