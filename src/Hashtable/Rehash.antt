-- ===== src/Hashtable/Rehash.antt =====
-- `hashtable_rehash` of src/hashtable.c: every entry is moved to a new array, and none is lost.
use mathlib.Core.List.{flatten}
use native.Mathlib.Nat.{pow-le-pow_right}
use netproc.Base.{
  ℕ, zero, suc, ◌+◌, ◌^◌, ◌≤◌, ◌<◌, ◌≡◌, refl, ap, sym, ◌∙◌, Bool, true, false, Option, none, some,
  List, [], ◌∷◌, ◌++◌, if◌then◌else◌, ◌==◌, arith, length, replicate, length-replicate,
  get_or-replicate, Bool-cases, ==_iff, inl, inr, ◌⊎◌, ok, Returns, ◌>>=◌, >>=_assoc, fun_ext,
}
use netproc.Hashtable.{
  Chain, Table, nbuckets, get_index, next_power2, rehash_size, prepend, move_chain, move_all,
  hashtable_rehash, find_entry,
}
use netproc.Hashtable.Power.{next_power2_lem}
use netproc.Hashtable.Chain.{lookup, count, lookup-none, Kept}
use netproc.Hashtable.Buckets.{home, view, IsPlaced, flatten-view, Kept-flatten, prepend-Prepended}

-- The first answer, or else the second.
abbrev pub or_else {ℓ} : {A : Type ℓ} → Option A → Option A → Option A
or_else none o = o
or_else (some a) o = some a

module _ {ℓ} {K V : Type ℓ} where
  move_chain-append :
      (n : ℕ) (a b : Chain K V) (new : List (Chain K V))
      → move_chain n (a ++ b) new ≡ move_chain n a new >>= move_chain n b
  unfolding move_chain
  move_chain-append n [] b new = refl
  move_chain-append n (e ∷ a) b new = simp (>>=_assoc, move_chain-append n a b)

  -- The two loops of `hashtable_rehash` are one over all the entries.
  pub move_all-flatten :
      (n : ℕ) (bs new : List (Chain K V)) → move_all n bs new ≡ move_chain n (flatten bs) new
  unfolding move_all move_chain flatten
  move_all-flatten n [] new = refl
  move_all-flatten n (c ∷ bs) new =
      rw (move_chain-append n c (flatten bs) new, ← fun_ext (move_all-flatten n bs))

  pub flatten-replicate : (n : ℕ) → flatten (replicate {A = Chain K V} n []) ≡ []
  unfolding flatten
  flatten-replicate zero = refl
  flatten-replicate (suc n) = flatten-replicate n

module _ {ℓ} {K V : Type ℓ} (fhash : K → ℕ) (cmp : K → K → Bool) where
  -- An empty array of buckets.
  pub replicate-IsPlaced :
      (n : ℕ) → 0 < n → n ≤ 2 ^ 63 → IsPlaced {V = V} fhash cmp (replicate n [])
  unfolding count
  replicate-IsPlaced n pos small =
      let e = length-replicate {A = Chain K V} n [] in
      record {
        sized = omega (arith, e);
        bounded = omega (arith, e);
        homed = λ i. rw get_or-replicate tt;
        unique = λ q. rw (flatten-replicate {K = K} {V = V} n) (omega arith);
      }

  -- What moving the entries `es` to the array `new` gives.
  pub record Moved (new : List (Chain K V)) (es : Chain K V) (r : List (Chain K V)) : Type ℓ where
    pub width : length r ≡ length new
    pub entries : length (flatten r) ≡ length es + length (flatten new)
    pub placed : IsPlaced fhash cmp r
    pub counts :
        (q : K)
        → count fhash cmp q (flatten r) ≡ count fhash cmp q es + count fhash cmp q (flatten new)
    pub reads :
        (q : K) → view fhash cmp r q ≡ or_else (lookup fhash cmp q es) (view fhash cmp new q)

  move_chain-Moved :
      (es : Chain K V) (new : List (Chain K V)) (n : ℕ)
      → n ≡ length new
      → IsPlaced fhash cmp new
      → Kept fhash cmp es
      → ((q : K) → count fhash cmp q es + count fhash cmp q (flatten new) ≤ 1)
      → Returns (move_chain n es new) (Moved new es)
  unfolding move_chain count lookup find_entry
  move_chain-Moved [] new n width p keeps once = (
    new,
    refl,
    record {
      width = refl;
      entries = omega arith;
      placed = p;
      counts = λ q. omega arith;
      reads = λ q. refl;
    },
  )
  move_chain-Moved (e ∷ es) new n width p keeps once =
      let (moved, run, w) = prepend-Prepended fhash cmp new e p keeps.0 in
      let run' : prepend new e (get_index e.key_hash n) ≡ ok moved = rw width run in
      let placed = w.placed (λ q. omega (arith, once q)) in
      let (r, rest, m) =
        move_chain-Moved es moved n (width ∙ sym w.width) placed keeps.1
          (λ q. omega (arith, once q, w.counts q)) in
      (
        r,
        rw run' rest,
        record {
          width = m.width ∙ w.width;
          entries = omega (arith, m.entries, w.entries);
          placed = m.placed;
          counts = λ q. omega (arith, m.counts q, w.counts q);
          reads = λ q. ground (arith, m.reads q, w.reads q, once q, lookup-none fhash cmp q es);
        },
      )

  -- What `hashtable_rehash` leaves: the entries and what the table reads for every key. Either the
  -- array has the size that goes with the number of entries, or there was no memory for it and
  -- nothing has changed.
  pub record Rehashed (memory : Bool) (t : Table K V) (r : Table K V × Bool) : Type ℓ where
    pub nentries : r.0.nentries ≡ t.nentries
    pub entries : length (flatten r.0.buckets) ≡ length (flatten t.buckets)
    pub placed : IsPlaced fhash cmp r.0.buckets
    pub reads : (q : K) → view fhash cmp r.0.buckets q ≡ view fhash cmp t.buckets q
    pub counts :
        (q : K) → count fhash cmp q (flatten r.0.buckets) ≡ count fhash cmp q (flatten t.buckets)
    pub resized :
        ((r.1 ≡ true) × (nbuckets r.0 ≡ next_power2 (rehash_size t.nentries)))
        ⊎ ((r ≡ (t, false)) × (memory ≡ false))

  -- An array that holds what `bs` holds.
  pub record Carried (bs : List (Chain K V)) (size : ℕ) (r : List (Chain K V)) : Type ℓ where
    pub width : length r ≡ size
    pub entries : length (flatten r) ≡ length (flatten bs)
    pub placed : IsPlaced fhash cmp r
    pub counts : (q : K) → count fhash cmp q (flatten r) ≡ count fhash cmp q (flatten bs)
    pub reads : (q : K) → view fhash cmp r q ≡ view fhash cmp bs q

  pub view-replicate :
      (size : ℕ) (q : K) → view fhash cmp (replicate {A = Chain K V} size []) q ≡ none
  unfolding view lookup find_entry
  view-replicate size q = rw (get_or-replicate size) refl

  -- The loops of `hashtable_rehash` carry all the entries of a table to the new array.
  move_all-Carried :
      (bs : List (Chain K V)) (size : ℕ)
      → IsPlaced fhash cmp bs
      → 0 < size
      → size ≤ 2 ^ 63
      → Returns (move_all size bs (replicate size [])) (Carried bs size)
  unfolding count
  move_all-Carried bs size p pos small =
      let empty = flatten-replicate {K = K} {V = V} size in
      let kept =
        Kept-flatten fhash cmp (home fhash (length bs)) 0 bs
          (λ j. let e : 0 + j ≡ j = omega arith in rw e (p.homed j)) in
      let (r, run, m) =
        move_chain-Moved (flatten bs) (replicate size []) size (sym (length-replicate size []))
          (replicate-IsPlaced size pos small) kept (λ q. rw empty (omega (arith, p.unique q))) in
      (
        r,
        move_all-flatten size bs (replicate size []) ∙ run,
        record {
          width = m.width ∙ length-replicate size [];
          entries = omega (arith, m.entries, ap length empty);
          placed = m.placed;
          counts = λ q. omega (arith, m.counts q, ap (count fhash cmp q) empty);
          reads = λ q.
              ground (arith, m.reads q, view-replicate size q, (flatten-view fhash cmp bs q p).1);
        },
      )

  rehash_moves :
      (memory : Bool) (t : Table K V)
      → IsPlaced fhash cmp t.buckets
      → 0 < t.nentries
      → t.nentries < 2 ^ 24
      → let size = next_power2 (rehash_size t.nentries) in
        Returns
          (if memory
            then (do
              new_buckets ← move_all size t.buckets (replicate size [])
              ok (record t { buckets = new_buckets }, true))
            else ok (t, false))
          (Rehashed memory t)
  rehash_moves false t p some_entries few = (
    (t, false),
    refl,
    record {
      nentries = refl;
      entries = refl;
      placed = p;
      reads = λ q. refl;
      counts = λ q. refl;
      resized = inr (refl, refl);
    },
  )
  rehash_moves true t p some_entries few =
      let size = next_power2 (rehash_size t.nentries) in
      let (k, small, e, above, below) =
        next_power2_lem (rehash_size t.nentries) (omega arith) (omega arith) in
      let big : 2 ^ k ≤ 2 ^ 63 = pow-le-pow_right (omega arith) small in
      let (r, run, m) = move_all-Carried t.buckets size p (omega arith) (omega arith) in
      (
        (record t { buckets = r }, true),
        rw run,
        record {
          nentries = refl;
          entries = m.entries;
          placed = m.placed;
          reads = m.reads;
          counts = m.counts;
          resized = inl (refl, m.width);
        },
      )

  pub hashtable_rehash-Rehashed :
      (memory : Bool) (t : Table K V)
      → IsPlaced fhash cmp t.buckets
      → 0 < t.nentries
      → t.nentries < 2 ^ 24
      → Returns (hashtable_rehash memory t) (Rehashed memory t)
  unfolding hashtable_rehash
  hashtable_rehash-Rehashed memory t p some_entries few =
      let size = next_power2 (rehash_size t.nentries) in
      elim (Bool-cases (size == nbuckets t)) [
        | inl same_size ↦ (
          (t, true),
          rw same_size,
          record {
            nentries = refl;
            entries = refl;
            placed = p;
            reads = λ q. refl;
            counts = λ q. refl;
            resized = inl (refl, sym ((==_iff _ _).0 same_size));
          },
        )
        | inr other ↦ rw other (rehash_moves memory t p some_entries few)
      ]
