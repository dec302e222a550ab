-- ===== src/Processes/Live.antt =====
-- The processes of src/processes.c that can be reached: those of the table, and those that are
-- listed, have not been freed.
use mathlib.Core.List.{flatten}
use mathlib.Core.Option.{some-injective}
use netproc.Base.{
  ℕ, ◌+◌, ◌≤◌, ◌<◌, ◌≡◌, inl, inr, ap, sym, ◌∙◌, Bool, true, false, ◌&&◌, ◌||◌, not, Option, some,
  [], ◌∷◌, ◌==◌, Bool-cases, arith, length, u64_mod,
}
use netproc.Hashtable.{Chain, Entry, Table, remove_chain, find_entry, hashtable_foreach_remove}
use netproc.Hashtable.Chain.{IsKeying, lookup, lookup-none, count, Kept}
use netproc.Hashtable.Buckets.{home, flatten-view, Kept-flatten}
use netproc.Hashtable.Methods.{IsValid, reads}
use netproc.Hashtable.Foreach.{hashtable_foreach_remove-IsValid}
use netproc.Processes.{Memory, Processes, remove_dead_proc, same_pid, remove_dead, is_active}
use netproc.Processes.Dead.{pid_of, is_freed, Keyed, occurs, Unique, alive, stands, walk-Walked}

pub same_pid-IsKeying : (hash : ℕ → ℕ) → IsKeying hash same_pid
same_pid-IsKeying hash = record {
  same_refl = λ a. ground arith;
  same_symm = λ a b. ground arith;
  same_trans = λ a b c e f. ground (arith, e, f);
}

module _ (pid_hash : ℕ → ℕ) where
  abbrev pub finds : Table ℕ ℕ → ℕ → Option ℕ
  finds t q = reads pid_hash same_pid t q

  -- The table gives a process of its number that has not been freed, and only places that were
  -- allocated have been freed.
  pub record Live (m : Memory) (t : Table ℕ ℕ) : Type 0 where
    pub pids : (q p : ℕ) → finds t q ≡ some p → pid_of m.store p ≡ some q
    pub unfreed : (q p : ℕ) → finds t q ≡ some p → is_freed p m.freed ≡ false
    pub bounded : (x : ℕ) → is_freed x m.freed ≡ true → x < length m.store

  rest_lookup :
      (e : Entry ℕ ℕ) (c : Chain ℕ ℕ) (q p : ℕ)
      → occurs pid_hash q (e ∷ c) ≤ 1
      → lookup pid_hash same_pid q c ≡ some p
      → lookup pid_hash same_pid q (e ∷ c) ≡ some p
  unfolding lookup find_entry count
  rest_lookup e c q p once h = ground (arith, once, h, lookup-none pid_hash same_pid q c)

  own_lookup :
      (e : Entry ℕ ℕ) (c : Chain ℕ ℕ)
      → e.key_hash ≡ pid_hash e.key
      → lookup pid_hash same_pid e.key (e ∷ c) ≡ some e.value
  unfolding lookup find_entry
  own_lookup e c h = ground (arith, h)

  all-Keyed :
      (m : Memory) (c : Chain ℕ ℕ)
      → Kept pid_hash same_pid c
      → Unique pid_hash c
      → ((q p : ℕ)
          → lookup pid_hash same_pid q c ≡ some p
          → (pid_of m.store p ≡ some q) × (is_freed p m.freed ≡ false))
      → Keyed m c
  unfolding count
  all-Keyed m [] h u f = tt
  all-Keyed m (e ∷ c) (h, hs) u f =
      let (a, b) = f e.key e.value (own_lookup e c h) in
      (
        a,
        b,
        all-Keyed m c hs (λ q. omega (arith, u q)) (λ q p g. f q p (rest_lookup e c q p (u q) g)),
      )

  abbrev same_entry : Entry ℕ ℕ → ℕ → Bool
  same_entry e q = (e.key_hash == pid_hash q) && (e.key == q)

  Keyed-lookup :
      (m : Memory) (c : Chain ℕ ℕ) (q p : ℕ)
      → Keyed m c
      → lookup pid_hash same_pid q c ≡ some p
      → (pid_of m.store p ≡ some q) × (is_freed p m.freed ≡ false)
  unfolding lookup find_entry
  Keyed-lookup m [] q p k h = absurd (cc)
  Keyed-lookup m (e ∷ c) q p (a, b, k) h = elim (Bool-cases (same_entry e q)) [
    | inl here ↦
        let place : e.value ≡ p = some-injective e.value p (ground (arith, here, h)) in
        let key : e.key ≡ q = ground (arith, here) in (cc, cc)
    | inr other ↦ Keyed-lookup m c q p k (ground (arith, other, h))
  ]

  pub lookup_flat :
      {t : Table ℕ ℕ} (q : ℕ)
      → IsValid pid_hash same_pid t
      → finds t q ≡ lookup pid_hash same_pid q (flatten t.buckets)
  lookup_flat {t} q i = (flatten-view pid_hash same_pid t.buckets q i.placed).1

  Kept-flat :
      {t : Table ℕ ℕ} → IsValid pid_hash same_pid t → Kept pid_hash same_pid (flatten t.buckets)
  Kept-flat {t} i =
      let index = home pid_hash (length t.buckets) in
      let same_index : (k : ℕ) → 0 + k ≡ k = λ k. omega arith in
      Kept-flatten pid_hash same_pid index 0 t.buckets (λ j. rw same_index (i.placed.homed j))

  -- What `remove_dead` has done: the table is valid, no larger than before, and all of its processes
  -- can be used; it finds the processes that it found before and that were seen. Freed are the
  -- processes that were freed before, and those of the table that were not seen; a process of the
  -- table is not seen any more.
  abbrev pub Cleaned : Memory → Table ℕ ℕ → Memory × Table ℕ ℕ → Type 0
  Cleaned m t r =
      IsValid pid_hash same_pid r.1
      × (r.1.nentries ≤ t.nentries)
      × Live r.0 r.1
      × ((q : ℕ) → finds r.1 q ≡ alive m.store (finds t q))
      × ((x : ℕ)
          → is_freed x r.0.freed
            ≡ (is_freed x m.freed || (stands x (flatten t.buckets) && not (is_active m.store x))))
      × ((x : ℕ)
          → is_active r.0.store x ≡ (is_active m.store x && not (stands x (flatten t.buckets))))

  -- On a valid table of fewer than 2 ^ 64 entries whose processes can be used, the walk over the
  -- table keeps the processes that were seen since the last one and takes the others out; it frees
  -- exactly the processes of the table that were not seen, no process of it counts as seen
  -- afterwards, and the table is valid, no larger than before, and its processes can be used.
  pub remove_dead-Cleaned :
      (procs : Processes)
      → IsValid pid_hash same_pid procs.ht_process
      → procs.ht_process.nentries < u64_mod
      → Live procs.memory procs.ht_process
      → Cleaned procs.memory procs.ht_process (remove_dead procs)
  unfolding remove_dead
  remove_dead-Cleaned procs i few live =
      let t = procs.ht_process in
      let m = procs.memory in
      let c = flatten t.buckets in
      let (valid, state, row, left, width) =
        hashtable_foreach_remove-IsValid remove_dead_proc pid_hash same_pid m i few in
      let u = (hashtable_foreach_remove t remove_dead_proc m).1 in
      let m' = (hashtable_foreach_remove t remove_dead_proc m).0 in
      let keyed =
        all-Keyed m c (Kept-flat i) i.placed.unique (λ q p g.
          (live.pids q p (lookup_flat q i ∙ g), live.unfreed q p (lookup_flat q i ∙ g))) in
      let w = walk-Walked pid_hash m c (Kept-flat i) i.placed.unique keyed in
      let flat : (q : ℕ)
          → finds u q ≡ lookup pid_hash same_pid q (remove_chain remove_dead_proc c m).1 =
        λ q. lookup_flat q valid ∙ ap (lookup pid_hash same_pid q) row in
      (
        valid,
        omega (arith, left),
        rw state record {
          pids = λ q p g. (Keyed-lookup _ _ q p w.keyed (sym (flat q) ∙ g)).0;
          unfreed = λ q p g. (Keyed-lookup _ _ q p w.keyed (sym (flat q) ∙ g)).1;
          bounded = λ x f. ground (arith, w.size, w.bounded x f, live.bounded x);
        },
        (λ q. flat q ∙ (w.found q ∙ ap (alive m.store) (sym (lookup_flat q i)))),
        (λ x. rw state (w.dead x)),
        (λ x. rw state (w.reset x)),
      )
