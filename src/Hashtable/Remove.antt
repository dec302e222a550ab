-- ===== src/Hashtable/Remove.antt =====
-- `hashtable_remove` of src/hashtable.c: the entry goes, and a table with few entries shrinks.
use netproc.Base.{
  ℕ, ◌+◌, ◌*◌, ◌^◌, ◌≤◌, ◌<◌, ◌≡◌, refl, ap, sym, ◌∙◌, Bool, true, Option, none, some, List, [],
  if◌then◌else◌, ◌==◌, arith, get_or, set, length-set, Bool-cases, Option-cases, ==_iff, inl, inr,
  ◌⊎◌, sub64, Returns, ◌>>=◌, at-get_or,
}
use netproc.Hashtable.{
  Entry, Chain, Table, nbuckets, get_index, below_low, find_entry, unlink, shrink,
  hashtable_min_remove, hashtable_remove,
}
use netproc.Hashtable.Chain.{
  same, IsKeying, lookup, count, lookup-none, count-unlink-le, length-unlink, Homed-unlink,
  lookup-unlink,
}
use netproc.Hashtable.Buckets.{
  home, chain_of, view, IsPlaced, get_index-lt, flatten-view, length-flatten-set, count-flatten-set,
  view-set, set-IsPlaced,
}
use netproc.Hashtable.Rehash.{hashtable_rehash-Rehashed}
use netproc.Hashtable.Methods.{IsValid, reads, resized-loaded, absent-count}

-- 1 for a value that was there.
abbrev pub found {ℓ} : {A : Type ℓ} → Option A → ℕ
found none = 0
found (some a) = 1

module _ {ℓ} {K V : Type ℓ} (fhash : K → ℕ) (cmp : K → K → Bool) where
  -- Shrinking changes neither the entries nor what is read.
  shrink-IsValid :
      (memory : Bool) (u : Table K V)
      → IsValid fhash cmp u
      → 0 < u.nentries
      → u.nentries < 2 ^ 24
      → Returns (shrink memory u) λ w.
        IsValid fhash cmp w
        × (w.nentries ≡ u.nentries)
        × ((q : K) → reads fhash cmp w q ≡ reads fhash cmp u q)
  shrink-IsValid memory u i pos few = elim (Bool-cases (below_low u.nentries (nbuckets u))) [
    | inr no_need ↦ (u, rw no_need, (i, refl, λ q. refl))
    | inl low ↦
        let (r, run, w) = hashtable_rehash-Rehashed fhash cmp memory u i.placed pos few in
        let loaded : r.0.nentries * 4 ≤ nbuckets r.0 * 3 = elim w.resized [
          | inl (done, size) ↦ omega (arith, w.nentries, size, resized-loaded u.nentries pos few)
          | inr (kept, dry) ↦ rw kept i.loaded
        ] in
        (
          r.0,
          rw (low, run),
          (
            record {
              placed = w.placed;
              counted = w.nentries ∙ (i.counted ∙ sym w.entries);
              loaded = loaded;
            },
            w.nentries,
            w.reads,
          ),
        )
  ]

  -- The table after the entry of `k` has been taken out of its bucket.
  abbrev pub unlinked : Table K V → K → Table K V
  unlinked t k =
      let index = home fhash (nbuckets t) k in
      record {
        nentries = sub64 t.nentries 1;
        buckets = set t.buckets index (unlink cmp k (fhash k) (get_or t.buckets index []));
      }

  pub unlinked-IsValid :
      (t : Table K V) (k : K) (e : Entry K V)
      → IsValid fhash cmp t
      → find_entry cmp k (fhash k) (chain_of fhash cmp t.buckets k) ≡ some e
      → t.nentries < 2 ^ 24
      → IsValid fhash cmp (unlinked t k) × ((unlinked t k).nentries + 1 ≡ t.nentries)
  unlinked-IsValid t k e i there few =
      let bs = t.buckets in
      let n = nbuckets t in
      let index = home fhash n k in
      let chain = get_or bs index [] in
      let c = unlink cmp k (fhash k) chain in
      let within = get_index-lt (fhash k) n i.placed.sized (omega (arith, i.placed.bounded)) in
      let shorter = length-unlink fhash cmp k chain e there in
      let total = length-flatten-set bs index c within in
      (
        record {
          placed =
              set-IsPlaced fhash cmp bs index c within i.placed
                (Homed-unlink fhash cmp (home fhash n) index k chain (i.placed.homed index))
                (λ q. omega (
                  arith,
                  count-flatten-set fhash cmp bs index c q within,
                  count-unlink-le fhash cmp q k chain,
                  i.placed.unique q,
                ));
          counted = omega (arith, i.counted);
          loaded = omega (arith, i.counted, i.loaded, length-set bs index c);
        },
        omega (arith, i.counted),
      )

  pub reads-miss :
      (t : Table K V) (k : K)
      → find_entry cmp k (fhash k) (chain_of fhash cmp t.buckets k) ≡ none
      → reads fhash cmp t k ≡ none
  unfolding view lookup
  reads-miss t k miss = rw (miss, lookup)

  pub reads-hit :
      (t : Table K V) (k : K) (e : Entry K V)
      → find_entry cmp k (fhash k) (chain_of fhash cmp t.buckets k) ≡ some e
      → reads fhash cmp t k ≡ some e.value
  unfolding view lookup
  reads-hit t k e hit = rw (hit, lookup)

  module _ (laws : IsKeying fhash cmp) where
    absent-reads :
        (bs : List (Chain K V)) (k q : K)
        → IsPlaced fhash cmp bs
        → view fhash cmp bs k ≡ none
        → same fhash cmp k q ≡ true
        → view fhash cmp bs q ≡ none
    unfolding view
    absent-reads bs k q p gone s =
        lookup-none fhash cmp q (chain_of fhash cmp bs q)
          ((flatten-view fhash cmp bs q p).0 ∙ absent-count fhash cmp laws bs k q p gone s)

    unlinked-reads :
        (t : Table K V) (k q : K)
        → IsValid fhash cmp t
        → reads fhash cmp (unlinked t k) q
          ≡ (if same fhash cmp k q then none else reads fhash cmp t q)
    unfolding view
    unlinked-reads t k q i =
        let bs = t.buckets in
        let n = nbuckets t in
        let index = home fhash n k in
        let chain = get_or bs index [] in
        let within = get_index-lt (fhash k) n i.placed.sized (omega (arith, i.placed.bounded)) in
        view-set fhash cmp bs index (unlink cmp k (fhash k) chain) within q
        ∙ elim (Bool-cases (index == home fhash n q)) [
          | inl here ↦
              let hx : index ≡ home fhash n q = (==_iff _ _).0 here in
              let once : count fhash cmp q chain ≤ 1 =
                rw hx (rw (flatten-view fhash cmp bs q i.placed).0 (i.placed.unique q)) in
              rw here (
                lookup-unlink fhash cmp laws (home fhash n) index k q chain (i.placed.homed index)
                  once
                ∙ ap (λ j. if same fhash cmp k q then none else lookup fhash cmp q (get_or bs j []))
                    hx)
          | inr other ↦ rw other (elim (Bool-cases (same fhash cmp k q)) [
            | inl s ↦
                let hk : fhash k ≡ fhash q = ground arith in
                let hx : index ≡ home fhash n q = ap (λ h. get_index h n) hk in
                absurd (ground arith)
            | inr d ↦ rw d
          ])
        ]

    -- What removing `k` has done.
    pub record Removed (t : Table K V) (k : K) (r : Table K V × Option V) : Type ℓ where
      pub returns : r.1 ≡ reads fhash cmp t k
      pub valid : IsValid fhash cmp r.0
      pub nentries : r.0.nentries + found r.1 ≡ t.nentries
      pub removed :
          (q : K)
          → reads fhash cmp r.0 q ≡ (if same fhash cmp k q then none else reads fhash cmp t q)

    -- On a valid table of fewer than 2 ^ 24 entries, where there is more than one entry or the key is
    -- absent: `hashtable_remove` returns the value of the key or NULL, lowers the count by one if it
    -- was there, leaves a valid table, takes the key out and keeps every other. Of the last entry of
    -- a table nothing is said here.
    pub hashtable_remove-Removed :
        (memory : Bool) {t : Table K V} (k : K)
        → IsValid fhash cmp t
        → t.nentries < 2 ^ 24
        → (1 < t.nentries) ⊎ (reads fhash cmp t k ≡ none)
        → Returns (hashtable_remove fhash cmp memory t k) (Removed t k)
    unfolding hashtable_remove hashtable_min_remove
    hashtable_remove-Removed memory {t} k i few more =
        let index = home fhash (nbuckets t) k in
        let within =
          get_index-lt (fhash k) (nbuckets t) i.placed.sized (omega (arith, i.placed.bounded)) in
        let opened = at-get_or t.buckets index [] within in
        elim (Option-cases (find_entry cmp k (fhash k) (chain_of fhash cmp t.buckets k))) [
          | inl miss ↦
              let gone = reads-miss t k miss in
              (
                (t, none),
                rw (opened, ◌>>=◌, miss),
                record {
                  returns = sym gone;
                  valid = i;
                  nentries = omega arith;
                  removed = λ q. elim (Bool-cases (same fhash cmp k q)) [
                    | inl s ↦ rw s (absent-reads t.buckets k q i.placed gone s)
                    | inr d ↦ rw d
                  ];
                },
              )
          | inr (e, hit) ↦
              let (valid, less) = unlinked-IsValid t k e i hit few in
              let there = reads-hit t k e hit in
              let pos : 0 < (unlinked t k).nentries = elim more [
                | inl two ↦ omega arith
                | inr gone ↦ absurd (cc)
              ] in
              let (u, run, (v, n, rd)) =
                shrink-IsValid memory (unlinked t k) valid pos (omega arith) in
              (
                (u, some e.value),
                rw (opened, ◌>>=◌, hit, run),
                record {
                  returns = sym there;
                  valid = v;
                  nentries = omega arith;
                  removed = λ q. rd q ∙ unlinked-reads t k q i;
                },
              )
        ]
