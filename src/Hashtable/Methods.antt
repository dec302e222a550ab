-- ===== src/Hashtable/Methods.antt =====
-- `hashtable_set`, `hashtable_get` and `hashtable_remove` of src/hashtable.c against a function
-- from keys to values.
use mathlib.Core.List.{flatten}
use netproc.Base.{
  ℕ, ◌+◌, ◌*◌, ◌^◌, ◌≤◌, ◌<◌, ◌≡◌, refl, sym, ◌∙◌, Bool, true, false, Option, none, some, List, [],
  ◌&&◌, if◌then◌else◌, to_nat, arith, length, get_or, Bool-cases, inl, inr, ◌⊎◌, add64, sub64, ok,
  Returns, ◌>>=◌, at-get_or,
}
use netproc.Hashtable.{
  Entry, Chain, Table, nbuckets, next_power2, rehash_size, above_high, hashtable_rehash,
  insert_entry, get_entry, hashtable_min_set, hashtable_min_get, hashtable_set, hashtable_get,
}
use netproc.Hashtable.Power.{next_power2_lem}
use netproc.Hashtable.Chain.{same, IsKeying, fits, lookup, count, count_absent, count_congr}
use netproc.Hashtable.Buckets.{home, view, IsPlaced, get_index-lt, flatten-view, prepend-Prepended}
use netproc.Hashtable.Rehash.{hashtable_rehash-Rehashed}

-- The size that a rehash chooses leaves room.
pub resized-loaded : (n : ℕ) → 0 < n → n < 2 ^ 24 → n * 4 ≤ next_power2 (rehash_size n) * 3
resized-loaded n pos few =
    let (k, small, e, above, below) = next_power2_lem (rehash_size n) (omega arith) (omega arith) in
    rw e (omega arith)

module _ {ℓ} {K V : Type ℓ} (fhash : K → ℕ) (cmp : K → K → Bool) where
  -- The invariant of a table: the entries are in place and counted, and at most three quarters as
  -- many as the buckets.
  pub record IsValid (t : Table K V) : Type ℓ where
    pub placed : IsPlaced fhash cmp t.buckets
    pub counted : t.nentries ≡ length (flatten t.buckets)
    pub loaded : t.nentries * 4 ≤ nbuckets t * 3

  -- What a table holds for a key.
  abbrev pub reads : Table K V → K → Option V
  reads t q = view fhash cmp t.buckets q

  -- Far fewer entries than a `float` counts exactly.
  abbrev pub Few : Table K V → Type 0
  Few t = t.nentries + 1 < 2 ^ 24

  -- `hashtable_get` finds what the table holds, within the array of buckets.
  pub hashtable_get-reads :
      {t : Table K V} (q : K) → IsValid t → hashtable_get fhash cmp t q ≡ ok (reads t q)
  unfolding hashtable_get hashtable_min_get get_entry view lookup
  hashtable_get-reads {t} q i =
      rw
        (at-get_or t.buckets (home fhash (nbuckets t) q) []
          (get_index-lt (fhash q) (nbuckets t) i.placed.sized (omega (arith, i.placed.bounded))))
        (ground arith)

  module _ (laws : IsKeying fhash cmp) where
    pub absent-count :
        (bs : List (Chain K V)) (k q : K)
        → IsPlaced fhash cmp bs
        → view fhash cmp bs k ≡ none
        → same fhash cmp k q ≡ true
        → count fhash cmp q (flatten bs) ≡ 0
    unfolding view
    absent-count bs k q p none_there s =
        let hk : fhash k ≡ fhash q = ground arith in
        let i = home fhash (length bs) q in
        let c = get_or bs i [] in
        sym (flatten-view fhash cmp bs q p).0
        ∙ (count_congr fhash cmp laws (home fhash (length bs)) i k q c (p.homed i) s
            ∙ count_absent fhash cmp k c (rw hk at none_there))

    -- What storing `v` under the new key `k` has done.
    pub record Stored (t : Table K V) (k : K) (v : V) (r : Table K V × Option V) : Type ℓ where
      pub returns : r.1 ≡ some v
      pub valid : IsValid r.0
      pub nentries : r.0.nentries ≡ t.nentries + 1
      pub stored : (q : K) → reads r.0 q ≡ (if same fhash cmp k q then some v else reads t q)

    insert_entry-Stored :
        (t u : Table K V) (k : K) (v : V)
        → IsPlaced fhash cmp u.buckets
        → u.nentries ≡ t.nentries + 1
        → length (flatten u.buckets) ≡ t.nentries
        → ((q : K) → reads u q ≡ reads t q)
        → u.nentries * 4 ≤ nbuckets u * 3
        → reads u k ≡ none
        → Returns
            (insert_entry u (record { key_hash = fhash k; key = k; value = v }) v)
            (Stored t k v)
    insert_entry-Stored t u k v p n e same_reads load absent =
        let entry : Entry K V = record { key_hash = fhash k; key = k; value = v } in
        let (r, run, w) = prepend-Prepended fhash cmp u.buckets entry p refl in
        let apart : (q : K)
            → to_nat (same fhash cmp k q) + count fhash cmp q (flatten u.buckets) ≤ 1 =
          λ q. elim (Bool-cases (same fhash cmp k q)) [
            | inl s ↦ rw s (omega (arith, absent-count u.buckets k q p absent s))
            | inr d ↦ rw d (omega (arith, p.unique q))
          ] in
        (
          (record u { buckets = r }, some v),
          rw run,
          record {
            returns = refl;
            valid = record {
              placed = w.placed apart;
              counted = omega (arith, w.entries);
              loaded = omega (arith, w.width);
            };
            nentries = n;
            stored = λ q. ground (arith, w.reads q, same_reads q);
          },
        )

    abbrev count_one : Table K V → Table K V
    count_one t = record t { nentries = add64 t.nentries 1 }

    -- The branch of `hashtable_min_set` that rehashes first.
    set_full :
        (memory : Bool) {t : Table K V} (k : K) (v : V)
        → IsValid t
        → Few t
        → reads t k ≡ none
        → Returns
            (do
              (grown, done) ← hashtable_rehash memory (count_one t)
              if done
                  then insert_entry grown (record { key_hash = fhash k; key = k; value = v }) v
                  else ok (record grown { nentries = sub64 grown.nentries 1 }, none))
            (λ r. Stored t k v r ⊎ ((r ≡ (t, none)) × (memory ≡ false)))
    set_full memory {t} k v i few absent =
        let (r, run, w) =
          hashtable_rehash-Rehashed fhash cmp memory (count_one t) i.placed (omega arith)
            (omega arith) in
        rw run (elim w.resized [
          | inl (done, size) ↦
              let (s, stored, done') =
                insert_entry-Stored t r.0 k v w.placed (omega (arith, w.nentries))
                  (w.entries ∙ sym i.counted) w.reads
                  (omega (
                    arith,
                    w.nentries,
                    size,
                    resized-loaded (add64 t.nentries 1) (omega arith) (omega arith),
                  ))
                  (w.reads k ∙ absent) in
              (s, rw done stored, inl done')
          | inr (kept, dry) ↦
              let back : sub64 (add64 t.nentries 1) 1 ≡ t.nentries = omega arith in
              ((t, none), rw (kept, back), inr (refl, dry))
        ])

    -- On a valid table that does not hold the key, `hashtable_set` stores the value and keeps the
    -- invariant, or, only if memory is short, leaves the table as it was and returns NULL.
    pub hashtable_set-Stored :
        (entry_memory buckets_memory : Bool) {t : Table K V} (k : K) (v : V)
        → IsValid t
        → Few t
        → reads t k ≡ none
        → Returns
            (hashtable_set fhash cmp entry_memory buckets_memory t k v)
            λ r. Stored t k v r ⊎ ((r ≡ (t, none)) × (entry_memory && buckets_memory ≡ false))
    unfolding hashtable_set hashtable_min_set
    hashtable_set-Stored false buckets_memory {t} k v i few absent =
        ((t, none), refl, inr (refl, refl))
    hashtable_set-Stored true buckets_memory {t} k v i few absent =
        elim (Bool-cases (above_high (add64 t.nentries 1) (nbuckets t))) [
          | inr fits ↦
              let (r, run, done) =
                insert_entry-Stored t (count_one t) k v i.placed (omega arith) (sym i.counted)
                  (λ q. refl) (ground arith) absent in
              (r, rw fits run, inl done)
          | inl full ↦ rw full (set_full buckets_memory k v i few absent)
        ]
