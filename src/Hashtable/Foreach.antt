-- ===== src/Hashtable/Foreach.antt =====
-- `hashtable_foreach_remove` and `hashtable_min_detroy` of src/hashtable.c: every entry is visited
-- once, and what stays is a table.
use mathlib.Core.List.{flatten}
use netproc.Base.{
  ℕ, zero, suc, ◌+◌, ◌-◌, ◌%◌, ◌≤◌, ◌<◌, ◌≡◌, refl, ap, sym, ◌∙◌, Bool, List, [], ◌∷◌, ◌++◌, ◌==◌,
  arith, inl, inr, length, get_or, length-append, Bool-cases, ==_iff, u64_mod, sub64,
}
use netproc.Hashtable.{
  Chain, Table, nbuckets, remove_chain, remove_buckets, hashtable_foreach_remove, clear_chain,
  clear_buckets, hashtable_min_detroy,
}
use netproc.Hashtable.Chain.{count, Homed}
use netproc.Hashtable.Buckets.{home}
use netproc.Hashtable.Methods.{IsValid}

module _ {ℓ κ} {K V : Type ℓ} {S : Type κ} (to_remove : S → V → S × Bool) where
  remove_chain-append :
      (a b : Chain K V) (s : S)
      → let (s', kept, n) = remove_chain to_remove a s in
        let (s'', rest, m) = remove_chain to_remove b s' in
        remove_chain to_remove (a ++ b) s ≡ (s'', kept ++ rest, n + m)
  unfolding remove_chain
  remove_chain-append [] b s = ground arith
  remove_chain-append (e ∷ a) b s = ground (arith, remove_chain-append a b (to_remove s e.value).0)

  -- The walk over the buckets is the walk over all the entries in a row.
  pub remove_buckets-flatten :
      (bs : List (Chain K V)) (s : S)
      → let (s', kept, n) = remove_buckets to_remove bs s in
        let (t', row, m) = remove_chain to_remove (flatten bs) s in
        (s' ≡ t') × (flatten kept ≡ row) × (n ≡ m)
  unfolding remove_buckets remove_chain flatten
  remove_buckets-flatten [] s = (refl, refl, refl)
  remove_buckets-flatten (c ∷ bs) s = ground (
    arith,
    remove_chain-append c (flatten bs) s,
    remove_buckets-flatten bs (remove_chain to_remove c s).0,
  )

  length-remove_chain :
      (c : Chain K V) (s : S)
      → let (s', kept, n) = remove_chain to_remove c s in length kept + n ≡ length c
  unfolding remove_chain
  length-remove_chain [] s = omega arith
  length-remove_chain (e ∷ c) s = ground (arith, length-remove_chain c (to_remove s e.value).0)

  length-remove_buckets :
      (bs : List (Chain K V)) (s : S) → length (remove_buckets to_remove bs s).1 ≡ length bs
  unfolding remove_buckets
  length-remove_buckets [] s = refl
  length-remove_buckets (c ∷ bs) s =
      ap suc (length-remove_buckets bs (remove_chain to_remove c s).0)

  module _ (fhash : K → ℕ) (cmp : K → K → Bool) where
    Homed-remove_chain :
        (index : K → ℕ) (i : ℕ) (c : Chain K V) (s : S)
        → Homed fhash cmp index i c
        → Homed fhash cmp index i (remove_chain to_remove c s).1
    unfolding remove_chain
    Homed-remove_chain index i [] s h = h
    Homed-remove_chain index i (e ∷ c) s h =
        let rest = Homed-remove_chain index i c (to_remove s e.value).0 h.2 in
        elim (Bool-cases (to_remove s e.value).1) [
          | inl gone ↦ rw gone rest
          | inr stays ↦ rw stays (h.0, h.1, rest)
        ]

    count-remove_chain-le :
        (q : K) (c : Chain K V) (s : S)
        → count fhash cmp q (remove_chain to_remove c s).1 ≤ count fhash cmp q c
    unfolding remove_chain count
    count-remove_chain-le q [] s = omega arith
    count-remove_chain-le q (e ∷ c) s =
        ground (arith, count-remove_chain-le q c (to_remove s e.value).0)

    Homed-remove_buckets :
        (index : K → ℕ) (i : ℕ) (bs : List (Chain K V)) (s : S)
        → ((j : ℕ) → Homed fhash cmp index (i + j) (get_or bs j []))
        → (j : ℕ) → Homed fhash cmp index (i + j) (get_or (remove_buckets to_remove bs s).1 j [])
    unfolding remove_buckets
    Homed-remove_buckets index i [] s h j = h j
    Homed-remove_buckets index i (c ∷ bs) s h zero = Homed-remove_chain index (i + 0) c s (h 0)
    Homed-remove_buckets index i (c ∷ bs) s h (suc j) =
        let e : i + suc j ≡ suc i + j = omega arith in
        rw e (
          Homed-remove_buckets index (suc i) bs (remove_chain to_remove c s).0
            (λ k. let f : suc i + k ≡ i + suc k = omega arith in rw f (h (suc k))) j)

    -- After `hashtable_foreach_remove` the table is valid again, and its entries are those that
    -- one walk over all the entries in a row, from the same state, leaves; the state is that of
    -- the walk too.
    pub hashtable_foreach_remove-IsValid :
        {t : Table K V} (s : S)
        → IsValid fhash cmp t
        → t.nentries < u64_mod
        → let (s', u) = hashtable_foreach_remove t to_remove s in
          let (w, row, n) = remove_chain to_remove (flatten t.buckets) s in
          IsValid fhash cmp u
          × (s' ≡ w)
          × (flatten u.buckets ≡ row)
          × (u.nentries + n ≡ t.nentries)
          × (nbuckets u ≡ nbuckets t)
    unfolding hashtable_foreach_remove
    hashtable_foreach_remove-IsValid {t} s i few =
        let bs = t.buckets in
        let (state, row, gone) = remove_buckets-flatten bs s in
        let width = length-remove_buckets bs s in
        let total = length-remove_chain (flatten bs) s in
        let n = (remove_buckets to_remove bs s).2 in
        let less : (t.nentries + u64_mod - n) % u64_mod + n ≡ t.nentries =
          omega (arith, i.counted) in
        (
          record {
            placed = record {
              sized = omega (arith, i.placed.sized);
              bounded = omega (arith, i.placed.bounded);
              homed = λ j.
                  let index = home fhash (length bs) in
                  let same : (k : ℕ) → 0 + k ≡ k = λ k. omega arith in
                  let kept =
                    Homed-remove_buckets index 0 bs s (λ k. rw same (i.placed.homed k)) j in
                  rw width (rw (same j) at kept);
              unique = λ q. omega (
                arith,
                ap (count fhash cmp q) row,
                count-remove_chain-le q (flatten bs) s,
                i.placed.unique q,
              );
            };
            counted = omega (arith, i.counted, ap length row);
            loaded = omega (arith, i.loaded);
          },
          state,
          row,
          omega arith,
          width,
        )

-- The values of the entries of a chain.
abbrev pub values {ℓ} : {K V : Type ℓ} → Chain K V → List V
values [] = []
values (e ∷ c) = e.value ∷ values c

module _ {ℓ} {K V : Type ℓ} where
  clear_chain_lem :
      (c : Chain K V) (n : ℕ)
      → length c ≤ n
      → n < u64_mod
      → clear_chain c n ≡ (values c, n - length c)
  unfolding clear_chain
  clear_chain_lem [] n h k = ground arith
  clear_chain_lem (e ∷ c) n h k =
      let step : sub64 n 1 ≡ n - 1 = omega arith in
      rw (step, clear_chain_lem c (n - 1) (omega arith) (omega arith)) (ground arith)

  values-append : (a b : Chain K V) → values (a ++ b) ≡ values a ++ values b
  values-append [] b = refl
  values-append (e ∷ a) b = ap (λ l. e.value ∷ l) (values-append a b)

  pub nil_of_length : (c : Chain K V) → length c ≡ 0 → c ≡ []
  nil_of_length [] h = refl
  nil_of_length (e ∷ c) h = absurd (omega arith)

  clear_buckets_lem :
      (bs : List (Chain K V)) (n : ℕ)
      → length (flatten bs) ≡ n
      → n < u64_mod
      → clear_buckets bs n ≡ (values (flatten bs), 0)
  unfolding clear_buckets flatten
  clear_buckets_lem [] n h k = ground arith
  clear_buckets_lem (c ∷ bs) n h k =
      let total = length-append c (flatten bs) in
      elim (Bool-cases (n == 0)) [
        | inl done ↦
            let zero_left : n ≡ 0 = (==_iff n 0).0 done in
            rw (done, nil_of_length (c ++ flatten bs) (h ∙ zero_left)) (ground arith)
        | inr more ↦ rw (
          more,
          clear_chain_lem c n (omega arith) k,
          clear_buckets_lem bs (n - length c) (omega arith) (omega arith),
          values-append c (flatten bs),
        )
      ]

  -- On a valid table of fewer than 2 ^ 64 entries `hashtable_destroy` hands every value to `fclear`
  -- once, in the order of the buckets, and stops early only when no entry is left.
  pub hashtable_min_detroy-values :
      (fhash : K → ℕ) (cmp : K → K → Bool) {t : Table K V}
      → IsValid fhash cmp t
      → t.nentries < u64_mod
      → hashtable_min_detroy t ≡ (values (flatten t.buckets), 0)
  unfolding hashtable_min_detroy
  hashtable_min_detroy-values fhash cmp {t} i few =
      clear_buckets_lem t.buckets t.nentries (sym i.counted) few
