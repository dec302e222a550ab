-- ===== src/Hashtable/Shrink.antt =====
-- The life of a table at its ends: a new one, and one that has lost its last entry.
use mathlib.Core.List.{flatten}
use mathlib.Core.Path.{subst}
use mathlib.Core.Option.{some-injective}
use netproc.Base.{
  ℕ, ◌<◌, ◌≡◌, ◌≢◌, refl, ap, sym, ◌∙◌, Bool, true, false, none, some, [], ◌==◌, arith,
  Option-cases, inl, inr, sub64, ok, fault, Returns, ◌>>=◌, at, at-get_or,
}
use netproc.Hashtable.{
  Table, nbuckets, below_low, rehash_size, next_power2, move_chain, hashtable_rehash, find_entry,
  shrink, get_entry, hashtable_min_get, hashtable_min_new, hashtable_min_remove, hashtable_get,
  hashtable_remove,
}
use netproc.Hashtable.Power.{next_power2-zero}
use netproc.Hashtable.Buckets.{home, chain_of, get_index-lt}
use netproc.Hashtable.Rehash.{move_all-flatten, view-replicate, replicate-IsPlaced}
use netproc.Hashtable.Foreach.{nil_of_length}
use netproc.Hashtable.Methods.{IsValid, reads}
use netproc.Hashtable.Remove.{unlinked, unlinked-IsValid, reads-hit, reads-miss}

module _ {ℓ} {K V : Type ℓ} (fhash : K → ℕ) (cmp : K → K → Bool) where
  -- A new table is valid, and holds nothing for any key.
  pub hashtable_min_new-IsValid :
      (table_memory buckets_memory : Bool) {t : Table K V}
      → hashtable_min_new table_memory buckets_memory ≡ some t
      → IsValid fhash cmp t × (t.nentries ≡ 0) × ((q : K) → reads fhash cmp t q ≡ none)
  unfolding hashtable_min_new flatten
  hashtable_min_new-IsValid true true {t} h =
      subst (λ u. IsValid fhash cmp u × (u.nentries ≡ 0) × ((q : K) → reads fhash cmp u q ≡ none))
        (some-injective _ _ h)
        (
          record {
            placed = replicate-IsPlaced fhash cmp 16 (omega arith) (omega arith);
            counted = refl;
            loaded = omega arith;
          },
          refl,
          view-replicate fhash cmp 16,
        )
  hashtable_min_new-IsValid true false h = absurd (cc)
  hashtable_min_new-IsValid false buckets_memory h = absurd (cc)

  -- Shrinking a table with no entries leaves no buckets.
  shrink_empty :
      (u : Table K V)
      → u.nentries ≡ 0
      → 0 < nbuckets u
      → flatten u.buckets ≡ []
      → shrink true u ≡ ok (record u { buckets = [] })
  unfolding hashtable_rehash move_chain
  shrink_empty u none_left pos empty =
      let low : below_low u.nentries (nbuckets u) ≡ true = ground arith in
      let other : (0 == nbuckets u) ≡ false = ground arith in
      let size : next_power2 (rehash_size u.nentries) ≡ 0 =
        ap (λ n. next_power2 (rehash_size n)) none_left ∙ next_power2-zero in
      rw (low, size, other) (rw (move_all-flatten 0 u.buckets [], empty))

  get_no_buckets :
      (n : ℕ) (q : K)
      → hashtable_get {V = V} fhash cmp (record { nentries = n; buckets = [] }) q ≡ fault
  unfolding hashtable_get hashtable_min_get get_entry at
  get_no_buckets n q = refl

  -- Once `hashtable_remove` has taken the last entry, the table has no buckets at all, and every
  -- `hashtable_get` on it reads outside of the array.
  pub hashtable_remove_last :
      {t : Table K V} (k : K)
      → IsValid fhash cmp t
      → t.nentries ≡ 1
      → reads fhash cmp t k ≢ none
      → Returns (hashtable_remove fhash cmp true t k) λ r.
        (r.1 ≡ reads fhash cmp t k)
        × (nbuckets r.0 ≡ 0)
        × ((q : K) → hashtable_get fhash cmp r.0 q ≡ fault)
  unfolding hashtable_remove hashtable_min_remove
  hashtable_remove_last {t} k i one there =
      let n = nbuckets t in
      let index = home fhash n k in
      let within = get_index-lt (fhash k) n i.placed.sized (omega (arith, i.placed.bounded)) in
      let opened = at-get_or t.buckets index [] within in
      elim (Option-cases (find_entry cmp k (fhash k) (chain_of fhash cmp t.buckets k))) [
        | inl miss ↦ absurd (there (reads-miss fhash cmp t k miss))
        | inr (e, hit) ↦
            let (valid, less) = unlinked-IsValid fhash cmp t k e i hit (omega arith) in
            let u = unlinked fhash cmp t k in
            let empty = nil_of_length (flatten u.buckets) (omega (arith, valid.counted)) in
            let run = shrink_empty u (omega arith) valid.placed.sized empty in
            (
              (record u { buckets = [] }, some e.value),
              rw (opened, ◌>>=◌, hit, run),
              (
                sym (reads-hit fhash cmp t k e hit),
                refl,
                λ q. get_no_buckets (sub64 t.nentries 1) q,
              ),
            )
      ]
