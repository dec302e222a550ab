-- ===== src/Hashtable/Tests.antt =====
-- The table at concrete inputs: numbers as keys, hashed by themselves.
use mathlib.Core.List.{flatten}
use netproc.Base.{
  ℕ, zero, suc, ◌+◌, ◌*◌, ◌^◌, ◌≤◌, ◌<◌, ◌≡◌, ◌≢◌, refl, Bool, true, false, none, some, [], ◌∷◌,
  ◌&&◌, ◌==◌, arith, get_or, ltb, replicate, inl, ◌⊎◌, ok, fault, Returns, ◌>>=◌, at,
}
use netproc.Hashtable.{
  Entry, Table, nbuckets, get_index, next_power2, smear, prepend, move_chain, move_all,
  hashtable_rehash, find_entry, unlink, get_entry, hashtable_min_new, hashtable_min_set,
  hashtable_min_get, hashtable_min_remove, hashtable_set, hashtable_get, hashtable_remove,
  remove_chain, remove_buckets, hashtable_foreach_remove, clear_chain, clear_buckets,
  hashtable_min_detroy, foreach_chain, foreach_buckets, hashtable_foreach,
}
use netproc.Hashtable.Power.{next_power2_lem}
use netproc.Hashtable.Chain.{IsKeying, count, lookup, Homed}
use netproc.Hashtable.Buckets.{home, view}
use netproc.Hashtable.Methods.{IsValid, reads, Stored, hashtable_set-Stored}
use netproc.Hashtable.Remove.{Removed, hashtable_remove-Removed}
use netproc.Hashtable.Shrink.{hashtable_remove_last}
use netproc.Hashtable.Foreach.{values, hashtable_min_detroy-values}
use netproc.Hashtable.Contents.{Holds, logged, hashtable_get-Holds, hashtable_foreach_remove-Holds}

program : Unit {0}
unfolding smear next_power2 get_index prepend move_chain move_all hashtable_rehash find_entry unlink
    get_entry hashtable_min_new hashtable_min_set hashtable_min_get hashtable_min_remove
    hashtable_set hashtable_get hashtable_remove remove_chain remove_buckets
    hashtable_foreach_remove clear_chain clear_buckets hashtable_min_detroy foreach_chain
    foreach_buckets hashtable_foreach at
program = tt

abbrev fhash : ℕ → ℕ
fhash k = k

abbrev cmp : ℕ → ℕ → Bool
cmp a b = a == b

keying : IsKeying fhash cmp
keying = record {
  same_refl = λ a. ground arith;
  same_symm = λ a b. ground arith;
  same_trans = λ a b c. ground arith;
}

abbrev entry : ℕ → ℕ → Entry ℕ ℕ
entry k v = record { key_hash = k; key = k; value = v }

-- Four buckets, three quarters full.
abbrev sample : Table ℕ ℕ
sample = record {
  nentries = 3;
  buckets = (entry 4 40 ∷ []) ∷ (entry 9 90 ∷ entry 5 50 ∷ []) ∷ [] ∷ [] ∷ [];
}

sample-Homed : (i : ℕ) → Homed fhash cmp (home fhash 4) i (get_or sample.buckets i [])
unfolding get_index
sample-Homed zero = (refl, refl, tt)
sample-Homed (suc zero) = (refl, refl, (refl, refl, tt))
sample-Homed (suc (suc zero)) = tt
sample-Homed (suc (suc (suc zero))) = tt
sample-Homed (suc (suc (suc (suc i)))) = tt

sample_unique : (q : ℕ) → count fhash cmp q (flatten sample.buckets) ≤ 1
unfolding count flatten
sample_unique q = ground arith

sample-IsValid : IsValid fhash cmp sample
unfolding flatten
sample-IsValid = record {
  placed = record {
    sized = omega arith;
    bounded = omega arith;
    homed = sample-Homed;
    unique = sample_unique;
  };
  counted = refl;
  loaded = omega arith;
}

-- The fourth entry makes the table grow to sixteen buckets.
set_grows : (hashtable_set fhash cmp true true sample 21 210 >>= λ r. ok (nbuckets r.0)) ≡ ok 16
unfolding program
set_grows = refl

next_power2_example : (k : ℕ) × (k ≤ 63) × (next_power2 9 ≡ 2 ^ k) × (9 ≤ 2 ^ k) × (2 ^ k < 2 * 9)
next_power2_example = next_power2_lem 9 (omega arith) (omega arith)

hashtable_get-Holds_example : Returns (hashtable_get fhash cmp sample 5) λ o.
    (v : ℕ)
    → (o ≡ some v → Holds fhash cmp 5 v (flatten sample.buckets))
      × (Holds fhash cmp 5 v (flatten sample.buckets) → o ≡ some v)
hashtable_get-Holds_example = hashtable_get-Holds fhash cmp 5 sample-IsValid

absent : reads fhash cmp sample 21 ≡ none
unfolding view lookup find_entry get_index
absent = refl

hashtable_set-Stored_example :
    Returns
      (hashtable_set fhash cmp true true sample 21 210)
      λ r. Stored fhash cmp keying sample 21 210 r ⊎ ((r ≡ (sample, none)) × (true && true ≡ false))
hashtable_set-Stored_example =
    hashtable_set-Stored fhash cmp keying true true 21 210 sample-IsValid (omega arith) absent

hashtable_remove-Removed_example :
    Returns (hashtable_remove fhash cmp true sample 5) (Removed fhash cmp keying sample 5)
hashtable_remove-Removed_example =
    hashtable_remove-Removed fhash cmp keying true 5 sample-IsValid (omega arith)
      (inl (omega arith))

-- Two buckets, one entry.
abbrev single : Table ℕ ℕ
single = record { nentries = 1; buckets = [] ∷ (entry 5 50 ∷ []) ∷ [] }

single-Homed : (i : ℕ) → Homed fhash cmp (home fhash 2) i (get_or single.buckets i [])
unfolding get_index
single-Homed zero = tt
single-Homed (suc zero) = (refl, refl, tt)
single-Homed (suc (suc i)) = tt

single_unique : (q : ℕ) → count fhash cmp q (flatten single.buckets) ≤ 1
unfolding count flatten
single_unique q = ground arith

single-IsValid : IsValid fhash cmp single
unfolding flatten
single-IsValid = record {
  placed = record {
    sized = omega arith;
    bounded = omega arith;
    homed = single-Homed;
    unique = single_unique;
  };
  counted = refl;
  loaded = omega arith;
}

single_there : reads fhash cmp single 5 ≢ none
unfolding view lookup find_entry get_index
single_there = cc

hashtable_remove_last_example : Returns (hashtable_remove fhash cmp true single 5) λ r.
    (r.1 ≡ reads fhash cmp single 5)
    × (nbuckets r.0 ≡ 0)
    × ((q : ℕ) → hashtable_get fhash cmp r.0 q ≡ fault)
hashtable_remove_last_example = hashtable_remove_last fhash cmp 5 single-IsValid refl single_there

abbrev fresh : Table ℕ ℕ
fresh = record { nentries = 0; buckets = replicate 16 [] }

new_runs : hashtable_min_new true true ≡ some fresh
unfolding program
new_runs = refl

abbrev large : ℕ → Bool
large v = ltb 45 v

hashtable_foreach_remove-Holds_example :
    let (seen, u) = hashtable_foreach_remove sample (logged fhash cmp large) [] in
    IsValid fhash cmp u
    × (seen ≡ values (flatten sample.buckets))
    × ((q v : ℕ)
        → (Holds fhash cmp q v (flatten u.buckets)
            → Holds fhash cmp q v (flatten sample.buckets) × (large v ≡ false))
          × (Holds fhash cmp q v (flatten sample.buckets)
              → large v ≡ false
              → Holds fhash cmp q v (flatten u.buckets)))
hashtable_foreach_remove-Holds_example =
    hashtable_foreach_remove-Holds fhash cmp large sample-IsValid (omega arith)

hashtable_min_detroy-values_example :
    hashtable_min_detroy sample ≡ (values (flatten sample.buckets), 0)
hashtable_min_detroy-values_example =
    hashtable_min_detroy-values fhash cmp sample-IsValid (omega arith)

-- `tests/test_hashtable.c` stops no walk: every entry is counted.
foreach_counts : hashtable_foreach sample (λ (n : ℕ) v. (n + 1, 0)) 0 ≡ (3, 0)
unfolding program
foreach_counts = refl
