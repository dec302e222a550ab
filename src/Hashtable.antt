-- ===== src/Hashtable.antt =====
-- src/hashtable.c and src/slist.h: a hash table of chained entries whose array of buckets has a
-- power of two of them. A chain is the list of its entries from `head` on; `calloc` makes an array
-- of exactly `nbuckets` chains, so `nbuckets` is the length of the array. An access through
-- `buckets[i]` that lies outside of the array is a fault. `malloc` and `calloc` are not part of the
-- program: whether they find memory is an argument.
pub mod Power
pub mod Chain
pub mod Buckets
pub mod Rehash
pub mod Methods
pub mod Remove
pub mod Shrink
pub mod Contents
pub mod Foreach
mod Tests
use Prim.Native.Nat.{bit_and, bit_or}
use netproc.Base.{
  ℕ, zero, suc, ◌+◌, ◌-◌, ◌*◌, ◌/◌, ◌%◌, ◌^◌, Bool, true, false, Option, none, some, List, [], ◌∷◌,
  ◌++◌, ◌&&◌, if◌then◌else◌, ◌==◌, ltb, replicate, set, length, add64, sub64, mul64, u64_mod, Run,
  ok, fault, ◌>>=◌, at,
}

-- `hashtable_entry_t`; the link `_slist_item` is the entry's place in its chain.
pub record Entry {ℓ} (K V : Type ℓ) : Type ℓ where
  pub key_hash : ℕ
  pub key : K
  pub value : V

abbrev pub Chain {ℓ} : Type ℓ → Type ℓ → Type ℓ
Chain K V = List (Entry K V)

-- `hashtable_t`, but for its callbacks, which the operations take.
pub record Table {ℓ} (K V : Type ℓ) : Type ℓ where
  pub nentries : ℕ
  pub buckets : List (Chain K V)

abbrev pub hashtable_min_size : ℕ
hashtable_min_size = 16

-- `s |= s >> k`
unfoldable pub smear : ℕ → ℕ → ℕ
smear k s = bit_or s (s / 2 ^ k)

-- With `__SIZEOF_SIZE_T__ == 8`.
unfoldable pub next_power2 : ℕ → ℕ
next_power2 s = add64 (smear 32 (smear 16 (smear 8 (smear 4 (smear 2 (smear 1 (sub64 s 1))))))) 1

unfoldable pub get_index : ℕ → ℕ → ℕ
get_index hash size = bit_and hash (sub64 size 1)

-- `( size_t ) ( nentries * 2.0 / ( 0.10 + 0.75 ) )`: 2 / 0.85 is 40 / 17.
abbrev pub rehash_size : ℕ → ℕ
rehash_size nentries = nentries * 40 / 17

-- `nentries / nbuckets > 0.75` and `nentries / nbuckets < 0.10`, multiplied out; with no buckets
-- the quotient is an infinity, or no number, and so not below.
abbrev pub above_high : ℕ → ℕ → Bool
above_high nentries nbuckets = ltb (nbuckets * 3) (nentries * 4)

abbrev pub below_low : ℕ → ℕ → Bool
below_low nentries nbuckets = ltb (nentries * 10) nbuckets

module _ {ℓ} {K V : Type ℓ} where
  abbrev pub nbuckets : Table K V → ℕ
  nbuckets t = length t.buckets

  -- `slist_preprend ( &buckets[index], entry )`
  unfoldable pub prepend : List (Chain K V) → Entry K V → ℕ → Run (List (Chain K V))
  prepend buckets entry index = do chain ← at buckets index; ok (set buckets index (entry ∷ chain))

  -- The inner loop of `hashtable_rehash`, then the outer one; `num_buckets` is the length of the
  -- new array.
  unfoldable pub move_chain : ℕ → Chain K V → List (Chain K V) → Run (List (Chain K V))
  move_chain num_buckets [] new_buckets = ok new_buckets
  move_chain num_buckets (entry ∷ chain) new_buckets = do
    moved ← prepend new_buckets entry (get_index entry.key_hash num_buckets)
    move_chain num_buckets chain moved

  unfoldable pub move_all : ℕ → List (Chain K V) → List (Chain K V) → Run (List (Chain K V))
  unfolding move_chain
  move_all num_buckets [] new_buckets = ok new_buckets
  move_all num_buckets (chain ∷ buckets) new_buckets = do
    moved ← move_chain num_buckets chain new_buckets
    move_all num_buckets buckets moved

  unfoldable pub hashtable_rehash : Bool → Table K V → Run (Table K V × Bool)
  unfolding move_all
  hashtable_rehash memory t =
      let num_buckets = next_power2 (rehash_size t.nentries) in
      if num_buckets == nbuckets t
      then ok (t, true)
      else if memory
      then (do
        new_buckets ← move_all num_buckets t.buckets (replicate num_buckets [])
        ok (record t { buckets = new_buckets }, true))
      else ok (t, false)

  unfoldable pub hashtable_min_new : Bool → Bool → Option (Table K V)
  hashtable_min_new table_memory buckets_memory =
      if table_memory && buckets_memory
      then some (record { nentries = 0; buckets = replicate hashtable_min_size [] })
      else none

  -- The entry goes into its chain once there is room.
  abbrev pub insert_entry : Table K V → Entry K V → V → Run (Table K V × Option V)
  insert_entry t entry value = do
    buckets ← prepend t.buckets entry (get_index entry.key_hash (nbuckets t))
    ok (record t { buckets = buckets }, some value)

  -- The table afterwards, and the result, which is NULL where there is no memory.
  unfoldable pub hashtable_min_set :
      Bool → Bool → Table K V → V → K → ℕ → Run (Table K V × Option V)
  hashtable_min_set entry_memory buckets_memory t value key hash =
      let entry : Entry K V = record { key_hash = hash; key = key; value = value } in
      let counted = record t { nentries = add64 t.nentries 1 } in
      if entry_memory
      then (if above_high counted.nentries (nbuckets t)
          then (do
            (grown, done) ← hashtable_rehash buckets_memory counted
            if done
                then insert_entry grown entry value
                else ok (record grown { nentries = sub64 grown.nentries 1 }, none))
          else insert_entry counted entry value)
      else ok (t, none)

  -- The test of the loops that look for a key.
  abbrev pub matches : (K → K → Bool) → K → ℕ → Entry K V → Bool
  matches cmp key hash entry = (entry.key_hash == hash) && cmp entry.key key

  unfoldable pub find_entry : (K → K → Bool) → K → ℕ → Chain K V → Option (Entry K V)
  find_entry cmp key hash [] = none
  find_entry cmp key hash (entry ∷ chain) =
      if matches cmp key hash entry then some entry else find_entry cmp key hash chain

  -- The rest of a chain after `slist_remove` of the entry that the loop stops at: `prev` is the
  -- entry before it, or NULL where it is the head.
  unfoldable pub unlink : (K → K → Bool) → K → ℕ → Chain K V → Chain K V
  unlink cmp key hash [] = []
  unlink cmp key hash (entry ∷ chain) =
      if matches cmp key hash entry then chain else entry ∷ unlink cmp key hash chain

  unfoldable pub get_entry : Table K V → K → ℕ → (K → K → Bool) → Run (Option (Entry K V))
  get_entry t key hash cmp = do
    chain ← at t.buckets (get_index hash (nbuckets t))
    ok (find_entry cmp key hash chain)

  unfoldable pub hashtable_min_get : Table K V → K → ℕ → (K → K → Bool) → Run (Option V)
  hashtable_min_get t key hash cmp = do
    entry ← get_entry t key hash cmp
    ok (elim entry [ none ↦ none | some e ↦ some e.value ])

  -- The result of the rehash is not looked at.
  abbrev pub shrink : Bool → Table K V → Run (Table K V)
  shrink memory t =
      if below_low t.nentries (nbuckets t)
      then (do (u, done) ← hashtable_rehash memory t; ok u)
      else ok t

  unfoldable pub hashtable_min_remove :
      Bool → Table K V → K → ℕ → (K → K → Bool) → Run (Table K V × Option V)
  hashtable_min_remove memory t key hash cmp = do
    let index = get_index hash (nbuckets t)
    chain ← at t.buckets index
    elim (find_entry cmp key hash chain) [
      | none ↦ ok (t, none)
      | some entry ↦ do
        u ← shrink memory (record {
          nentries = sub64 t.nentries 1;
          buckets = set t.buckets index (unlink cmp key hash chain);
        })
        ok (u, some entry.value)
    ]

  -- The versions that take the table's own callbacks.
  module _ (fhash : K → ℕ) (fcompare : K → K → Bool) where
    unfoldable pub hashtable_set : Bool → Bool → Table K V → K → V → Run (Table K V × Option V)
    hashtable_set entry_memory buckets_memory t key value =
        hashtable_min_set entry_memory buckets_memory t value key (fhash key)

    unfoldable pub hashtable_get : Table K V → K → Run (Option V)
    hashtable_get t key = hashtable_min_get t key (fhash key) fcompare

    unfoldable pub hashtable_remove : Bool → Table K V → K → Run (Table K V × Option V)
    hashtable_remove memory t key = hashtable_min_remove memory t key (fhash key) fcompare

  -- A callback of `hashtable_foreach` may change the program's state `S`, and stops the walk by a
  -- result that is not 0.
  unfoldable pub foreach_chain {κ} : {S : Type κ} → (S → V → S × ℕ) → Chain K V → S → S × ℕ
  foreach_chain func [] s = (s, 0)
  foreach_chain func (entry ∷ chain) s =
      let (s', ret) = func s entry.value in
      let rest = foreach_chain func chain s' in if ret == 0 then rest else (s', ret)

  unfoldable pub foreach_buckets {κ} : {S : Type κ} → (S → V → S × ℕ) → List (Chain K V) → S → S × ℕ
  unfolding foreach_chain
  foreach_buckets func [] s = (s, 0)
  foreach_buckets func (chain ∷ buckets) s =
      let (s', ret) = foreach_chain func chain s in
      let rest = foreach_buckets func buckets s' in if ret == 0 then rest else (s', ret)

  unfoldable pub hashtable_foreach {κ} : {S : Type κ} → Table K V → (S → V → S × ℕ) → S → S × ℕ
  unfolding foreach_buckets
  hashtable_foreach t func s = foreach_buckets func t.buckets s

  -- One chain of `hashtable_foreach_remove`: the entries that stay, and how many went.
  unfoldable pub remove_chain {κ} :
      {S : Type κ} → (S → V → S × Bool) → Chain K V → S → S × Chain K V × ℕ
  remove_chain to_remove [] s = (s, [], 0)
  remove_chain to_remove (entry ∷ chain) s =
      let (s', gone) = to_remove s entry.value in
      let (s'', kept, n) = remove_chain to_remove chain s' in
      if gone then (s'', kept, n + 1) else (s'', entry ∷ kept, n)

  unfoldable pub remove_buckets {κ} :
      {S : Type κ} → (S → V → S × Bool) → List (Chain K V) → S → S × List (Chain K V) × ℕ
  unfolding remove_chain
  remove_buckets to_remove [] s = (s, [], 0)
  remove_buckets to_remove (chain ∷ buckets) s =
      let (s', kept, n) = remove_chain to_remove chain s in
      let (s'', rest, m) = remove_buckets to_remove buckets s' in (s'', kept ∷ rest, n + m)

  -- `nentries--` for each entry that goes.
  unfoldable pub hashtable_foreach_remove {κ} :
      {S : Type κ} → Table K V → (S → V → S × Bool) → S → S × Table K V
  unfolding remove_buckets
  hashtable_foreach_remove t to_remove s =
      let (s', kept, n) = remove_buckets to_remove t.buckets s in
      (s', record { nentries = (t.nentries + u64_mod - n) % u64_mod; buckets = kept })

  -- `hashtable_min_detroy`: the values that `fclear` is called with, in order. The walk stops at
  -- the first bucket that it comes to with no entry left.
  unfoldable pub clear_chain : Chain K V → ℕ → List V × ℕ
  clear_chain [] nentries = ([], nentries)
  clear_chain (entry ∷ chain) nentries =
      let (values, left) = clear_chain chain (sub64 nentries 1) in (entry.value ∷ values, left)

  unfoldable pub clear_buckets : List (Chain K V) → ℕ → List V × ℕ
  unfolding clear_chain
  clear_buckets [] nentries = ([], nentries)
  clear_buckets (chain ∷ buckets) nentries =
      let (values, left) = clear_chain chain nentries in
      let (rest, end) = clear_buckets buckets left in
      if nentries == 0 then ([], nentries) else (values ++ rest, end)

  unfoldable pub hashtable_min_detroy : Table K V → List V × ℕ
  unfolding clear_buckets
  hashtable_min_detroy t = clear_buckets t.buckets t.nentries
