-- ===== src/Connection/Tests.antt =====
-- One connection, with its two entries in a table of four buckets.
use mathlib.Core.List.{flatten}
use netproc.Types.{Tuple}
use netproc.Base.{
  ℕ, zero, suc, ◌+◌, ◌≤◌, ◌<◌, ◌≡◌, refl, true, none, some, [], ◌∷◌, arith, get_or, length, Returns,
}
use netproc.Hashtable.{
  Table, get_index, find_entry, remove_chain, remove_buckets, hashtable_foreach_remove,
}
use netproc.Hashtable.Chain.{Homed, count, lookup}
use netproc.Hashtable.Buckets.{home, view}
use netproc.Hashtable.Methods.{IsValid}
use netproc.Connection.{
  Key, by_inode, by_tuple, ht_cb_compare, Store, Conns, Row, new_conn, active,
  remove_inactives_conns, remove_inactives, connection_free, connection_insert, update_line,
}
use netproc.Connection.Aging.{occurs, entries, remove_inactives-aging}
use netproc.Connection.Ends.{connection_free-once}
use netproc.Connection.Listed.{
  finds, Inserted, Listed, connection_insert-Inserted, update_line-Listed,
}

abbrev pub hash : Key → ℕ
hash (by_inode i) = i
hash (by_tuple t) = t.local_port

abbrev pub tuple : ℕ → Tuple
tuple port = record {
  local_ip = 1;
  remote_ip = 2;
  local_port = port;
  remote_port = 80;
  protocol = 6;
}

abbrev pub row : ℕ → ℕ → Row
row inode port = record {
  tuple = tuple port;
  state = 1;
  inode = inode;
  conn_memory = true;
  inode_memory = (true, true);
  tuple_memory = (true, true);
}

abbrev marked : Store
marked = record { conns = new_conn (row 4 5) 6 ∷ []; freed = [] }

abbrev pub ht : Table Key ℕ
ht = record {
  nentries = 2;
  buckets =
      (record { key_hash = 4; key = by_inode 4; value = 0 } ∷ [])
      ∷ (record { key_hash = 5; key = by_tuple (tuple 5); value = 0 } ∷ [])
      ∷ []
      ∷ []
      ∷ [];
}

ht-Homed : (i : ℕ) → Homed hash ht_cb_compare (home hash 4) i (get_or ht.buckets i [])
unfolding get_index
ht-Homed zero = (refl, refl, tt)
ht-Homed (suc zero) = (refl, refl, tt)
ht-Homed (suc (suc zero)) = tt
ht-Homed (suc (suc (suc zero))) = tt
ht-Homed (suc (suc (suc (suc i)))) = tt

ht_unique : (q : Key) → count hash ht_cb_compare q (flatten ht.buckets) ≤ 1
unfolding count flatten
ht_unique (by_inode i) = ground arith
ht_unique (by_tuple t) = ground arith

pub ht-IsValid : IsValid hash ht_cb_compare ht
unfolding flatten
ht-IsValid = record {
  placed = record {
    sized = omega arith;
    bounded = omega arith;
    homed = ht-Homed;
    unique = ht_unique;
  };
  counted = refl;
  loaded = omega arith;
}

two_entries : entries 0 ht ≡ 2
unfolding flatten
two_entries = refl

-- Two walks without a mark in between: the entries go, and the connection is freed once.
two_walks :
    let (s, t) = remove_inactives ht marked in
    let (s', t') = remove_inactives t s in (s'.freed ≡ 0 ∷ []) × (t'.nentries ≡ 0)
unfolding remove_inactives remove_inactives_conns hashtable_foreach_remove remove_buckets
    remove_chain
two_walks = (refl, refl)

remove_inactives-aging_example :
    let (s', ht') = remove_inactives ht marked in
    IsValid hash ht_cb_compare ht'
    × (active marked.conns 0 ≡ 3
        → (active s'.conns 0 ≡ 1)
          × (entries 0 ht' ≡ 2)
          × (occurs 0 s'.freed ≡ occurs 0 marked.freed))
    × (active marked.conns 0 ≡ 1
        → (entries 0 ht' ≡ 0) × (occurs 0 s'.freed ≡ occurs 0 marked.freed + 1))
remove_inactives-aging_example =
    remove_inactives-aging hash marked 0 ht-IsValid (omega arith) (omega arith) two_entries

connection_free-once_example :
    (entries 0 ht ≡ 2 → occurs 0 (connection_free ht marked).freed ≡ occurs 0 marked.freed + 1)
    × (entries 0 ht ≡ 0 → occurs 0 (connection_free ht marked).freed ≡ occurs 0 marked.freed)
connection_free-once_example =
    connection_free-once hash marked 0 ht-IsValid (omega arith) (omega arith) refl

absent_inode : finds hash ht (by_inode 7) ≡ none
unfolding view lookup find_entry get_index
absent_inode = refl

absent_tuple : finds hash ht (by_tuple (tuple 9)) ≡ none
unfolding view lookup find_entry get_index
absent_tuple = refl

connection_insert-Inserted_example :
    Returns
      (connection_insert hash (row 7 9) (new_conn (row 7 9) 6) 1 ht)
      (Inserted hash ht (new_conn (row 7 9) 6) 1)
connection_insert-Inserted_example =
    connection_insert-Inserted hash (row 7 9) (new_conn (row 7 9) 6) 1 ht-IsValid (omega arith) refl
      absent_inode absent_tuple

abbrev known : Conns
known = record { ht = ht; store = marked }

lookup_inside :
    (q : Key) (i c : ℕ) → lookup hash ht_cb_compare q (get_or ht.buckets i []) ≡ some c → c < 1
unfolding lookup find_entry
lookup_inside (by_inode n) zero c h = ground arith
lookup_inside (by_inode n) (suc zero) c h = ground arith
lookup_inside (by_tuple t) zero c h = ground arith
lookup_inside (by_tuple t) (suc zero) c h = ground arith
lookup_inside q (suc (suc zero)) c h = ground arith
lookup_inside q (suc (suc (suc zero))) c h = ground arith
lookup_inside q (suc (suc (suc (suc i)))) c h = ground arith

places_inside : (q : Key) (c : ℕ) → finds hash ht q ≡ some c → c < length marked.conns
unfolding view
places_inside q c h = lookup_inside q (home hash 4 q) c h

update_line-Listed_example :
    Returns (update_line hash 6 known (some (row 7 9))) (Listed hash (row 7 9))
update_line-Listed_example =
    update_line-Listed hash 6 (row 7 9) known ht-IsValid (omega arith) refl refl places_inside
      (λ e. absent_tuple)
