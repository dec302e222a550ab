-- ===== src/Connection.antt =====
-- src/connection.c: the connections that the kernel lists, each with two entries in one hash table,
-- by its inode and by its tuple. A pointer to a connection is its place in the store; `freed` are
-- the places that `free` was called with, in order. The hash of a key's bytes is any function of
-- the key. `sscanf`'s fields, or its failure, are given with each line, and so is whether there is
-- memory. An inode and a tuple are compared by the code only where their hashes meet; they count
-- as different here.
pub mod Aging
pub mod Ends
pub mod Listed
pub mod Tests
use netproc.Types.{NetStat, Tuple, Connection}
use netproc.Base.{
  ℕ, zero, suc, ◌+◌, ◌%◌, Bool, true, false, Option, none, some, List, [], ◌∷◌, ◌++◌, ◌&&◌, ◌||◌,
  if◌then◌else◌, ◌==◌, length, sub64, Run, ok, fault, ◌>>=◌, replicate,
}
use netproc.Hashtable.{
  Table, hashtable_min_new, hashtable_set, hashtable_get, hashtable_foreach_remove,
  hashtable_min_detroy,
}

-- What an entry's key points to.
pub data Key : Type 0 where
  by_inode : ℕ → Key
  by_tuple : Tuple → Key

-- `memcmp` of the two structures, whose padding is zero.
abbrev pub same_tuple : Tuple → Tuple → Bool
same_tuple a b =
    (a.local_ip == b.local_ip)
    && ((a.remote_ip == b.remote_ip)
        && ((a.local_port == b.local_port)
            && ((a.remote_port == b.remote_port) && (a.protocol == b.protocol))))

-- `ht_cb_compare_inode` and `ht_cb_compare_tuple`
abbrev pub ht_cb_compare : Key → Key → Bool
ht_cb_compare (by_inode a) (by_inode b) = a == b
ht_cb_compare (by_inode a) (by_tuple b) = false
ht_cb_compare (by_tuple a) (by_inode b) = false
ht_cb_compare (by_tuple a) (by_tuple b) = same_tuple a b

-- The memory that connections are allocated from.
pub record Store : Type 0 where
  pub conns : List Connection
  pub freed : List ℕ

-- `conn->field = …` through a pointer.
abbrev pub change : (Connection → Connection) → List Connection → ℕ → List Connection
change f [] c = []
change f (conn ∷ conns) zero = f conn ∷ conns
change f (conn ∷ conns) (suc c) = conn ∷ change f conns c

-- `conn->refs_active`, and `conn->refs_exit`.
abbrev pub active : List Connection → ℕ → ℕ
active [] c = 0
active (conn ∷ conns) zero = conn.refs_active
active (conn ∷ conns) (suc c) = active conns c

abbrev pub exits : List Connection → ℕ → ℕ
exits [] c = 0
exits (conn ∷ conns) zero = conn.refs_exit
exits (conn ∷ conns) (suc c) = exits conns c

-- `MARK_ACTIVE_CON`
abbrev pub mark_active : Connection → Connection
mark_active conn = record conn { refs_active = 3 }

-- `refs_active--` on 8 bits
abbrev pub lower : Connection → Connection
lower conn = record conn { refs_active = (conn.refs_active + 255) % 256 }

-- The callback's result is whether the entry is to go.
unfoldable pub remove_inactives_conns : Store → ℕ → Store × Bool
remove_inactives_conns s c =
    let refs = active s.conns c in
    let lowered = change lower s.conns c in
    if refs == 1
    then (record s { conns = lowered }, true)
    else if refs == 0
    then (record { conns = lowered; freed = s.freed ++ (c ∷ []) }, true)
    else (record s { conns = lowered }, false)

-- `refs_exit++` on 8 bits; the connection is freed when it was 1.
unfoldable pub conn_free : Store → ℕ → Store
conn_free s c =
    let raised =
      change (λ conn. record conn { refs_exit = (conn.refs_exit + 1) % 256 }) s.conns c in
    if exits s.conns c == 1
    then record { conns = raised; freed = s.freed ++ (c ∷ []) }
    else record s { conns = raised }

-- The walk at the start of `connection_update`.
unfoldable pub remove_inactives : Table Key ℕ → Store → Store × Table Key ℕ
remove_inactives ht s = hashtable_foreach_remove ht remove_inactives_conns s

-- `connection_free`: `conn_free` is called with each value that the table hands over.
unfoldable pub free_all : List ℕ → Store → Store
free_all [] s = s
free_all (c ∷ cs) s = free_all cs (conn_free s c)

unfoldable pub connection_free : Table Key ℕ → Store → Store
connection_free ht s = free_all (hashtable_min_detroy ht).0 s

-- A line of `/proc/net/tcp`, with what it takes of memory.
pub record Row : Type 0 where
  pub tuple : Tuple
  pub state : ℕ
  pub inode : ℕ
  pub conn_memory : Bool
  pub inode_memory : Bool × Bool
  pub tuple_memory : Bool × Bool

abbrev pub tcp_time_wait : ℕ
tcp_time_wait = 6

abbrev pub tcp_listen : ℕ
tcp_listen = 10

abbrev pub zero_stat : NetStat
zero_stat = record {
  pps_rx = replicate 5 0;
  pps_tx = replicate 5 0;
  bps_rx = replicate 5 0;
  bps_tx = replicate 5 0;
  avg_bps_rx = 0;
  avg_bps_tx = 0;
  avg_pps_rx = 0;
  avg_pps_tx = 0;
  tot_bps_rx = 0;
  tot_bps_tx = 0;
  bytes_last_sec_rx = 0;
  bytes_last_sec_tx = 0;
}

-- What `calloc` and the assignments of `create_new_conn` make.
abbrev pub new_conn : Row → ℕ → Connection
new_conn row protocol = mark_active (record {
  net_stat = zero_stat;
  tuple = record row.tuple { protocol = protocol };
  proc = none;
  inode = row.inode;
  if_index = 0;
  state = row.state;
  refs_active = 0;
  refs_exit = 0;
})

-- The connections of the program: the table, and the store.
pub record Conns : Type 0 where
  pub ht : Table Key ℕ
  pub store : Store

module _ (hash : Key → ℕ) where
  unfoldable pub connection_get_by_inode : Table Key ℕ → ℕ → Run (Option ℕ)
  connection_get_by_inode ht inode = hashtable_get hash ht_cb_compare ht (by_inode inode)

  unfoldable pub connection_get_by_tuple : Table Key ℕ → Tuple → Run (Option ℕ)
  connection_get_by_tuple ht tuple = hashtable_get hash ht_cb_compare ht (by_tuple tuple)

  -- Both results of `hashtable_min_set` are ignored.
  unfoldable pub connection_insert : Row → Connection → ℕ → Table Key ℕ → Run (Table Key ℕ)
  connection_insert row conn c ht = do
    (one, done) ←
        hashtable_set hash ht_cb_compare row.inode_memory.0 row.inode_memory.1 ht
          (by_inode conn.inode) c
    (two, done') ←
        hashtable_set hash ht_cb_compare row.tuple_memory.0 row.tuple_memory.1 one
          (by_tuple conn.tuple) c
    ok two

  -- The rest of the loop's body after the lookup; the result is 0 where there is no memory.
  abbrev pub add_or_mark : ℕ → Conns → Row → Option ℕ → Run (Conns × Bool)
  add_or_mark protocol s row (some c) =
      ok (record s { store = record s.store { conns = change mark_active s.store.conns c } }, true)
  add_or_mark protocol s row none =
      let conn = new_conn row protocol in
      if row.conn_memory
      then (do
        ht ← connection_insert row conn (length s.store.conns) s.ht
        ok (
          record { ht = ht; store = record s.store { conns = s.store.conns ++ (conn ∷ []) } },
          true,
        ))
      else ok (s, false)

  -- One line; `none` is a line that `sscanf` does not read.
  unfoldable pub update_line : ℕ → Conns → Option Row → Run (Conns × Bool)
  update_line protocol s none = ok (s, false)
  update_line protocol s (some row) =
      if (row.state == tcp_time_wait) || (row.state == tcp_listen)
      then ok (s, true)
      else (do conn ← connection_get_by_inode s.ht row.inode; add_or_mark protocol s row conn)

  -- The loop stops at the first line that fails.
  unfoldable pub update_lines : ℕ → List (Option Row) → Conns → Run (Conns × Bool)
  update_lines protocol [] s = ok (s, true)
  update_lines protocol (line ∷ lines) s = do
    (s', fine) ← update_line protocol s line
    elim fine [ true ↦ update_lines protocol lines s' | false ↦ ok (s', false) ]

  -- `none` is a file that cannot be opened, or that has no first line.
  unfoldable pub connection_update_ : Option (List (Option Row)) → ℕ → Conns → Run (Conns × Bool)
  connection_update_ none protocol s = ok (s, false)
  connection_update_ (some lines) protocol s = update_lines protocol lines s

  abbrev pub ipproto_tcp : ℕ
  ipproto_tcp = 6

  abbrev pub ipproto_udp : ℕ
  ipproto_udp = 17

  -- One of the two files, if its protocol is asked for.
  abbrev pub update_if : Bool → Option (List (Option Row)) → ℕ → Conns → Run (Conns × Bool)
  update_if true file protocol s = connection_update_ file protocol s
  update_if false file protocol s = ok (s, true)

  -- The two flags of `proto`, and the files of the two protocols.
  unfoldable pub connection_update :
      Bool
      → Bool
      → Option (List (Option Row))
      → Option (List (Option Row))
      → Conns
      → Run (Conns × Bool)
  connection_update tcp udp tcp_file udp_file s = do
    let (store, ht) = remove_inactives s.ht s.store
    (s', fine) ← update_if tcp tcp_file ipproto_tcp (record { ht = ht; store = store })
    elim fine [ true ↦ update_if udp udp_file ipproto_udp s' | false ↦ ok (s', false) ]
