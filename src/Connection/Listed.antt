-- ===== src/Connection/Listed.antt =====
-- A line of the kernel's list in src/connection.c: its connection is then found by its inode, and
-- marked as active.
use netproc.Types.{Connection}
use netproc.Base.{
  ℕ, zero, suc, ◌+◌, ◌^◌, ◌<◌, ◌≡◌, ◌⊎◌, inl, inr, refl, ◌∙◌, Bool, true, false, ◌&&◌, ◌||◌, Option,
  none, some, Option-cases, List, [], ◌∷◌, ◌++◌, if◌then◌else◌, ◌==◌, length, arith, Returns,
}
use netproc.Hashtable.{Table, hashtable_set, hashtable_get}
use netproc.Hashtable.Chain.{IsKeying, same}
use netproc.Hashtable.Methods.{IsValid, reads, Stored, hashtable_set-Stored, hashtable_get-reads}
use netproc.Connection.{
  Key, by_inode, by_tuple, ht_cb_compare, Conns, Row, change, active, mark_active, new_conn,
  connection_get_by_inode, connection_insert, update_line, tcp_time_wait, tcp_listen,
}

compare_refl : (a : Key) → ht_cb_compare a a ≡ true
compare_refl (by_inode a) = ground arith
compare_refl (by_tuple a) = ground arith

compare_symm :
    (hash : Key → ℕ) (a b : Key) → same hash ht_cb_compare a b ≡ same hash ht_cb_compare b a
compare_symm hash (by_inode a) (by_inode b) = ground arith
compare_symm hash (by_inode a) (by_tuple b) = ground arith
compare_symm hash (by_tuple a) (by_inode b) = ground arith
compare_symm hash (by_tuple a) (by_tuple b) = ground arith

compare_trans :
    (hash : Key → ℕ) (a b c : Key)
    → same hash ht_cb_compare a b ≡ true
    → same hash ht_cb_compare b c ≡ true
    → same hash ht_cb_compare a c ≡ true
compare_trans hash (by_inode a) (by_inode b) (by_inode c) e f = ground arith
compare_trans hash (by_inode a) (by_inode b) (by_tuple c) e f = ground arith
compare_trans hash (by_inode a) (by_tuple b) c e f = ground arith
compare_trans hash (by_tuple a) (by_inode b) c e f = ground arith
compare_trans hash (by_tuple a) (by_tuple b) (by_inode c) e f = ground arith
compare_trans hash (by_tuple a) (by_tuple b) (by_tuple c) e f = ground arith

-- The two comparisons of the table, with any hash, tell keys apart as equality does.
pub ht_cb_compare-IsKeying : (hash : Key → ℕ) → IsKeying hash ht_cb_compare
ht_cb_compare-IsKeying hash = record {
  same_refl = compare_refl;
  same_symm = compare_symm hash;
  same_trans = compare_trans hash;
}

-- There is memory for all that the line asks for.
abbrev pub roomy : Row → Bool
roomy row =
    row.conn_memory
    && ((row.inode_memory.0 && row.inode_memory.1) && (row.tuple_memory.0 && row.tuple_memory.1))

module _ (hash : Key → ℕ) where
  abbrev pub finds : Table Key ℕ → Key → Option ℕ
  finds ht q = reads hash ht_cb_compare ht q

  abbrev pub Inserted : Table Key ℕ → Connection → ℕ → Table Key ℕ → Type 0
  Inserted ht conn c ht' =
      IsValid hash ht_cb_compare ht'
      × (ht'.nentries ≡ ht.nentries + 2)
      × ((q : Key)
          → finds ht' q ≡ (
              if same hash ht_cb_compare (by_tuple conn.tuple) q
                || same hash ht_cb_compare (by_inode conn.inode) q
              then some c
              else finds ht q))

  stored :
      {ht : Table Key ℕ} {r : Table Key ℕ × Option ℕ} (m n : Bool) (k : Key) (c : ℕ)
      → m && n ≡ true
      → Stored hash ht_cb_compare (ht_cb_compare-IsKeying hash) ht k c r
        ⊎ ((r ≡ (ht, none)) × (m && n ≡ false))
      → Stored hash ht_cb_compare (ht_cb_compare-IsKeying hash) ht k c r
  stored m n k c e (inl s) = s
  stored m n k c e (inr (unchanged, dry)) = absurd (ground (arith, e, dry))

  -- Where neither key is in the table and there is memory, `connection_insert` adds two entries, by
  -- which the connection is found from then on, and every other key finds what it found before.
  pub connection_insert-Inserted :
      (row : Row) (conn : Connection) (c : ℕ) {ht : Table Key ℕ}
      → IsValid hash ht_cb_compare ht
      → ht.nentries + 2 < 2 ^ 24
      → roomy row ≡ true
      → finds ht (by_inode conn.inode) ≡ none
      → finds ht (by_tuple conn.tuple) ≡ none
      → Returns (connection_insert hash row conn c ht) (Inserted ht conn c)
  unfolding connection_insert
  connection_insert-Inserted row conn c {ht} v few room no_inode no_tuple =
      let laws = ht_cb_compare-IsKeying hash in
      let (r, run, done) =
        hashtable_set-Stored hash ht_cb_compare laws row.inode_memory.0 row.inode_memory.1
          (by_inode conn.inode) c v (omega arith) no_inode in
      let one =
        stored row.inode_memory.0 row.inode_memory.1 (by_inode conn.inode) c (ground arith) done in
      let (r', run', done') =
        hashtable_set-Stored hash ht_cb_compare laws row.tuple_memory.0 row.tuple_memory.1
          (by_tuple conn.tuple) c one.valid (omega (arith, one.nentries))
          (one.stored (by_tuple conn.tuple) ∙ ground (arith, no_tuple)) in
      let two =
        stored row.tuple_memory.0 row.tuple_memory.1 (by_tuple conn.tuple) c (ground arith) done' in
      rw (run, run')
        (
          r'.0,
          refl,
          (
            two.valid,
            omega (arith, one.nentries, two.nentries),
            λ q. ground (arith, one.stored q, two.stored q),
          ),
        )

  change-mark :
      (conns : List Connection) (c : ℕ)
      → c < length conns
      → active (change mark_active conns c) c ≡ 3
  change-mark [] c h = absurd (omega arith)
  change-mark (conn ∷ conns) zero h = refl
  change-mark (conn ∷ conns) (suc c) h = change-mark conns c (omega arith)

  active-last :
      (conns : List Connection) (conn : Connection)
      → active (conns ++ (conn ∷ [])) (length conns) ≡ conn.refs_active
  active-last [] conn = refl
  active-last (x ∷ conns) conn = active-last conns conn

  -- What a line of the file has done: its connection is found by the inode, and marked.
  abbrev pub Listed : Row → Conns × Bool → Type 0
  Listed row (s, fine) =
      IsValid hash ht_cb_compare s.ht
      × (fine ≡ true)
      × ((c : ℕ) × (finds s.ht (by_inode row.inode) ≡ some c) × (active s.store.conns c ≡ 3))

  -- A line of a connection that is neither waiting nor listening, on a valid table whose places all
  -- lie in the store and which does not hold the tuple under another inode: where there is memory,
  -- the connection is found by its inode afterwards and is marked for three rounds, whether it was
  -- known or is new.
  pub update_line-Listed :
      (protocol : ℕ) (row : Row) (s : Conns)
      → IsValid hash ht_cb_compare s.ht
      → s.ht.nentries + 2 < 2 ^ 24
      → roomy row ≡ true
      → (row.state == tcp_time_wait) || (row.state == tcp_listen) ≡ false
      → ((q : Key) (c : ℕ) → finds s.ht q ≡ some c → c < length s.store.conns)
      → (finds s.ht (by_inode row.inode) ≡ none
          → finds s.ht (by_tuple (record row.tuple { protocol = protocol })) ≡ none)
      → Returns (update_line hash protocol s (some row)) (Listed row)
  unfolding update_line connection_get_by_inode connection_insert netproc.Hashtable.Buckets.view
  update_line-Listed protocol row s v few room state inside fresh =
      rw (state, hashtable_get-reads hash ht_cb_compare (by_inode row.inode) v)
        (elim (Option-cases (finds s.ht (by_inode row.inode))) [
          | inr (c, known) ↦ rw known (
            (
              record s { store = record s.store { conns = change mark_active s.store.conns c } },
              true,
            ),
            refl,
            (
              v,
              refl,
              (c, known, change-mark s.store.conns c (inside (by_inode row.inode) c known)),
            ),
          )
          | inl absent ↦
              let conn = new_conn row protocol in
              let (ht, run, (v', n, found)) =
                connection_insert-Inserted row conn (length s.store.conns) v few room absent
                  (fresh absent) in
              let room' : row.conn_memory ≡ true = ground (arith, room) in
              rw (absent, room', run)
                (
                  (
                    record {
                      ht = ht;
                      store = record s.store { conns = s.store.conns ++ (conn ∷ []) };
                    },
                    true,
                  ),
                  refl,
                  (
                    v',
                    refl,
                    (
                      length s.store.conns,
                      found (by_inode row.inode) ∙ ground arith,
                      active-last s.store.conns conn,
                    ),
                  ),
                )
        ])
