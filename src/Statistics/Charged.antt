-- ===== src/Statistics/Charged.antt =====
-- Who is charged for a packet in src/statistics.c.
use netproc.Types.{NetStat, Connection, Process}
use netproc.Base.{
  ℕ, zero, suc, ◌+◌, ◌%◌, ◌^◌, ◌<◌, ◌≡◌, refl, ap, sym, ◌∙◌, Bool-cases, add64, length-set, Bool,
  true, false, none, some, List, [], ◌∷◌, if◌then◌else◌, ◌==◌, length, get_or, arith, ok, Returns,
  Option-cases, inl, inr,
}
use netproc.Hashtable.{Table}
use netproc.Hashtable.Methods.{IsValid, reads, hashtable_get-reads}
use netproc.Packet.{Packet, Direction, pkt_down, pkt_upl}
use netproc.Rate.{rate_add_rx, rate_add_tx, add_sample}
use netproc.Rate.Loops.{get_or-set}
use netproc.Connection.{Key, by_tuple, ht_cb_compare, change, connection_get_by_tuple}
use netproc.Statistics.{
  change_process, packet_tuple, add, charge_conn, charge_proc, counted, proc_of, statistics_add,
}

get_or-change :
    (f : Connection → Connection) (conns : List Connection) (c d : ℕ) (other : Connection)
    → c < length conns
    → get_or (change f conns c) d other
      ≡ (if c == d then f (get_or conns d other) else get_or conns d other)
get_or-change f [] c d other h = absurd (omega arith)
get_or-change f (conn ∷ conns) zero zero other h = refl
get_or-change f (conn ∷ conns) zero (suc d) other h = ground arith
get_or-change f (conn ∷ conns) (suc c) zero other h = ground arith
get_or-change f (conn ∷ conns) (suc c) (suc d) other h =
    ground (arith, get_or-change f conns c d other (omega arith))

get_or-change_process :
    (f : Process → Process) (procs : List Process) (i j : ℕ) (other : Process)
    → i < length procs
    → get_or (change_process f procs i) j other
      ≡ (if i == j then f (get_or procs j other) else get_or procs j other)
get_or-change_process f [] i j other h = absurd (omega arith)
get_or-change_process f (p ∷ procs) zero zero other h = refl
get_or-change_process f (p ∷ procs) zero (suc j) other h = ground arith
get_or-change_process f (p ∷ procs) (suc i) zero other h = ground arith
get_or-change_process f (p ∷ procs) (suc i) (suc j) other h =
    ground (arith, get_or-change_process f procs i j other (omega arith))

proc_of-get_or :
    (conns : List Connection) (c : ℕ) (other : Connection)
    → c < length conns
    → proc_of conns c ≡ some (get_or conns c other).proc
proc_of-get_or [] c other h = absurd (omega arith)
proc_of-get_or (conn ∷ conns) zero other h = refl
proc_of-get_or (conn ∷ conns) (suc c) other h = proc_of-get_or conns c other (omega arith)

-- Samples that are larger by `n` in the slot `idx`, on 64 bits, and as before in every other.
abbrev pub Grown : ℕ → ℕ → List ℕ → List ℕ → Type 0
Grown idx n xs xs' =
    (length xs' ≡ length xs)
    × ((k : ℕ)
        → k < length xs
        → get_or xs' k 0 ≡ (if k == idx then (get_or xs k 0 + n) % 2 ^ 64 else get_or xs k 0))

-- The counters of one way: of packets and of bytes per window, of the last second, and in all.
pub record Side : Type 0 where
  pub packets : List ℕ
  pub bytes : List ℕ
  pub last : ℕ
  pub total : ℕ

abbrev pub side : Direction → NetStat → Side
side pkt_down ns = record {
  packets = ns.pps_rx;
  bytes = ns.bps_rx;
  last = ns.bytes_last_sec_rx;
  total = ns.tot_bps_rx;
}
side pkt_upl ns = record {
  packets = ns.pps_tx;
  bytes = ns.bps_tx;
  last = ns.bytes_last_sec_tx;
  total = ns.tot_bps_tx;
}

abbrev pub other_way : Direction → Direction
other_way pkt_down = pkt_upl
other_way pkt_upl = pkt_down

abbrev pub averages : NetStat → ℕ × ℕ × ℕ × ℕ
averages ns = (ns.avg_bps_rx, ns.avg_bps_tx, ns.avg_pps_rx, ns.avg_pps_tx)

-- Counters that have one packet of `n` bytes more in the slot `idx`, in this direction, and are as
-- before in the other.
pub record Counted (idx : ℕ) (dir : Direction) (n : ℕ) (ns ns' : NetStat) : Type 0 where
  pub packets : Grown idx 1 (side dir ns).packets (side dir ns').packets
  pub bytes : Grown idx n (side dir ns).bytes (side dir ns').bytes
  pub last : (side dir ns').last ≡ ((side dir ns).last + n) % 2 ^ 64
  pub total : (side dir ns').total ≡ ((side dir ns).total + n) % 2 ^ 64
  pub rest : side (other_way dir) ns' ≡ side (other_way dir) ns
  pub means : averages ns' ≡ averages ns

add_sample-Grown : (idx n : ℕ) (xs : List ℕ) → Grown idx n xs (add_sample xs idx n)
add_sample-Grown idx n xs = (
  length-set xs idx _,
  λ k h. elim (Bool-cases (k == idx)) [
    | inl e ↦
        let same : k ≡ idx = ground (arith, e) in
        get_or-set xs idx (add64 (get_or xs idx 0) n) k 0 h
        ∙ rw e (ap (λ j. add64 (get_or xs j 0) n) (sym same))
    | inr e ↦ get_or-set xs idx (add64 (get_or xs idx 0) n) k 0 h ∙ rw e refl
  ],
)

add-Counted :
    (idx : ℕ) (dir : Direction) (n : ℕ) (ns : NetStat) → Counted idx dir n ns (add idx dir n ns)
unfolding add rate_add_rx rate_add_tx
add-Counted idx pkt_down n ns = record {
  packets = add_sample-Grown idx 1 ns.pps_rx;
  bytes = add_sample-Grown idx n ns.bps_rx;
  last = refl;
  total = refl;
  rest = refl;
  means = refl;
}
add-Counted idx pkt_upl n ns = record {
  packets = add_sample-Grown idx 1 ns.pps_tx;
  bytes = add_sample-Grown idx n ns.bps_tx;
  last = refl;
  total = refl;
  rest = refl;
  means = refl;
}

-- A connection that has the interface of the packet, and the packet in its counters if connections
-- are shown; nothing else of it is changed.
abbrev pub ConnCharged : ℕ → Packet → Bool → Connection → Connection → Type 0
ConnCharged idx pkt false conn conn' = conn' ≡ record conn { if_index = pkt.if_index }
ConnCharged idx pkt true conn conn' =
    (conn' ≡ record conn { if_index = pkt.if_index; net_stat = conn'.net_stat })
    × Counted idx pkt.direction pkt.lenght conn.net_stat conn'.net_stat

-- A process that has the packet in its counters, and nothing else changed.
abbrev pub ProcCharged : ℕ → Packet → Process → Process → Type 0
ProcCharged idx pkt p p' =
    (p' ≡ record p { net_stat = p'.net_stat })
    × Counted idx pkt.direction pkt.lenght p.net_stat p'.net_stat

charge_conn-ConnCharged :
    (idx : ℕ) (pkt : Packet) (view_conections : Bool) (conn conn' : Connection)
    → conn' ≡ charge_conn idx pkt view_conections conn
    → ConnCharged idx pkt view_conections conn conn'
charge_conn-ConnCharged idx pkt true conn conn' e =
    rw e (refl, add-Counted idx pkt.direction pkt.lenght conn.net_stat)
charge_conn-ConnCharged idx pkt false conn conn' e = e

charge_proc-ProcCharged :
    (idx : ℕ) (pkt : Packet) (p p' : Process)
    → p' ≡ charge_proc idx pkt p
    → ProcCharged idx pkt p p'
charge_proc-ProcCharged idx pkt p p' e =
    rw e (refl, add-Counted idx pkt.direction pkt.lenght p.net_stat)

same_place : (c : ℕ) → (c == c) ≡ true
same_place c = ground arith

module _ (hash : Key → ℕ) (idx_cir : ℕ) (pkt : Packet) (view_conections : Bool)
    (conns : List Connection) (procs : List Process) where
  -- The packet is charged to the connection `c` and to the process `i`, and every other connection
  -- and process is as before.
  abbrev pub Charged : ℕ → ℕ → List Connection × List Process × Bool → Type 0
  Charged c i (conns', procs', found) =
      (found ≡ true)
      × ((o : Connection)
          → ConnCharged idx_cir pkt view_conections (get_or conns c o) (get_or conns' c o))
      × ((d : ℕ) (o : Connection) → (c == d) ≡ false → get_or conns' d o ≡ get_or conns d o)
      × ((o : Process) → ProcCharged idx_cir pkt (get_or procs i o) (get_or procs' i o))
      × ((j : ℕ) (o : Process) → (i == j) ≡ false → get_or procs' j o ≡ get_or procs j o)

  -- On a valid table, for a packet whose tuple finds a connection of the store that has a process:
  -- in the direction of the packet the counters of that process grow by one packet and its length,
  -- in the current slot, in the last second and in all, on 64 bits, and those of the other direction
  -- stay; the same holds of the connection if connections are shown, and else its counters stay; the
  -- connection takes the packet's interface; no other connection or process changes.
  pub statistics_add-Charged :
      {ht : Table Key ℕ} (c i : ℕ) (other : Connection)
      → IsValid hash ht_cb_compare ht
      → reads hash ht_cb_compare ht (by_tuple (packet_tuple pkt)) ≡ some c
      → c < length conns
      → (get_or conns c other).proc ≡ some i
      → i < length procs
      → Returns (statistics_add hash idx_cir ht pkt view_conections conns procs) (Charged c i)
  unfolding statistics_add connection_get_by_tuple
  statistics_add-Charged {ht} c i other v found inside has within =
      let proc = proc_of-get_or conns c other inside ∙ ap some has in
      let charge = charge_conn idx_cir pkt view_conections in
      let bill = charge_proc idx_cir pkt in
      rw (hashtable_get-reads hash ht_cb_compare (by_tuple (packet_tuple pkt)) v, found, proc)
        (
          counted idx_cir pkt view_conections conns procs c (some i),
          refl,
          (
            refl,
            (λ o.
                charge_conn-ConnCharged idx_cir pkt view_conections _ _
                  (get_or-change charge conns c c o inside ∙ rw (same_place c) refl)),
            (λ d o e. get_or-change charge conns c d o inside ∙ rw e refl),
            (λ o.
                charge_proc-ProcCharged idx_cir pkt _ _
                  (get_or-change_process bill procs i i o within ∙ rw (same_place i) refl)),
            (λ j o e. get_or-change_process bill procs i j o within ∙ rw e refl),
          ),
        )

  -- On a valid table, a packet whose tuple finds no connection, or one that has no process yet,
  -- changes nothing, and the result says so.
  pub statistics_add-unknown :
      {ht : Table Key ℕ}
      → IsValid hash ht_cb_compare ht
      → ((c : ℕ)
          → reads hash ht_cb_compare ht (by_tuple (packet_tuple pkt)) ≡ some c
          → proc_of conns c ≡ some none)
      → statistics_add hash idx_cir ht pkt view_conections conns procs ≡ ok (conns, procs, false)
  unfolding statistics_add connection_get_by_tuple
  statistics_add-unknown {ht} v unowned =
      rw (hashtable_get-reads hash ht_cb_compare (by_tuple (packet_tuple pkt)) v)
        (elim (Option-cases (reads hash ht_cb_compare ht (by_tuple (packet_tuple pkt)))) [
          | inl e ↦ rw e refl
          | inr (c, e) ↦ rw (e, unowned c e) refl
        ])
