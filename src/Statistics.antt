-- ===== src/Statistics.antt =====
-- src/statistics.c: a packet is counted for the connection that has its tuple, and for the process
-- of that connection.
pub mod Charged
mod Tests
use netproc.Types.{NetStat, Tuple, Connection, Process}
use netproc.Base.{
  ℕ, zero, suc, Bool, true, false, Option, none, some, List, [], ◌∷◌, if◌then◌else◌, get_elem?, Run,
  ok, fault, ◌>>=◌,
}
use netproc.Hashtable.{Table}
use netproc.Packet.{Packet, Direction, pkt_down, pkt_upl}
use netproc.Rate.{rate_add_rx, rate_add_tx}
use netproc.Connection.{Key, change, connection_get_by_tuple}

-- The processes of the program, by their places.
abbrev pub change_process : (Process → Process) → List Process → ℕ → List Process
change_process f [] i = []
change_process f (p ∷ ps) zero = f p ∷ ps
change_process f (p ∷ ps) (suc i) = p ∷ change_process f ps i

abbrev pub packet_tuple : Packet → Tuple
packet_tuple pkt = record {
  local_ip = pkt.local_ip;
  remote_ip = pkt.remote_ip;
  local_port = pkt.local_port;
  remote_port = pkt.remote_port;
  protocol = pkt.protocol;
}

-- The switch on the direction.
unfoldable pub add : ℕ → Direction → ℕ → NetStat → NetStat
unfolding rate_add_rx rate_add_tx
add idx_cir pkt_down lenght ns = rate_add_rx idx_cir ns lenght
add idx_cir pkt_upl lenght ns = rate_add_tx idx_cir ns lenght

-- The change of the connection, and of its process.
abbrev pub charge_conn : ℕ → Packet → Bool → Connection → Connection
charge_conn idx_cir pkt view_conections conn =
    let seen = record conn { if_index = pkt.if_index } in
    if view_conections
    then record seen { net_stat = add idx_cir pkt.direction pkt.lenght seen.net_stat }
    else seen

abbrev pub charge_proc : ℕ → Packet → Process → Process
charge_proc idx_cir pkt p = record p { net_stat = add idx_cir pkt.direction pkt.lenght p.net_stat }

-- The connections, the processes and the result, for the process of the connection, if it has one.
abbrev pub counted :
    ℕ
    → Packet
    → Bool
    → List Connection
    → List Process
    → ℕ
    → Option ℕ
    → List Connection × List Process × Bool
counted idx_cir pkt view_conections conns procs c none = (conns, procs, false)
counted idx_cir pkt view_conections conns procs c (some i) = (
  change (charge_conn idx_cir pkt view_conections) conns c,
  change_process (charge_proc idx_cir pkt) procs i,
  true,
)

-- `conn->proc`, where the place lies in the store.
abbrev pub proc_of : List Connection → ℕ → Option (Option ℕ)
proc_of [] c = none
proc_of (conn ∷ conns) zero = some conn.proc
proc_of (conn ∷ conns) (suc c) = proc_of conns c

-- A place that the table gives and that is not in the store cannot be followed.
abbrev pub charged :
    ℕ
    → Packet
    → Bool
    → List Connection
    → List Process
    → ℕ
    → Option (Option ℕ)
    → Run (List Connection × List Process × Bool)
charged idx_cir pkt view_conections conns procs c none = fault
charged idx_cir pkt view_conections conns procs c (some proc) =
    ok (counted idx_cir pkt view_conections conns procs c proc)

abbrev pub follow :
    ℕ
    → Packet
    → Bool
    → List Connection
    → List Process
    → Option ℕ
    → Run (List Connection × List Process × Bool)
follow idx_cir pkt view_conections conns procs none = ok (conns, procs, false)
follow idx_cir pkt view_conections conns procs (some c) =
    charged idx_cir pkt view_conections conns procs c (proc_of conns c)

unfoldable pub statistics_add :
    (Key → ℕ)
    → ℕ
    → Table Key ℕ
    → Packet
    → Bool
    → List Connection
    → List Process
    → Run (List Connection × List Process × Bool)
unfolding add
statistics_add hash idx_cir ht pkt view_conections conns procs = do
  conn ← connection_get_by_tuple hash ht (packet_tuple pkt)
  follow idx_cir pkt view_conections conns procs conn
