-- ===== src/Statistics/Tests.antt =====
-- A packet of a known connection.
use netproc.Types.{Connection, Process}
use netproc.Base.{ℕ, ◌≡◌, refl, true, false, none, some, [], ◌∷◌, arith, ok, Returns}
use netproc.Hashtable.{get_index, find_entry}
use netproc.Hashtable.Chain.{lookup}
use netproc.Hashtable.Buckets.{view}
use netproc.Hashtable.Methods.{reads}
use netproc.Packet.{Packet, pkt_down}
use netproc.Connection.{by_tuple, ht_cb_compare, zero_stat, new_conn}
use netproc.Connection.Tests.{hash, ht, ht-IsValid, row}
use netproc.Statistics.{packet_tuple, proc_of, statistics_add}
use netproc.Statistics.Charged.{Charged, statistics_add-Charged, statistics_add-unknown}

abbrev packet : ℕ → Packet
packet port = record {
  if_index = 3;
  direction = pkt_down;
  protocol = 6;
  local_ip = 1;
  remote_ip = 2;
  local_port = port;
  remote_port = 80;
  lenght = 1000;
}

abbrev conn : Connection
conn = record (new_conn (row 4 5) 6) { proc = some 0 }

abbrev process : Process
process = record {
  net_stat = zero_stat;
  conections = 0 ∷ [];
  name = "curl";
  pid = 12;
  active = true;
}

found : reads hash ht_cb_compare ht (by_tuple (packet_tuple (packet 5))) ≡ some 0
unfolding view lookup find_entry get_index
found = refl

not_found :
    (c : ℕ)
    → reads hash ht_cb_compare ht (by_tuple (packet_tuple (packet 6))) ≡ some c
    → proc_of (conn ∷ []) c ≡ some none
unfolding view lookup find_entry get_index
not_found c h = ground arith

statistics_add-Charged_example :
    Returns
      (statistics_add hash 2 ht (packet 5) true (conn ∷ []) (process ∷ []))
      (Charged hash 2 (packet 5) true (conn ∷ []) (process ∷ []) 0 0)
statistics_add-Charged_example =
    statistics_add-Charged hash 2 (packet 5) true (conn ∷ []) (process ∷ []) 0 0 conn ht-IsValid
      found (omega arith) refl (omega arith)

statistics_add-unknown_example :
    statistics_add hash 2 ht (packet 6) true (conn ∷ []) (process ∷ [])
    ≡ ok (conn ∷ [], process ∷ [], false)
statistics_add-unknown_example =
    statistics_add-unknown hash 2 (packet 6) true (conn ∷ []) (process ∷ []) ht-IsValid not_found
