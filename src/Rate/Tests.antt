-- ===== src/Rate/Tests.antt =====
-- Counters after a few packets and ticks.
use netproc.Base.{
  ◌+◌, ◌*◌, ◌%◌, ◌≡◌, refl, true, false, List, [], ◌∷◌, arith, replicate, get_or, ◌&&◌, some,
}
use netproc.Types.{NetStat, Connection, Process}
use netproc.Rate.{
  rate_net_stat, rate_add_rx, rate_add_tx, clear_samples, clear_process, rate_update,
}
use netproc.Rate.Windows.{
  Event, moved, tick, rx, tx, run, Small, Counts, run-Counts, start, bytes_rx, bytes_tx, packets_rx,
  packets_tx,
}
use netproc.Rate.Average.{Mean, Exact, recent, rate_net_stat-Mean}
use netproc.Rate.Loops.{rate_update_lem, listed, AllRenewed, Touched}

-- The last event first: 1000 and 500 bytes received in two windows, 60 sent.
abbrev events : List Event
events = moved tx 60 ∷ moved rx 1000 ∷ tick ∷ moved rx 500 ∷ []

events-Small : Small events
events-Small = record {
  bytes_rx = omega arith;
  bytes_tx = omega arith;
  packets_rx = omega arith;
  packets_tx = omega arith;
}

events-Exact : Exact events
events-Exact = record {
  bytes_rx = omega arith;
  bytes_tx = omega arith;
  packets_rx = omega arith;
  packets_tx = omega arith;
}

-- 1500 bytes over five windows, in bits: 2400 each.
mean_bits : (rate_net_stat (run events).1 false).avg_bps_rx ≡ 2400
unfolding rate_net_stat rate_add_rx rate_add_tx clear_process clear_samples
mean_bits = refl

-- Six ticks later nothing of it is in the ring, but the total stays.
forgotten :
    let ns = rate_net_stat (run (tick ∷ tick ∷ tick ∷ tick ∷ tick ∷ tick ∷ events)).1 true in
    (ns.avg_bps_rx ≡ 0) × (ns.tot_bps_rx ≡ 1500)
unfolding rate_net_stat rate_add_rx rate_add_tx clear_process clear_samples
forgotten = (refl, refl)

run-Counts_example : Counts events (run events).0 (run events).1
run-Counts_example = run-Counts events events-Small

rate_net_stat-Mean_example :
    let ns = rate_net_stat (run events).1 false in
    Mean ns.avg_bps_rx (8 * recent bytes_rx events)
    × Mean ns.avg_bps_tx (8 * recent bytes_tx events)
    × Mean ns.avg_pps_rx (recent packets_rx events)
    × Mean ns.avg_pps_tx (recent packets_tx events)
rate_net_stat-Mean_example = rate_net_stat-Mean false events events-Exact

abbrev busy : NetStat
busy = record start { bps_rx = replicate 5 9; tot_bps_rx = 45 }

abbrev conn : Connection
conn = record {
  net_stat = busy;
  tuple = record { local_ip = 1; remote_ip = 2; local_port = 3; remote_port = 4; protocol = 6 };
  proc = some 0;
  inode = 77;
  if_index = 1;
  state = 1;
  refs_active = 3;
  refs_exit = 0;
}

abbrev shown : List Process
shown =
    record { net_stat = busy; conections = 1 ∷ 1 ∷ []; name = "wget"; pid = 300; active = true }
    ∷ []

abbrev store : List Connection
store = conn ∷ conn ∷ []

rate_update_lem_example :
    let (idx, proc', store') = rate_update true 4 shown store in
    (idx ≡ (4 + 1) % 5)
    × AllRenewed idx shown proc'
    × Touched (true && listed 1 shown) idx (get_or store 1 conn) (get_or store' 1 conn)
rate_update_lem_example = rate_update_lem true 4 shown store 1 conn (omega arith)
