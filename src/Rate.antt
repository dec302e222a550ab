-- ===== src/Rate.antt =====
-- src/rate.c, src/rate.h and src/round.c: the traffic counters, kept for the last five windows in a
-- ring whose current slot is the static variable `idx_cir`. A process lists its connections by
-- their places in the store of connections, where the source has pointers.
pub mod Slots
pub mod Windows
pub mod Average
pub mod Loops
mod Tests
use netproc.Types.{NetStat, Connection, Process}
use netproc.Base.{
  ℕ, zero, suc, ◌+◌, ◌-◌, ◌*◌, ◌/◌, ◌%◌, ◌^◌, Bool, true, false, List, [], ◌∷◌, if◌then◌else◌,
  get_or, set, add64, mul64, map,
}

abbrev pub sample_space_size : ℕ
sample_space_size = 5

-- The loop that adds the samples up.
abbrev pub sum_samples : List ℕ → ℕ → ℕ
sum_samples [] sum = sum
sum_samples (x ∷ xs) sum = sum_samples xs (add64 sum x)

-- `m_round ( ( double ) sum / SAMPLE_SPACE_SIZE )`, the sum over five plus a half, cut off: the
-- quotient is away from a half by a tenth at least, so a `double` rounds as here for sums below
-- 2 ^ 49. Of larger sums this is not the code.
abbrev pub m_round_mean : ℕ → ℕ
m_round_mean sum = (2 * sum + sample_space_size) / (2 * sample_space_size)

-- `view_bytes`, or else bits.
abbrev pub in_unit : Bool → ℕ → ℕ
in_unit view_bytes sum = if view_bytes then sum else mul64 sum 8

unfoldable pub rate_net_stat : NetStat → Bool → NetStat
rate_net_stat ns view_bytes = record ns {
  avg_bps_rx = m_round_mean (in_unit view_bytes (sum_samples ns.bps_rx 0));
  avg_bps_tx = m_round_mean (in_unit view_bytes (sum_samples ns.bps_tx 0));
  avg_pps_rx = m_round_mean (sum_samples ns.pps_rx 0);
  avg_pps_tx = m_round_mean (sum_samples ns.pps_tx 0);
}

-- `UPDATE_ID_BUFF`
abbrev pub update_id_buff : ℕ → ℕ
update_id_buff id = (id + 1) % sample_space_size

-- `samples[idx_cir] += n`
abbrev pub add_sample : List ℕ → ℕ → ℕ → List ℕ
add_sample xs idx_cir n = set xs idx_cir (add64 (get_or xs idx_cir 0) n)

unfoldable pub rate_add_rx : ℕ → NetStat → ℕ → NetStat
rate_add_rx idx_cir ns lenght = record ns {
  pps_rx = add_sample ns.pps_rx idx_cir 1;
  bps_rx = add_sample ns.bps_rx idx_cir lenght;
  bytes_last_sec_rx = add64 ns.bytes_last_sec_rx lenght;
  tot_bps_rx = add64 ns.tot_bps_rx lenght;
}

unfoldable pub rate_add_tx : ℕ → NetStat → ℕ → NetStat
rate_add_tx idx_cir ns lenght = record ns {
  pps_tx = add_sample ns.pps_tx idx_cir 1;
  bps_tx = add_sample ns.bps_tx idx_cir lenght;
  bytes_last_sec_tx = add64 ns.bytes_last_sec_tx lenght;
  tot_bps_tx = add64 ns.tot_bps_tx lenght;
}

-- The four assignments that empty the current slot.
unfoldable pub clear_samples : ℕ → NetStat → NetStat
clear_samples idx_cir ns = record ns {
  pps_rx = set ns.pps_rx idx_cir 0;
  pps_tx = set ns.pps_tx idx_cir 0;
  bps_rx = set ns.bps_rx idx_cir 0;
  bps_tx = set ns.bps_tx idx_cir 0;
}

-- What `rate_update` does to a process's own counters.
unfoldable pub clear_process : ℕ → NetStat → NetStat
unfolding clear_samples
clear_process idx_cir ns = record (clear_samples idx_cir ns) {
  bytes_last_sec_rx = 0;
  bytes_last_sec_tx = 0;
}

-- A change of the counters of a process, and of a connection.
abbrev pub count_process : (NetStat → NetStat) → Process → Process
count_process f p = record p { net_stat = f p.net_stat }

abbrev pub count_conection : (NetStat → NetStat) → Connection → Connection
count_conection f c = record c { net_stat = f c.net_stat }

-- The store, with a change at one place.
abbrev pub modify : (Connection → Connection) → List Connection → ℕ → List Connection
modify f [] c = []
modify f (conn ∷ store) zero = f conn ∷ store
modify f (conn ∷ store) (suc c) = conn ∷ modify f store c

-- The loop over the connections of a process.
unfoldable pub each_conection :
    (Connection → Connection) → List ℕ → List Connection → List Connection
each_conection f [] store = store
each_conection f (c ∷ conections) store = each_conection f conections (modify f store c)

-- The loop over the processes, of which the one over the connections is part if they are shown.
unfoldable pub each_process :
    (Process → Process)
    → (Connection → Connection)
    → Bool
    → List Process
    → List Connection
    → List Process × List Connection
unfolding each_conection
each_process f g view_conections [] store = ([], store)
each_process f g view_conections (p ∷ proc) store =
    let store' = if view_conections then each_conection g p.conections store else store in
    let (rest, end) = each_process f g view_conections proc store' in (f p ∷ rest, end)

unfoldable pub rate_calc :
    Bool → Bool → List Process → List Connection → List Process × List Connection
unfolding each_process rate_net_stat
rate_calc view_bytes view_conections proc store =
    each_process (count_process (λ ns. rate_net_stat ns view_bytes))
      (count_conection (λ ns. rate_net_stat ns view_bytes)) view_conections proc store

-- The new `idx_cir`, the processes and the connections.
unfoldable pub rate_update :
    Bool → ℕ → List Process → List Connection → ℕ × List Process × List Connection
unfolding each_process clear_process clear_samples
rate_update view_conections idx_cir proc store =
    let idx = update_id_buff idx_cir in
    let (proc', store') =
      each_process (count_process (clear_process idx)) (count_conection (clear_samples idx))
        view_conections proc store in
    (idx, proc', store')
