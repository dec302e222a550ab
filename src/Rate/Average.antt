-- ===== src/Rate/Average.antt =====
-- `rate_net_stat` of src/rate.c over a run: the mean of the last five windows.
use netproc.Base.{
  ℕ, ◌+◌, ◌*◌, ◌^◌, ◌≤◌, ◌<◌, ◌≡◌, ap, Bool, true, false, List, arith, u64_mod, if◌then◌else◌,
}
use netproc.Rate.{sum_samples, m_round_mean, in_unit, rate_net_stat}
use netproc.Rate.Slots.{sum, sum_samples-history}
use netproc.Rate.Windows.{
  Way, Event, run, window, windows, total, window-le, Sampled, Small, run-Counts, bytes_rx,
  bytes_tx, packets_rx, packets_tx,
}

-- The traffic of the last five windows.
abbrev pub recent : (Way → ℕ → ℕ) → List Event → ℕ
recent m es = window m es 0 + window m es 1 + window m es 2 + window m es 3 + window m es 4

-- `avg` is the whole number nearest to a fifth of `s`.
abbrev pub Mean : ℕ → ℕ → Type 0
Mean avg s = (5 * avg ≤ s + 2) × (s ≤ 5 * avg + 2)

m_round_mean-Mean : (s : ℕ) → Mean (m_round_mean s) s
m_round_mean-Mean s = (omega arith, omega arith)

abbrev pub unit_factor : Bool → ℕ
unit_factor view_bytes = if view_bytes then 1 else 8

-- The sum that is averaged is that of the last five windows.
summed :
    {m : Way → ℕ → ℕ} {es : List Event} {idx : ℕ} {xs : List ℕ}
    → total m es < 2 ^ 58
    → Sampled m es idx xs
    → sum_samples xs 0 ≡ recent m es
summed {m} {es} {idx} {xs} small s =
    let small' : sum (windows m es) < u64_mod = omega (
      arith,
      window-le m es 0,
      window-le m es 1,
      window-le m es 2,
      window-le m es 3,
      window-le m es 4,
    ) in
    let e = ap sum s.held in
    omega (arith, e, sum_samples-history idx xs s.ring (omega (arith, e, small')))

in_unit_lem :
    (view_bytes : Bool) (m : Way → ℕ → ℕ) (es : List Event)
    → total m es < 2 ^ 58
    → in_unit view_bytes (recent m es) ≡ unit_factor view_bytes * recent m es
in_unit_lem true m es h = omega arith
in_unit_lem false m es h = omega (
  arith,
  window-le m es 0,
  window-le m es 1,
  window-le m es 2,
  window-le m es 3,
  window-le m es 4,
)

-- The totals within which a `double` rounds as `m_round_mean`: eight times the bytes are below
-- 2 ^ 49, and so are the packets.
pub record Exact (es : List Event) : Type 0 where
  pub bytes_rx : total bytes_rx es < 2 ^ 46
  pub bytes_tx : total bytes_tx es < 2 ^ 46
  pub packets_rx : total packets_rx es < 2 ^ 49
  pub packets_tx : total packets_tx es < 2 ^ 49

Exact-Small : {es : List Event} → Exact es → Small es
Exact-Small exact = record {
  bytes_rx = omega (arith, exact.bytes_rx);
  bytes_tx = omega (arith, exact.bytes_tx);
  packets_rx = omega (arith, exact.packets_rx);
  packets_tx = omega (arith, exact.packets_tx);
}

-- After any packets and ticks of which the bytes in all stay below 2 ^ 46 and the packets below
-- 2 ^ 49, either way, `rate_net_stat` gives the mean per window over the last five windows, in bytes
-- or in bits, and of packets, to the nearest whole number, for either way.
pub rate_net_stat-Mean :
    (view_bytes : Bool) (es : List Event)
    → Exact es
    → let ns = rate_net_stat (run es).1 view_bytes in
      Mean ns.avg_bps_rx (unit_factor view_bytes * recent bytes_rx es)
      × Mean ns.avg_bps_tx (unit_factor view_bytes * recent bytes_tx es)
      × Mean ns.avg_pps_rx (recent packets_rx es)
      × Mean ns.avg_pps_tx (recent packets_tx es)
unfolding rate_net_stat
rate_net_stat-Mean view_bytes es exact =
    let small = Exact-Small exact in
    let c = run-Counts es small in
    rw
      (
        summed small.bytes_rx c.bps_rx,
        summed small.bytes_tx c.bps_tx,
        summed small.packets_rx c.pps_rx,
        summed small.packets_tx c.pps_tx,
        in_unit_lem view_bytes bytes_rx es small.bytes_rx,
        in_unit_lem view_bytes bytes_tx es small.bytes_tx,
      )
      (m_round_mean-Mean _, m_round_mean-Mean _, m_round_mean-Mean _, m_round_mean-Mean _)
