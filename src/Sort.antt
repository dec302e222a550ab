-- ===== src/Sort.antt =====
-- src/sort.c: the order of the processes and of their connections. `qsort_r` is the C library's,
-- and is a parameter. A difference of two counters wraps on 64 bits and is read as a signed number.
pub mod Order
mod Tests
use netproc.Types.{NetStat, Connection, Process}
use netproc.Base.{
  ℕ, zero, suc, ◌-◌, ◌^◌, Bool, true, false, List, [], ◌∷◌, map, if◌then◌else◌, ltb, ◌==◌, sub64,
  get_or,
}

-- `enum cols_sort`
pub data ColsSort : Type 0 where
  s_pid : ColsSort
  pps_tx : ColsSort
  pps_rx : ColsSort
  rate_tx : ColsSort
  rate_rx : ColsSort
  tot_tx : ColsSort
  tot_rx : ColsSort

-- The result of a comparator: -1, 0 or 1.
pub data Sign : Type 0 where
  minus : Sign
  nought : Sign
  plus : Sign

-- `( r > 0 ) - ( r < 0 )` for the 64 bits of `r`.
abbrev pub sign64 : ℕ → Sign
sign64 r = if r == 0 then nought else if ltb r (2 ^ 63) then plus else minus

-- The same for the difference of two numbers that are not negative, which an `int` holds.
abbrev pub sign_int : ℕ → ℕ → Sign
sign_int a b = if a == b then nought else if ltb b a then plus else minus

unfoldable pub compare_process : ColsSort → Process → Process → Sign
compare_process rate_rx a b = sign64 (sub64 b.net_stat.avg_bps_rx a.net_stat.avg_bps_rx)
compare_process rate_tx a b = sign64 (sub64 b.net_stat.avg_bps_tx a.net_stat.avg_bps_tx)
compare_process tot_rx a b = sign64 (sub64 b.net_stat.tot_bps_rx a.net_stat.tot_bps_rx)
compare_process tot_tx a b = sign64 (sub64 b.net_stat.tot_bps_tx a.net_stat.tot_bps_tx)
compare_process pps_rx a b = sign64 (sub64 b.net_stat.avg_pps_rx a.net_stat.avg_pps_rx)
compare_process pps_tx a b = sign64 (sub64 b.net_stat.avg_pps_tx a.net_stat.avg_pps_tx)
compare_process s_pid a b = sign_int a.pid b.pid

-- The counter of a connection that its column compares; the received bytes for the other columns.
abbrev pub conn_column : ColsSort → Connection → ℕ
conn_column rate_tx c = c.net_stat.avg_bps_tx
conn_column pps_rx c = c.net_stat.avg_pps_rx
conn_column pps_tx c = c.net_stat.avg_pps_tx
conn_column rate_rx c = c.net_stat.avg_bps_rx
conn_column s_pid c = c.net_stat.avg_bps_rx
conn_column tot_tx c = c.net_stat.avg_bps_rx
conn_column tot_rx c = c.net_stat.avg_bps_rx

unfoldable pub compare_connection : ColsSort → Connection → Connection → Sign
compare_connection mode a b = sign64 (sub64 (conn_column mode b) (conn_column mode a))

module _ (qsort_r : (A : Type 0) → (A → A → Sign) → List A → List A) (store : List Connection)
    (other : Connection) where
  -- The connections of a process, by what their places hold.
  abbrev pub sort_conections : ColsSort → Process → Process
  sort_conections mode p = record p {
    conections =
        qsort_r ℕ (λ c d. compare_connection mode (get_or store c other) (get_or store d other))
          p.conections;
  }

  unfoldable pub sort : List Process → ColsSort → Bool → List Process
  unfolding compare_process compare_connection
  sort procs mode view_conections =
      let sorted = qsort_r Process (compare_process mode) procs in
      if view_conections then map (sort_conections mode) sorted else sorted
