-- ===== src/Types.antt =====
-- The structures that several files share: `struct net_stat` (src/rate.h), `struct tuple`
-- (src/sockaddr.h), `connection_t` (src/connection.h) and `process_t` (src/processes.h). A pointer
-- to a connection or to a process is its place in the store of them.
use Prim.Native.String.{String}
use netproc.Base.{ℕ, Bool, Option, List}

-- `struct net_stat`
pub record NetStat : Type 0 where
  pub pps_rx : List ℕ
  pub pps_tx : List ℕ
  pub bps_rx : List ℕ
  pub bps_tx : List ℕ
  pub avg_bps_rx : ℕ
  pub avg_bps_tx : ℕ
  pub avg_pps_rx : ℕ
  pub avg_pps_tx : ℕ
  pub tot_bps_rx : ℕ
  pub tot_bps_tx : ℕ
  pub bytes_last_sec_rx : ℕ
  pub bytes_last_sec_tx : ℕ

-- `struct tuple`, with its `struct layer3` and `struct layer4`.
pub record Tuple : Type 0 where
  pub local_ip : ℕ
  pub remote_ip : ℕ
  pub local_port : ℕ
  pub remote_port : ℕ
  pub protocol : ℕ

-- `connection_t`
pub record Connection : Type 0 where
  pub net_stat : NetStat
  pub tuple : Tuple
  pub proc : Option ℕ
  pub inode : ℕ
  pub if_index : ℕ
  pub state : ℕ
  pub refs_active : ℕ
  pub refs_exit : ℕ

-- `process_t`; `total_conections` is the length of the list.
pub record Process : Type 0 where
  pub net_stat : NetStat
  pub conections : List ℕ
  pub name : String
  pub pid : ℕ
  pub active : Bool
