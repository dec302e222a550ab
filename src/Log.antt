-- ===== src/Log.antt =====
-- src/log.c: the traffic of each program, by its name, in a vector that the file is written from.
-- The slot that `log` points to after the search lies in the vector's block or not: to write to it
-- outside of the block is a fault. The processes are those before the NULL that ends their array;
-- whether there is memory for a name and in the vector is given with each.
pub mod Merged
mod Tests
use Prim.Native.String.{String}
use netproc.Types.{NetStat, Process}
use netproc.Base.{
  ℕ, zero, suc, ◌+◌, Bool, true, false, Option, none, some, List, [], ◌∷◌, ◌++◌, ◌==◌, ◌&&◌, ltb,
  if◌then◌else◌, codes, str_eq, take, set, add64, Run, ok, fault, ◌>>=◌,
}
use netproc.Vector.{Vector, vector_push, vector_new}

-- `struct log_processes`
pub record LogProcess : Type 0 where
  pub name : String
  pub tot_bps_rx : ℕ
  pub tot_bps_tx : ℕ

-- `log_processes` and `len_log_processes`
pub record Log : Type 0 where
  pub log_processes : Vector LogProcess
  pub len_log_processes : ℕ

abbrev pub same_name : String → String → Bool
same_name a b = str_eq (codes a) (codes b)

-- The search, over the slots in use: the first that has the name.
unfoldable pub find_log : String → List (Option LogProcess) → Option ℕ
find_log name [] = none
find_log name (none ∷ cells) = elim (find_log name cells) [ none ↦ none | some j ↦ some (suc j) ]
find_log name (some log ∷ cells) =
    let rest = find_log name cells in
    if same_name name log.name then some 0 else elim rest [ none ↦ none | some j ↦ some (suc j) ]

-- `log->tot_Bps_rx += …` in the slot that was found.
abbrev pub charge : NetStat → LogProcess → LogProcess
charge ns log = record log {
  tot_bps_rx = add64 log.tot_bps_rx ns.bytes_last_sec_rx;
  tot_bps_tx = add64 log.tot_bps_tx ns.bytes_last_sec_tx;
}

abbrev pub change_slot :
    (LogProcess → LogProcess) → List (Option LogProcess) → ℕ → List (Option LogProcess)
change_slot f [] j = []
change_slot f (none ∷ cells) zero = none ∷ cells
change_slot f (some log ∷ cells) zero = some (f log) ∷ cells
change_slot f (cell ∷ cells) (suc j) = cell ∷ change_slot f cells j

-- A process whose name is in the buffer.
abbrev pub charge_at : Log → NetStat → ℕ → Log
charge_at s ns j = record s {
  log_processes = record s.log_processes {
    cells = change_slot (charge ns) s.log_processes.cells j;
  };
}

-- The new slot is filled in before the vector counts it.
abbrev pub new_log : Process → LogProcess
new_log p = record {
  name = p.name;
  tot_bps_rx = p.net_stat.tot_bps_rx;
  tot_bps_tx = p.net_stat.tot_bps_tx;
}

abbrev pub add_log : Bool → Log → Process → Log × Bool
add_log push_memory s p =
    let log = new_log p in
    let filled = record s.log_processes {
      cells = set s.log_processes.cells s.len_log_processes (some log);
    } in
    let (v, done) = vector_push push_memory filled log in
    (record { log_processes = v; len_log_processes = s.len_log_processes + 1 }, done == 1)

-- One round of the loop of `update_log_process`; the result is whether it goes on.
abbrev pub update_found : Bool → Bool → Log → Process → Option ℕ → Run (Log × Bool)
update_found name_memory push_memory s p (some j) = ok (charge_at s p.net_stat j, true)
update_found name_memory push_memory s p none =
    if ltb s.len_log_processes s.log_processes.elements_allocated
    then (if name_memory then ok (add_log push_memory s p) else ok (s, false))
    else fault

abbrev pub update_one : Bool → Bool → Log → Process → Run (Log × Bool)
update_one name_memory push_memory s p =
    update_found name_memory push_memory s p
      (find_log p.name (take s.len_log_processes s.log_processes.cells))

-- `update_log_process`, with the answers for the memory of each process.
abbrev pub go_on : Bool → Run (Log × Bool) → Log → Run (Log × Bool)
go_on true rest s = rest
go_on false rest s = ok (s, false)

unfoldable pub update_log_process : List (Bool × Bool × Process) → Log → Run (Log × Bool)
unfolding find_log
update_log_process [] s = ok (s, true)
update_log_process ((name_memory, push_memory, p) ∷ procs) s = do
  (s', on) ← update_one name_memory push_memory s p
  go_on on (update_log_process procs s') s'

-- `write_process_to_file`: the lines, as their totals and names, without those of no traffic.
unfoldable pub write_process_to_file : List (Option LogProcess) → List LogProcess
write_process_to_file [] = []
write_process_to_file (none ∷ cells) = write_process_to_file cells
write_process_to_file (some log ∷ cells) =
    let rest = write_process_to_file cells in
    if (log.tot_bps_rx == 0) && (log.tot_bps_tx == 0) then rest else log ∷ rest

-- `log_file`: the lines that are written, or none where the update failed.
abbrev pub written : Log × Bool → Log × Option (List LogProcess)
written (s, true) =
    (s, some (write_process_to_file (take s.len_log_processes s.log_processes.cells)))
written (s, false) = (s, none)

unfoldable pub log_file : List (Bool × Bool × Process) → Log → Run (Log × Option (List LogProcess))
unfolding update_log_process write_process_to_file
log_file procs s = do r ← update_log_process procs s; ok (written r)
