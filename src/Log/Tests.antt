-- ===== src/Log/Tests.antt =====
-- The buffer of src/log.c with one program, and with sixteen.
use netproc.Types.{Process}
use netproc.Base.{
  ℕ, ◌≡◌, refl, true, none, some, [], ◌∷◌, ◌==◌, replicate, total, arith, Returns, ok, fault,
  if◌then◌else◌,
}
use netproc.Connection.{zero_stat}
use netproc.Vector.{vector_push}
use netproc.Log.{Log, find_log, update_one, update_log_process, log_file, write_process_to_file}
use netproc.Log.Merged.{IsValid, Logged, update_one-Logged}

abbrev one : Log
one = record {
  log_processes = record {
    elements_allocated = 2;
    elements_used = 1;
    element_size = 24;
    cells = some (record { name = "a"; tot_bps_rx = 100; tot_bps_tx = 7 }) ∷ none ∷ [];
  };
  len_log_processes = 1;
}

abbrev process : ℕ → Process
process pid = record {
  net_stat = record zero_stat {
    tot_bps_rx = 50;
    tot_bps_tx = 60;
    bytes_last_sec_rx = 5;
    bytes_last_sec_tx = 6;
  };
  conections = [];
  name = if pid == 1 then "a" else "b";
  pid = pid;
  active = true;
}

-- A known name and a new one.
two_test :
    log_file ((true, true, process 1) ∷ (true, true, process 2) ∷ []) one
    ≡ ok (
      record {
        log_processes = record {
          elements_allocated = 2;
          elements_used = 2;
          element_size = 24;
          cells =
              some (record { name = "a"; tot_bps_rx = 105; tot_bps_tx = 13 })
              ∷ some (record { name = "b"; tot_bps_rx = 50; tot_bps_tx = 60 })
              ∷ [];
        };
        len_log_processes = 2;
      },
      some (
          record { name = "a"; tot_bps_rx = 105; tot_bps_tx = 13 }
          ∷ record { name = "b"; tot_bps_rx = 50; tot_bps_tx = 60 }
          ∷ []),
    )
unfolding log_file update_log_process find_log vector_push write_process_to_file
two_test = refl

-- A vector of sixteen programs is full: the slot for a new name lies behind the block.
abbrev full : Log
full = record {
  log_processes = record {
    elements_allocated = 16;
    elements_used = 16;
    element_size = 24;
    cells = replicate 16 (some (record { name = "a"; tot_bps_rx = 1; tot_bps_tx = 1 }));
  };
  len_log_processes = 16;
}

full_test : log_file ((true, true, process 2) ∷ []) full ≡ fault
unfolding log_file update_log_process find_log
full_test = refl

one-IsValid : IsValid one
unfolding total
one-IsValid = record {
  counted = refl;
  sized = refl;
  within = omega arith;
  once = λ n. ground arith;
}

update_one-Logged_example : Returns (update_one true true one (process 2)) (Logged one (process 2))
unfolding total
update_one-Logged_example =
    update_one-Logged true one (process 2) one-IsValid (omega arith) (omega arith)
      (omega arith, omega arith)
