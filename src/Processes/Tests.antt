-- ===== src/Processes/Tests.antt =====
-- Updates of src/processes.c, and the theorems at them.
use Prim.Native.String.{String}
use netproc.Base.{
  ℕ, zero, suc, ◌≤◌, ◌⊎◌, inl, inr, get_or, ◌≡◌, refl, sym, ◌∙◌, Bool, true, false, Option, none,
  some, List, [], ◌∷◌, arith, Returns, ok, Run, ◌>>=◌, replicate, at,
}
use netproc.Hashtable.{
  Table, hashtable_min_new, hashtable_set, hashtable_min_set, hashtable_get, hashtable_min_get,
  get_entry, find_entry, prepend, get_index, remove_chain, remove_buckets, hashtable_foreach_remove,
}
use netproc.Hashtable.Shrink.{hashtable_min_new-IsValid}
use mathlib.Core.List.{flatten}
use netproc.Types.{Process}
use netproc.Hashtable.Chain.{Homed, count, lookup}
use netproc.Hashtable.Buckets.{home}
use netproc.Hashtable.Methods.{IsValid}
use mathlib.Core.Option.{none-ne-some}
use netproc.Statistics.{proc_of}
use netproc.Connection.{Conns, zero_stat, new_conn, connection_get_by_inode}
use netproc.Connection.Tests.{hash, ht, ht-IsValid, row}
use netproc.Processes.{
  Processes, Fd, Dir, same_pid, update_from, remove_dead, remove_dead_proc, scan_fds, scan_dirs,
  handle_cmdline,
}
use netproc.Processes.Dead.{is_freed}
use netproc.Processes.Live.{Live, Cleaned, finds, remove_dead-Cleaned, lookup_flat}
use netproc.Processes.Listed.{Updated, update_from-Updated}

abbrev pid_hash : ℕ → ℕ
pid_hash pid = pid

abbrev empty_table : Table ℕ ℕ
empty_table = record { nentries = 0; buckets = replicate 16 [] }

abbrev start : Processes
start = record {
  ht_process = empty_table;
  memory = record { store = []; freed = [] };
  proc = [];
  total = 0;
}

-- A descriptor of the connection with inode 4, in a process of this name.
abbrev fd : Option String → Fd
fd name = record { inode = some 4; name = name; table_memory = (true, true); push_memory = true }

abbrev dir : ℕ → Option String → Dir
dir pid name = record { pid = pid; fds = some (fd name ∷ []); push_memory = true }

abbrev conns : Conns
conns = record { ht = ht; store = record { conns = new_conn (row 4 5) 6 ∷ []; freed = [] } }

-- Three updates in which the connection is listed throughout: first process 5 has it, then only
-- process 6, whose name cannot be read.
abbrev three : Run (Processes × Conns)
three = do
  (p, c) ← update_from hash pid_hash (dir 5 (some "a") ∷ []) start conns
  (p', c') ← update_from hash pid_hash (dir 6 none ∷ []) p c
  update_from hash pid_hash (dir 6 none ∷ []) p' c'

abbrev shown : Processes × Conns → Bool × List ℕ × Option (Option ℕ)
shown r = (is_freed 0 r.0.memory.freed, r.0.proc, proc_of r.1.store.conns 0)

-- Afterwards process 5 has been freed, and the connection still points to it.
three_test : three >>= (λ r. ok (shown r)) ≡ ok (true, [], some (some 0))
unfolding update_from remove_dead remove_dead_proc scan_fds scan_dirs connection_get_by_inode
    hashtable_set hashtable_min_set hashtable_get hashtable_min_get get_entry find_entry prepend
    get_index hashtable_foreach_remove remove_buckets remove_chain at
three_test = refl

-- The words of a command line are zero-terminated in /proc.
handle_cmdline_test : handle_cmdline 5 (97 ∷ 0 ∷ 98 ∷ 10 ∷ 0 ∷ []) ≡ 97 ∷ 32 ∷ 98 ∷ 32 ∷ 0 ∷ []
unfolding handle_cmdline
handle_cmdline_test = refl

made : hashtable_min_new {K = ℕ} {V = ℕ} true true ≡ some empty_table
unfolding hashtable_min_new
made = refl

empty_table-IsValid : IsValid pid_hash same_pid empty_table
empty_table-IsValid = (hashtable_min_new-IsValid pid_hash same_pid true true made).0

empty_reads : (q : ℕ) → finds pid_hash empty_table q ≡ none
empty_reads q = (hashtable_min_new-IsValid pid_hash same_pid true true made).2 q

start-Live : Live pid_hash start.memory start.ht_process
start-Live = record {
  pids = λ q p h. absurd (none-ne-some p (sym (empty_reads q) ∙ h));
  unfreed = λ q p h. refl;
  bounded = λ x h. absurd (ground (arith, h));
}

update_from-Updated_example :
    Returns
      (update_from hash pid_hash (dir 5 (some "a") ∷ dir 6 none ∷ []) start conns)
      λ r. Updated pid_hash hash r.0
update_from-Updated_example =
    update_from-Updated pid_hash hash (dir 5 (some "a") ∷ dir 6 none ∷ []) start conns ht-IsValid
      empty_table-IsValid start-Live (omega arith)

-- Process 4 has been seen, process 5 has not.
abbrev process : ℕ → Bool → Process
process pid active = record {
  net_stat = zero_stat;
  conections = [];
  name = "a";
  pid = pid;
  active = active;
}

abbrev two : Processes
two = record {
  ht_process = record {
    nentries = 2;
    buckets =
        (record { key_hash = 4; key = 4; value = 0 } ∷ [])
        ∷ (record { key_hash = 5; key = 5; value = 1 } ∷ [])
        ∷ []
        ∷ []
        ∷ [];
  };
  memory = record { store = process 4 true ∷ process 5 false ∷ []; freed = [] };
  proc = [];
  total = 0;
}

two-Homed :
    (i : ℕ) → Homed pid_hash same_pid (home pid_hash 4) i (get_or two.ht_process.buckets i [])
unfolding get_index
two-Homed zero = (refl, refl, tt)
two-Homed (suc zero) = (refl, refl, tt)
two-Homed (suc (suc zero)) = tt
two-Homed (suc (suc (suc zero))) = tt
two-Homed (suc (suc (suc (suc i)))) = tt

two_unique : (q : ℕ) → count pid_hash same_pid q (flatten two.ht_process.buckets) ≤ 1
unfolding count flatten
two_unique q = ground arith

two-IsValid : IsValid pid_hash same_pid two.ht_process
unfolding flatten
two-IsValid = record {
  placed = record {
    sized = omega arith;
    bounded = omega arith;
    homed = two-Homed;
    unique = two_unique;
  };
  counted = refl;
  loaded = omega arith;
}

two_found :
    (q p : ℕ) → finds pid_hash two.ht_process q ≡ some p → ((q ≡ 4) × (p ≡ 0)) ⊎ ((q ≡ 5) × (p ≡ 1))
unfolding flatten lookup find_entry
two_found q p h = ground (arith, lookup_flat pid_hash {t = two.ht_process} q two-IsValid, h)

two-Live : Live pid_hash two.memory two.ht_process
two-Live = record {
  pids = λ q p h. elim (two_found q p h) [
    | inl (key, place) ↦ rw (key, place) refl
    | inr (key, place) ↦ rw (key, place) refl
  ];
  unfreed = λ q p h. refl;
  bounded = λ x h. absurd (ground (arith, h));
}

-- Of the two, process 5 is freed.
two_test : (remove_dead two).0.freed ≡ 1 ∷ []
unfolding remove_dead remove_dead_proc hashtable_foreach_remove remove_buckets remove_chain
two_test = refl

remove_dead-Cleaned_example : Cleaned pid_hash two.memory two.ht_process (remove_dead two)
remove_dead-Cleaned_example = remove_dead-Cleaned pid_hash two two-IsValid (omega arith) two-Live
