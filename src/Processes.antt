-- ===== src/Processes.antt =====
-- src/processes.c: the processes that have a connection, each with one entry in a hash table by its
-- number. A pointer to a process is its place in the store; `freed` are the places that `free` was
-- called with, in order. What the directories of /proc hold is given with each update: the numbers
-- of the processes, the inode that each link of a descriptor names, or that it names none, and
-- whether there is memory for what the descriptor asks for. A vector is the list of its elements.
pub mod Dead
pub mod Live
pub mod Listed
mod Tests
use Prim.Native.String.{String}
use netproc.Types.{Connection, Process}
use netproc.Base.{
  ℕ, zero, suc, ◌+◌, Bool, true, false, Option, none, some, List, [], ◌∷◌, ◌++◌, ◌||◌,
  if◌then◌else◌, ◌==◌, length, Run, ok, fault, ◌>>=◌,
}
use netproc.Hashtable.{
  Table, hashtable_set, hashtable_get, hashtable_foreach_remove, hashtable_min_detroy,
}
use netproc.Connection.{
  Key, Store, Conns, Row, change, connection_get_by_inode, connection_update, zero_stat,
}
use netproc.Statistics.{change_process}

-- `ht_cb_compare`
abbrev pub same_pid : ℕ → ℕ → Bool
same_pid a b = a == b

-- The memory that processes are allocated from.
pub record Memory : Type 0 where
  pub store : List Process
  pub freed : List ℕ

-- `struct processes`, the table, and the memory.
pub record Processes : Type 0 where
  pub ht_process : Table ℕ ℕ
  pub memory : Memory
  pub proc : List ℕ
  pub total : ℕ

-- `proc->active`
abbrev pub is_active : List Process → ℕ → Bool
is_active [] p = false
is_active (process ∷ store) zero = process.active
is_active (process ∷ store) (suc p) = is_active store p

abbrev pub set_active : Bool → List Process → ℕ → List Process
set_active b store p = change_process (λ process. record process { active = b }) store p

-- The callback: its result is whether the entry is to go.
unfoldable pub remove_dead_proc : Memory → ℕ → Memory × Bool
remove_dead_proc m p =
    if is_active m.store p
    then (record m { store = set_active false m.store p }, false)
    else (record m { freed = m.freed ++ (p ∷ []) }, true)

-- A descriptor of a process: the inode that its link names, the name of the process if there is
-- memory for it and it can be read, and whether there is memory in the table and in the vector.
pub record Fd : Type 0 where
  pub inode : Option ℕ
  pub name : Option String
  pub table_memory : Bool × Bool
  pub push_memory : Bool

-- A process in /proc, with its descriptors where they can be read.
pub record Dir : Type 0 where
  pub pid : ℕ
  pub fds : Option (List Fd)
  pub push_memory : Bool

-- What `create_new_process` makes.
abbrev pub new_process : ℕ → String → Process
new_process pid name = record {
  net_stat = zero_stat;
  conections = [];
  name = name;
  pid = pid;
  active = true;
}

abbrev pub create_new_process : ℕ → Option String → Memory → Memory × Option ℕ
create_new_process pid none m = (m, none)
create_new_process pid (some name) m =
    (record m { store = m.store ++ (new_process pid name ∷ []) }, some (length m.store))

-- `vector_push`, whose result is not looked at.
abbrev pub push {ℓ} : {A : Type ℓ} → Bool → List A → A → List A
push true xs x = xs ++ (x ∷ [])
push false xs x = xs

-- `conn->proc = proc`, and the connection comes to those of the process.
abbrev pub own : Bool → ℕ → ℕ → Memory → List Connection → Memory × List Connection
own memory p c m conns = (
  record m {
    store =
        change_process (λ process. record process { conections = push memory process.conections c })
          m.store p;
  },
  change (λ conn. record conn { proc = some p }) conns c,
)

-- The state of the loops: the table, the memory, and the connections.
pub record Scan : Type 0 where
  pub ht_process : Table ℕ ℕ
  pub memory : Memory
  pub conns : List Connection

-- The end of the loop's body; without a process the loop is left.
abbrev pub owned : Fd → ℕ → Scan → Option ℕ → Scan × Option ℕ × Bool
owned fd c s none = (s, none, false)
owned fd c s (some p) =
    let (m, conns) = own fd.push_memory p c s.memory s.conns in
    (record s { memory = m; conns = conns }, some p, true)

-- A process of the table is active, and starts with no connection.
abbrev pub refreshed : Scan → Option ℕ → Scan
refreshed s none = s
refreshed s (some p) = record s {
  memory = record s.memory {
    store =
        change_process (λ process. record process { active = true; conections = [] }) s.memory.store
          p;
  };
}

abbrev pub listed : Bool → List ℕ → Option ℕ → List ℕ
listed memory proc none = proc
listed memory proc (some p) = push memory proc p

-- The removal of dead processes.
unfoldable pub remove_dead : Processes → Memory × Table ℕ ℕ
unfolding remove_dead_proc
remove_dead procs = hashtable_foreach_remove procs.ht_process remove_dead_proc procs.memory

-- The loop goes on, or is left.
abbrev pub after_fd : Bool → Run (Scan × Option ℕ) → Scan → Option ℕ → Run (Scan × Option ℕ)
after_fd true rest s proc = rest
after_fd false rest s proc = ok (s, proc)

module _ (hash : Key → ℕ) (pid_hash : ℕ → ℕ) where
  -- A new process comes into the table.
  abbrev pub entered : ℕ → Bool × Bool → Scan → Memory × Option ℕ → Run (Scan × Option ℕ)
  entered pid table_memory s (m, none) = ok (record s { memory = m }, none)
  entered pid table_memory s (m, some p) = do
    (ht, done) ← hashtable_set pid_hash same_pid table_memory.0 table_memory.1 s.ht_process pid p
    ok (record s { ht_process = ht; memory = m }, some p)

  -- `if ( !proc )`: the process that the connection gets, or none.
  abbrev pub process_for : ℕ → Fd → Scan → Option ℕ → Run (Scan × Option ℕ)
  process_for pid fd s (some p) = ok (s, some p)
  process_for pid fd s none =
      entered pid fd.table_memory s (create_new_process pid fd.name s.memory)

  -- What follows the lookup of the connection.
  abbrev pub connected : ℕ → Fd → Scan → Option ℕ → Option ℕ → Run (Scan × Option ℕ × Bool)
  connected pid fd s proc none = ok (s, proc, true)
  connected pid fd s proc (some c) = do
    (s', proc') ← process_for pid fd s proc
    ok (owned fd c s' proc')

  -- The body of the inner loop: the state, `proc`, and whether the loop goes on.
  abbrev pub scan_inode :
      Table Key ℕ → ℕ → Fd → Scan → Option ℕ → Option ℕ → Run (Scan × Option ℕ × Bool)
  scan_inode ht pid fd s proc none = ok (s, proc, true)
  scan_inode ht pid fd s proc (some inode) = do
    conn ← connection_get_by_inode hash ht inode
    connected pid fd s proc conn

  unfoldable pub scan_fds : Table Key ℕ → ℕ → List Fd → Scan → Option ℕ → Run (Scan × Option ℕ)
  scan_fds ht pid [] s proc = ok (s, proc)
  scan_fds ht pid (fd ∷ fds) s proc = do
    (s', proc', on) ← scan_inode ht pid fd s proc fd.inode
    after_fd on (scan_fds ht pid fds s' proc') s' proc'

  -- The body of the outer loop.
  abbrev pub scan_dir : Table Key ℕ → Dir → Option (List Fd) → Scan → List ℕ → Run (Scan × List ℕ)
  scan_dir ht dir none s proc = ok (s, proc)
  scan_dir ht dir (some fds) s proc = do
    known ← hashtable_get pid_hash same_pid s.ht_process dir.pid
    (s', p) ← scan_fds ht dir.pid fds (refreshed s known) known
    ok (s', listed dir.push_memory proc p)

  unfoldable pub scan_dirs : Table Key ℕ → List Dir → Scan → List ℕ → Run (Scan × List ℕ)
  unfolding scan_fds
  scan_dirs ht [] s proc = ok (s, proc)
  scan_dirs ht (dir ∷ dirs) s proc = do
    (s', proc') ← scan_dir ht dir dir.fds s proc
    scan_dirs ht dirs s' proc'

  -- `processes_update` after the connections are up to date, for the processes of /proc.
  unfoldable pub update_from : List Dir → Processes → Conns → Run (Processes × Conns)
  unfolding remove_dead scan_dirs
  update_from dirs procs conns = do
    let (memory, ht_process) = remove_dead procs
    (s, proc) ←
        scan_dirs conns.ht dirs
          record { ht_process = ht_process; memory = memory; conns = conns.store.conns } []
    ok (
      record { ht_process = s.ht_process; memory = s.memory; proc = proc; total = length proc },
      record conns { store = record conns.store { conns = s.conns } },
    )

  -- The rest where the connections could be read; `none` is a /proc that cannot be read.
  abbrev pub update_then :
      Option (List Dir) → Processes → Conns → Bool → Run (Processes × Conns × Bool)
  update_then dirs procs conns false = ok (procs, conns, false)
  update_then none procs conns true = ok (procs, conns, false)
  update_then (some dirs) procs conns true = do
    (procs', conns') ← update_from dirs procs conns
    ok (procs', conns', true)

  unfoldable pub processes_update :
      Bool
      → Bool
      → Option (List (Option Row))
      → Option (List (Option Row))
      → Option (List Dir)
      → Processes
      → Conns
      → Run (Processes × Conns × Bool)
  unfolding update_from
  processes_update tcp udp tcp_file udp_file dirs procs conns = do
    (conns', fine) ← connection_update hash tcp udp tcp_file udp_file conns
    update_then dirs procs conns' fine

-- `processes_init`, where there is memory; the vector of processes starts empty.
abbrev pub processes_init : Option (Table ℕ ℕ) → Option Processes
processes_init none = none
processes_init (some ht) =
    some
      (record { ht_process = ht; memory = record { store = []; freed = [] }; proc = []; total = 0 })

-- `free_process`, as the callback of the table: `free` is called with the process.
abbrev pub free_process : Memory → ℕ → Memory
free_process m p = record m { freed = m.freed ++ (p ∷ []) }

abbrev pub free_each : List ℕ → Memory → Memory
free_each [] m = m
free_each (p ∷ ps) m = free_each ps (free_process m p)

unfoldable pub processes_free : Processes → Memory
processes_free procs = free_each (hashtable_min_detroy procs.ht_process).0 procs.memory

-- `handle_cmdline`: the zeros and the newlines of the first `len - 1` bytes become spaces, and a
-- zero ends the text. It is called with a `len` of at least 1, for a buffer of at least as many.
unfoldable pub handle_cmdline : ℕ → List ℕ → List ℕ
handle_cmdline len [] = []
handle_cmdline zero (c ∷ buff) = c ∷ buff
handle_cmdline (suc zero) (c ∷ buff) = 0 ∷ buff
handle_cmdline (suc (suc len)) (c ∷ buff) =
    (if (c == 0) || (c == 10) then 32 else c) ∷ handle_cmdline (suc len) buff
