-- ===== src/Processes/Listed.antt =====
-- The loops of src/processes.c over the directories of /proc, and what `processes_update` leaves.
use Prim.Native.String.{String}
use mathlib.Core.Path.{subst}
use mathlib.Core.Option.{some-injective}
use netproc.Types.{Process}
use netproc.Base.{
  ℕ, zero, suc, ◌+◌, ◌^◌, ◌≤◌, ◌<◌, ◌≡◌, inl, inr, refl, ap, sym, ◌∙◌, Bool, true, false, Option,
  none, some, List, [], ◌∷◌, ◌++◌, if◌then◌else◌, Bool-cases, arith, length, length-append, Returns,
}
use netproc.Hashtable.{Table}
use netproc.Hashtable.Chain.{same}
use netproc.Hashtable.Methods.{IsValid, reads, hashtable_set-Stored, hashtable_get-reads}
use netproc.Statistics.{change_process}
use netproc.Connection.{Key, by_inode, ht_cb_compare, Conns, connection_get_by_inode}
use netproc.Processes.{
  Memory, Processes, Scan, Fd, Dir, same_pid, new_process, create_new_process, push, entered,
  process_for, owned, connected, scan_inode, scan_fds, refreshed, listed, after_fd, scan_dir,
  scan_dirs, remove_dead, update_from,
}
use netproc.Processes.Dead.{pid_of, is_freed, pid_of-change, length-change_process, pid_of-lt}
use netproc.Processes.Live.{same_pid-IsKeying, finds, Live, remove_dead-Cleaned}

-- Memory in which the same processes, and perhaps more, can be used.
record Extends (m m' : Memory) : Type 0 where
  freed : m'.freed ≡ m.freed
  pids : (p q : ℕ) → pid_of m.store p ≡ some q → pid_of m'.store p ≡ some q
  size : length m.store ≤ length m'.store

Extends-refl : (m : Memory) → Extends m m
Extends-refl m = record { freed = refl; pids = λ p q h. h; size = omega arith }

Extends-trans : (a b c : Memory) → Extends a b → Extends b c → Extends a c
Extends-trans a b c e f = record {
  freed = f.freed ∙ e.freed;
  pids = λ p q h. f.pids p q (e.pids p q h);
  size = omega (arith, e.size, f.size);
}

-- A place that was allocated and not freed.
abbrev pub Usable : Memory → ℕ → Type 0
Usable m p = (p < length m.store) × (is_freed p m.freed ≡ false)

Usable-Extends : (m m' : Memory) (p : ℕ) → Extends m m' → Usable m p → Usable m' p
Usable-Extends m m' p e (a, b) = (omega (arith, a, e.size), ap (is_freed p) e.freed ∙ b)

abbrev pub AllUsable : Memory → List ℕ → Type 0
AllUsable m [] = Unit
AllUsable m (p ∷ ps) = Usable m p × AllUsable m ps

AllUsable-Extends : (m m' : Memory) (ps : List ℕ) → Extends m m' → AllUsable m ps → AllUsable m' ps
AllUsable-Extends m m' [] e u = tt
AllUsable-Extends m m' (p ∷ ps) e (a, u) =
    (Usable-Extends m m' p e a, AllUsable-Extends m m' ps e u)

AllUsable-append :
    (m : Memory) (ps : List ℕ) (p : ℕ) → AllUsable m ps → Usable m p → AllUsable m (ps ++ (p ∷ []))
AllUsable-append m [] p u a = (a, tt)
AllUsable-append m (q ∷ ps) p (b, u) a = (b, AllUsable-append m ps p u a)

Extends-change :
    (f : Process → Process) (m : Memory) (p : ℕ)
    → ((process : Process) → (f process).pid ≡ process.pid)
    → Extends m (record m { store = change_process f m.store p })
Extends-change f m p same = record {
  freed = refl;
  pids = λ q k h. pid_of-change f same m.store p q ∙ h;
  size = omega (arith, length-change_process f m.store p);
}

pid_of-append :
    (store : List Process) (process : Process) (p q : ℕ)
    → pid_of store p ≡ some q
    → pid_of (store ++ (process ∷ [])) p ≡ some q
pid_of-append [] process p q h = absurd (cc)
pid_of-append (other ∷ store) process zero q h = h
pid_of-append (other ∷ store) process (suc p) q h = pid_of-append store process p q h

pid_of-last :
    (store : List Process) (process : Process)
    → pid_of (store ++ (process ∷ [])) (length store) ≡ some process.pid
pid_of-last [] process = refl
pid_of-last (other ∷ store) process = pid_of-last store process

Extends-append :
    (m : Memory) (process : Process) → Extends m (record m { store = m.store ++ (process ∷ []) })
Extends-append m process = record {
  freed = refl;
  pids = λ p q h. pid_of-append m.store process p q h;
  size = omega (arith, length-append m.store (process ∷ []));
}

module _ (pid_hash : ℕ → ℕ) where
  Live-Extends :
      (m m' : Memory) (t : Table ℕ ℕ) → Extends m m' → Live pid_hash m t → Live pid_hash m' t
  Live-Extends m m' t e v = record {
    pids = λ q p h. e.pids p q (v.pids q p h);
    unfreed = λ q p h. ap (is_freed p) e.freed ∙ v.unfreed q p h;
    bounded = λ x h. omega (arith, e.size, v.bounded x (sym (ap (is_freed x) e.freed) ∙ h));
  }

  -- What the inner loop may rely on: `proc` is a process that can be used, or the table has none of
  -- that number and there is room for it.
  abbrev ProcOk : ℕ → ℕ → Scan → Option ℕ → Type 0
  ProcOk pid n s none = (finds pid_hash s.ht_process pid ≡ none) × (s.ht_process.nentries + 1 ≤ n)
  ProcOk pid n s (some p) = Usable s.memory p × (s.ht_process.nentries ≤ n)

  record Good (s : Scan) : Type 0 where
    valid : IsValid pid_hash same_pid s.ht_process
    live : Live pid_hash s.memory s.ht_process

  abbrev Inner : ℕ → ℕ → Scan → Scan → Option ℕ → Type 0
  Inner pid n s s' proc = Good s' × ProcOk pid n s' proc × Extends s.memory s'.memory

  unfreed_end :
      (m : Memory) (t : Table ℕ ℕ) → Live pid_hash m t → is_freed (length m.store) m.freed ≡ false
  unfreed_end m t v = elim (Bool-cases (is_freed (length m.store) m.freed)) [
    | inl f ↦ absurd (omega (arith, v.bounded (length m.store) f))
    | inr f ↦ f
  ]

  -- A table with one more process, the last of the store.
  Live-stored :
      (m : Memory) (t u : Table ℕ ℕ) (process : Process)
      → Live pid_hash m t
      → ((q : ℕ)
          → finds pid_hash u q ≡ (
              if same pid_hash same_pid process.pid q
              then some (length m.store)
              else finds pid_hash t q))
      → Live pid_hash (record m { store = m.store ++ (process ∷ []) }) u
  Live-stored m t u process v stored =
      let grown = Live-Extends m _ t (Extends-append m process) v in
      record {
        pids = λ q p h. elim (Bool-cases (same pid_hash same_pid process.pid q)) [
          | inl here ↦
              let place : length m.store ≡ p =
                some-injective (length m.store) p (ground (arith, stored q, here, h)) in
              let key : process.pid ≡ q = ground (arith, here) in
              ap (pid_of (m.store ++ (process ∷ []))) (sym place)
              ∙ (pid_of-last m.store process ∙ ap some key)
          | inr other ↦ grown.pids q p (ground (arith, stored q, other, h))
        ];
        unfreed = λ q p h. elim (Bool-cases (same pid_hash same_pid process.pid q)) [
          | inl here ↦
              let place : length m.store ≡ p =
                some-injective (length m.store) p (ground (arith, stored q, here, h)) in
              ap (λ x. is_freed x m.freed) (sym place) ∙ unfreed_end m t v
          | inr other ↦ grown.unfreed q p (ground (arith, stored q, other, h))
        ];
        bounded = grown.bounded;
      }

  last-Usable :
      (m : Memory) (t : Table ℕ ℕ) (process : Process)
      → Live pid_hash m t
      → Usable (record m { store = m.store ++ (process ∷ []) }) (length m.store)
  last-Usable m t process v =
      (omega (arith, length-append m.store (process ∷ [])), unfreed_end m t v)

  module _ (hash : Key → ℕ) where
    entered-Inner :
        (pid n : ℕ) (name : Option String) (table_memory : Bool × Bool) (s : Scan)
        → n < 2 ^ 24
        → Good s
        → ProcOk pid n s none
        → Returns
            (entered hash pid_hash pid table_memory s (create_new_process pid name s.memory))
            λ r. Inner pid n s r.0 r.1
    entered-Inner pid n none table_memory s small g k =
        (_, refl, (record { valid = g.valid; live = g.live }, k, Extends-refl s.memory))
    entered-Inner pid n (some name) table_memory s small g (absent, room) =
        let process = new_process pid name in
        let m = s.memory in
        let (r, run, done) =
          hashtable_set-Stored pid_hash same_pid (same_pid-IsKeying pid_hash) table_memory.0
            table_memory.1 pid (length m.store) g.valid (omega (arith, room, small)) absent in
        rw run (elim done [
          | inl st ↦ (
            _,
            refl,
            (
              record {
                valid = st.valid;
                live = Live-stored m s.ht_process r.0 process g.live st.stored;
              },
              (last-Usable m s.ht_process process g.live, omega (arith, st.nentries, room)),
              Extends-append m process,
            ),
          )
          | inr (unchanged, dry) ↦ rw unchanged (
            _,
            refl,
            (
              record {
                valid = g.valid;
                live = Live-Extends m _ s.ht_process (Extends-append m process) g.live;
              },
              (last-Usable m s.ht_process process g.live, omega (arith, room)),
              Extends-append m process,
            ),
          )
        ])

    process_for-Inner :
        (pid n : ℕ) (fd : Fd) (s : Scan) (proc : Option ℕ)
        → n < 2 ^ 24
        → Good s
        → ProcOk pid n s proc
        → Returns (process_for hash pid_hash pid fd s proc) λ r. Inner pid n s r.0 r.1
    process_for-Inner pid n fd s none small g k =
        entered-Inner pid n fd.name fd.table_memory s small g k
    process_for-Inner pid n fd s (some p) small g k = (_, refl, (g, k, Extends-refl s.memory))

    owned-Inner :
        (pid n c : ℕ) (fd : Fd) (s : Scan) (proc : Option ℕ)
        → Good s
        → ProcOk pid n s proc
        → Inner pid n s (owned fd c s proc).0 (owned fd c s proc).1
    owned-Inner pid n c fd s none g k =
        (record { valid = g.valid; live = g.live }, k, Extends-refl s.memory)
    owned-Inner pid n c fd s (some p) g (u, room) =
        let f = λ (process : Process). record process {
          conections = push fd.push_memory process.conections c;
        } in
        let e = Extends-change f s.memory p (λ process. refl) in
        (
          record { valid = g.valid; live = Live-Extends s.memory _ s.ht_process e g.live },
          (Usable-Extends s.memory _ p e u, room),
          e,
        )

    connected-Inner :
        (pid n : ℕ) (fd : Fd) (s : Scan) (proc conn : Option ℕ)
        → n < 2 ^ 24
        → Good s
        → ProcOk pid n s proc
        → Returns (connected hash pid_hash pid fd s proc conn) λ r. Inner pid n s r.0 r.1
    connected-Inner pid n fd s proc none small g k = (_, refl, (g, k, Extends-refl s.memory))
    connected-Inner pid n fd s proc (some c) small g k =
        let (r, run, (g', k', e)) = process_for-Inner pid n fd s proc small g k in
        let (g'', k'', e') = owned-Inner pid n c fd r.0 r.1 g' k' in
        rw run (_, refl, (g'', k'', Extends-trans s.memory r.0.memory _ e e'))

    module _ (ht : Table Key ℕ) (ht_valid : IsValid hash ht_cb_compare ht) where
      scan_inode-Inner :
          (pid n : ℕ) (fd : Fd) (s : Scan) (proc inode : Option ℕ)
          → n < 2 ^ 24
          → Good s
          → ProcOk pid n s proc
          → Returns (scan_inode hash pid_hash ht pid fd s proc inode) λ r. Inner pid n s r.0 r.1
      unfolding connection_get_by_inode
      scan_inode-Inner pid n fd s proc none small g k = (_, refl, (g, k, Extends-refl s.memory))
      scan_inode-Inner pid n fd s proc (some inode) small g k =
          rw (hashtable_get-reads hash ht_cb_compare (by_inode inode) ht_valid) (
            connected-Inner pid n fd s proc (reads hash ht_cb_compare ht (by_inode inode)) small g
              k)

      -- What follows one descriptor.
      after_fd-Inner :
          (pid n : ℕ) (fds : List Fd) (s s' : Scan) (proc : Option ℕ) (on : Bool)
          → Inner pid n s s' proc
          → Returns (scan_fds hash pid_hash ht pid fds s' proc) (λ r. Inner pid n s' r.0 r.1)
          → Returns
              (after_fd on (scan_fds hash pid_hash ht pid fds s' proc) s' proc)
              λ r. Inner pid n s r.0 r.1
      after_fd-Inner pid n fds s s' proc true (g, k, e) (r, run, (g', k', e')) =
          (r, run, (g', k', Extends-trans s.memory s'.memory r.0.memory e e'))
      after_fd-Inner pid n fds s s' proc false i rest = (_, refl, i)

      scan_fds-Inner :
          (pid n : ℕ) (fds : List Fd) (s : Scan) (proc : Option ℕ)
          → n < 2 ^ 24
          → Good s
          → ProcOk pid n s proc
          → Returns (scan_fds hash pid_hash ht pid fds s proc) λ r. Inner pid n s r.0 r.1
      unfolding scan_fds
      scan_fds-Inner pid n [] s proc small g k = (_, refl, (g, k, Extends-refl s.memory))
      scan_fds-Inner pid n (fd ∷ fds) s proc small g k =
          let (r, run, i) = scan_inode-Inner pid n fd s proc fd.inode small g k in
          rw run (
            after_fd-Inner pid n fds s r.0 r.1 r.2 i
              (scan_fds-Inner pid n fds r.0 r.1 small i.0 i.1))

      refreshed-Good :
          (pid n : ℕ) (s : Scan) (known : Option ℕ)
          → Good s
          → finds pid_hash s.ht_process pid ≡ known
          → s.ht_process.nentries + 1 ≤ n
          → Inner pid n s (refreshed s known) known
      refreshed-Good pid n s none g e room = (g, (e, room), Extends-refl s.memory)
      refreshed-Good pid n s (some p) g e room =
          let f = λ (process : Process). record process { active = true; conections = [] } in
          let x = Extends-change f s.memory p (λ process. refl) in
          let here = pid_of-lt s.memory.store p pid (g.live.pids pid p e) in
          (
            record { valid = g.valid; live = Live-Extends s.memory _ s.ht_process x g.live },
            (Usable-Extends s.memory _ p x (here, g.live.unfreed pid p e), omega (arith, room)),
            x,
          )

      -- The state between two processes of /proc.
      abbrev Outer : ℕ → Scan × List ℕ → Type 0
      Outer n r = Good r.0 × AllUsable r.0.memory r.1 × (r.0.ht_process.nentries ≤ n)

      listed-AllUsable :
          (m : Memory) (memory : Bool) (proc : List ℕ) (p : Option ℕ)
          → AllUsable m proc
          → ((q : ℕ) → p ≡ some q → Usable m q)
          → AllUsable m (listed memory proc p)
      listed-AllUsable m memory proc none u f = u
      listed-AllUsable m false proc (some p) u f = u
      listed-AllUsable m true proc (some p) u f = AllUsable-append m proc p u (f p refl)

      ProcOk-Usable :
          (pid n : ℕ) (s : Scan) (p : Option ℕ)
          → ProcOk pid n s p
          → ((q : ℕ) → p ≡ some q → Usable s.memory q) × (s.ht_process.nentries ≤ n)
      ProcOk-Usable pid n s none (absent, room) = (λ q e. absurd (cc), omega (arith, room))
      ProcOk-Usable pid n s (some p) (u, room) =
          (λ q e. subst (Usable s.memory) (some-injective p q e) u, room)

      scan_dir-Outer :
          (n : ℕ) (dir : Dir) (fds : Option (List Fd)) (s : Scan) (proc : List ℕ)
          → n + 1 < 2 ^ 24
          → Outer n (s, proc)
          → Returns (scan_dir hash pid_hash ht dir fds s proc) (Outer (n + 1))
      scan_dir-Outer n dir none s proc small (g, u, room) = (_, refl, (g, u, omega (arith, room)))
      scan_dir-Outer n dir (some fds) s proc small (g, u, room) =
          let known = finds pid_hash s.ht_process dir.pid in
          let (g', k', x) = refreshed-Good dir.pid (n + 1) s known g refl (omega (arith, room)) in
          let (r, run, (g'', k'', x')) =
            scan_fds-Inner dir.pid (n + 1) fds (refreshed s known) known small g' k' in
          let (usable, few) = ProcOk-Usable dir.pid (n + 1) r.0 r.1 k'' in
          let old =
            AllUsable-Extends s.memory r.0.memory proc (Extends-trans s.memory _ r.0.memory x x')
              u in
          rw (hashtable_get-reads pid_hash same_pid dir.pid g.valid, run)
            (_, refl, (g'', listed-AllUsable r.0.memory dir.push_memory proc r.1 old usable, few))

      scan_dirs-Outer :
          (dirs : List Dir) (n : ℕ) (s : Scan) (proc : List ℕ)
          → n + length dirs < 2 ^ 24
          → Outer n (s, proc)
          → Returns (scan_dirs hash pid_hash ht dirs s proc) (Outer (n + length dirs))
      unfolding scan_dirs
      scan_dirs-Outer [] n s proc small (g, u, room) = (_, refl, (g, u, omega (arith, room)))
      scan_dirs-Outer (dir ∷ dirs) n s proc small o =
          let (r, run, o') = scan_dir-Outer n dir dir.fds s proc (omega (arith, small)) o in
          let (r', run', (g, u, room)) =
            scan_dirs-Outer dirs (n + 1) r.0 r.1 (omega (arith, small)) o' in
          rw (run, run') (_, refl, (g, u, omega (arith, room)))

    -- What an update leaves: a table whose processes can be used, and a list of processes all of
    -- which can be used.
    pub record Updated (procs : Processes) : Type 0 where
      pub valid : IsValid pid_hash same_pid procs.ht_process
      pub live : Live pid_hash procs.memory procs.ht_process
      pub usable : AllUsable procs.memory procs.proc

    -- From valid tables, and with room for one more entry for each process of /proc, the update ends
    -- within the arrays whatever the descriptors are and whether there is memory or not: then each
    -- entry of the table is a process of its number that has not been freed, and so is each process
    -- that is listed.
    pub update_from-Updated :
        (dirs : List Dir) (procs : Processes) (conns : Conns)
        → IsValid hash ht_cb_compare conns.ht
        → IsValid pid_hash same_pid procs.ht_process
        → Live pid_hash procs.memory procs.ht_process
        → procs.ht_process.nentries + length dirs < 2 ^ 24
        → Returns (update_from hash pid_hash dirs procs conns) λ r. Updated r.0
    unfolding update_from
    update_from-Updated dirs procs conns cv i live small =
        let (valid, few, live', reads', _, _) =
          remove_dead-Cleaned pid_hash procs i (omega (arith, small)) live in
        let n = procs.ht_process.nentries in
        let (r, run, (g, u, room)) =
          scan_dirs-Outer conns.ht cv dirs n
            record {
              ht_process = (remove_dead procs).1;
              memory = (remove_dead procs).0;
              conns = conns.store.conns;
            }
            [] small (record { valid = valid; live = live' }, tt, few) in
        rw run (_, refl, record { valid = g.valid; live = g.live; usable = u })
