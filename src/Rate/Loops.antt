-- ===== src/Rate/Loops.antt =====
-- The loops of src/rate.c over processes and their connections: `rate_calc` and `rate_update`.
use netproc.Base.{
  ℕ, zero, suc, ◌+◌, ◌%◌, ◌<◌, ◌≡◌, refl, ap, ◌∙◌, Bool, true, false, List, [], ◌∷◌, arith, length,
  length-set, get_or, set, map, if◌then◌else◌, ◌==◌, ◌||◌, ◌&&◌,
}
use netproc.Types.{NetStat, Connection, Process}
use netproc.Rate.{
  rate_net_stat, update_id_buff, clear_samples, clear_process, modify, each_conection, each_process,
  rate_calc, count_process, count_conection, rate_update,
}

set-set : (xs : List ℕ) (i v : ℕ) → set (set xs i v) i v ≡ set xs i v
set-set [] i v = refl
set-set (x ∷ xs) zero v = refl
set-set (x ∷ xs) (suc i) v = ap (λ k. x ∷ k) (set-set xs i v)

clear_samples-twice :
    (idx : ℕ) (ns : NetStat) → clear_samples idx (clear_samples idx ns) ≡ clear_samples idx ns
unfolding clear_samples
clear_samples-twice idx ns =
    rw
      (
        set-set ns.pps_rx idx 0,
        set-set ns.pps_tx idx 0,
        set-set ns.bps_rx idx 0,
        set-set ns.bps_tx idx 0,
      )
      refl

-- A place is in a list, and some process lists it.
abbrev pub lists : ℕ → List ℕ → Bool
lists c [] = false
lists c (d ∷ ds) = (d == c) || lists c ds

abbrev pub listed : ℕ → List Process → Bool
listed c [] = false
listed c (p ∷ proc) = lists c p.conections || listed c proc

length-modify :
    (g : Connection → Connection) (store : List Connection) (d : ℕ)
    → length (modify g store d) ≡ length store
length-modify g [] d = refl
length-modify g (conn ∷ store) zero = refl
length-modify g (conn ∷ store) (suc d) = ap suc (length-modify g store d)

length-each_conection :
    (g : Connection → Connection) (cs : List ℕ) (store : List Connection)
    → length (each_conection g cs store) ≡ length store
unfolding each_conection
length-each_conection g [] store = refl
length-each_conection g (d ∷ cs) store =
    length-each_conection g cs (modify g store d) ∙ length-modify g store d

get_or-modify :
    (g : Connection → Connection) (store : List Connection) (d c : ℕ) (other : Connection)
    → c < length store
    → get_or (modify g store d) c other
      ≡ (if d == c then g (get_or store c other) else get_or store c other)
get_or-modify g [] d c other h = absurd (omega arith)
get_or-modify g (conn ∷ store) zero zero other h = refl
get_or-modify g (conn ∷ store) zero (suc c) other h = ground arith
get_or-modify g (conn ∷ store) (suc d) zero other h = ground arith
get_or-modify g (conn ∷ store) (suc d) (suc c) other h =
    ground (arith, get_or-modify g store d c other (omega arith))

-- A change that does the same when it is done again.
module _ (g : Connection → Connection) (twice : (conn : Connection) → g (g conn) ≡ g conn) where
  get_or-each_conection :
      (cs : List ℕ) (store : List Connection) (c : ℕ) (other : Connection)
      → c < length store
      → get_or (each_conection g cs store) c other
        ≡ (if lists c cs then g (get_or store c other) else get_or store c other)
  unfolding each_conection
  get_or-each_conection [] store c other h = refl
  get_or-each_conection (d ∷ cs) store c other h = ground (
    arith,
    get_or-each_conection cs (modify g store d) c other (omega (arith, length-modify g store d)),
    get_or-modify g store d c other h,
    twice (get_or store c other),
  )

  get_or-each_process :
      (f : Process → Process) (proc : List Process) (store : List Connection) (c : ℕ)
      (other : Connection)
      → c < length store
      → get_or (each_process f g true proc store).1 c other
        ≡ (if listed c proc then g (get_or store c other) else get_or store c other)
  unfolding each_process
  get_or-each_process f [] store c other h = refl
  get_or-each_process f (p ∷ proc) store c other h = ground (
    arith,
    get_or-each_process f proc (each_conection g p.conections store) c other
        (omega (arith, length-each_conection g p.conections store)),
    get_or-each_conection p.conections store c other h,
    twice (get_or store c other),
  )

each_process-map :
    (f : Process → Process) (g : Connection → Connection) (b : Bool) (proc : List Process)
    (store : List Connection)
    → (each_process f g b proc store).0 ≡ map f proc
unfolding each_process
each_process-map f g b [] store = refl
each_process-map f g b (p ∷ proc) store = ap (λ rest. f p ∷ rest) (each_process-map f g b proc _)

each_process-hidden :
    (f : Process → Process) (g : Connection → Connection) (proc : List Process)
    (store : List Connection)
    → (each_process f g false proc store).1 ≡ store
unfolding each_process
each_process-hidden f g [] store = refl
each_process-hidden f g (p ∷ proc) store = each_process-hidden f g proc store

-- Both loops: `f` is done to each process, and `g` to each connection that is listed and shown.
pub each_process_lem :
    (f : Process → Process) (g : Connection → Connection)
    → ((conn : Connection) → g (g conn) ≡ g conn)
    → (b : Bool) (proc : List Process) (store : List Connection) (c : ℕ) (other : Connection)
    → c < length store
    → let (proc', store') = each_process f g b proc store in
      (proc' ≡ map f proc)
      × (get_or store' c other
          ≡ (if b && listed c proc then g (get_or store c other) else get_or store c other))
each_process_lem f g twice true proc store c other h =
    (each_process-map f g true proc store, get_or-each_process g twice f proc store c other h)
each_process_lem f g twice false proc store c other h = (
  each_process-map f g false proc store,
  ap (λ s. get_or s c other) (each_process-hidden f g proc store),
)

-- Samples that have 0 in the slot `idx`, and are as before in every other.
abbrev pub Emptied : ℕ → List ℕ → List ℕ → Type 0
Emptied idx xs xs' =
    (length xs' ≡ length xs)
    × ((k other : ℕ)
        → k < length xs
        → get_or xs' k other ≡ (if k == idx then 0 else get_or xs k other))

-- The counters after the slot `idx` has been emptied; the bytes of the last second are 0 for a
-- process, and as before for a connection; the totals and the averages are as before.
pub record Renewed (idx : ℕ) (process : Bool) (ns ns' : NetStat) : Type 0 where
  pub pps_rx : Emptied idx ns.pps_rx ns'.pps_rx
  pub pps_tx : Emptied idx ns.pps_tx ns'.pps_tx
  pub bps_rx : Emptied idx ns.bps_rx ns'.bps_rx
  pub bps_tx : Emptied idx ns.bps_tx ns'.bps_tx
  pub last_rx : ns'.bytes_last_sec_rx ≡ (if process then 0 else ns.bytes_last_sec_rx)
  pub last_tx : ns'.bytes_last_sec_tx ≡ (if process then 0 else ns.bytes_last_sec_tx)
  pub tot_rx : ns'.tot_bps_rx ≡ ns.tot_bps_rx
  pub tot_tx : ns'.tot_bps_tx ≡ ns.tot_bps_tx
  pub avg_bytes : (ns'.avg_bps_rx ≡ ns.avg_bps_rx) × (ns'.avg_bps_tx ≡ ns.avg_bps_tx)
  pub avg_packets : (ns'.avg_pps_rx ≡ ns.avg_pps_rx) × (ns'.avg_pps_tx ≡ ns.avg_pps_tx)

pub get_or-set :
    (xs : List ℕ) (idx v k other : ℕ)
    → k < length xs
    → get_or (set xs idx v) k other ≡ (if k == idx then v else get_or xs k other)
get_or-set [] idx v k other h = absurd (omega arith)
get_or-set (x ∷ xs) zero v zero other h = refl
get_or-set (x ∷ xs) zero v (suc k) other h = ground arith
get_or-set (x ∷ xs) (suc idx) v zero other h = ground arith
get_or-set (x ∷ xs) (suc idx) v (suc k) other h =
    ground (arith, get_or-set xs idx v k other (omega arith))

set-Emptied : (xs : List ℕ) (idx : ℕ) → Emptied idx xs (set xs idx 0)
set-Emptied xs idx = (length-set xs idx 0, λ k other h. get_or-set xs idx 0 k other h)

clear_process-Renewed : (idx : ℕ) (ns : NetStat) → Renewed idx true ns (clear_process idx ns)
unfolding clear_process clear_samples
clear_process-Renewed idx ns = record {
  pps_rx = set-Emptied ns.pps_rx idx;
  pps_tx = set-Emptied ns.pps_tx idx;
  bps_rx = set-Emptied ns.bps_rx idx;
  bps_tx = set-Emptied ns.bps_tx idx;
  last_rx = refl;
  last_tx = refl;
  tot_rx = refl;
  tot_tx = refl;
  avg_bytes = (refl, refl);
  avg_packets = (refl, refl);
}

clear_samples-Renewed : (idx : ℕ) (ns : NetStat) → Renewed idx false ns (clear_samples idx ns)
unfolding clear_samples
clear_samples-Renewed idx ns = record {
  pps_rx = set-Emptied ns.pps_rx idx;
  pps_tx = set-Emptied ns.pps_tx idx;
  bps_rx = set-Emptied ns.bps_rx idx;
  bps_tx = set-Emptied ns.bps_tx idx;
  last_rx = refl;
  last_tx = refl;
  tot_rx = refl;
  tot_tx = refl;
  avg_bytes = (refl, refl);
  avg_packets = (refl, refl);
}

-- The processes one by one: each has its counters renewed and nothing else changed.
abbrev pub AllRenewed : ℕ → List Process → List Process → Type 0
AllRenewed idx [] [] = Unit
AllRenewed idx [] (p' ∷ proc') = ⊥
AllRenewed idx (p ∷ proc) [] = ⊥
AllRenewed idx (p ∷ proc) (p' ∷ proc') =
    (p' ≡ record p { net_stat = p'.net_stat })
    × Renewed idx true p.net_stat p'.net_stat
    × AllRenewed idx proc proc'

map-AllRenewed :
    (idx : ℕ) (proc : List Process)
    → AllRenewed idx proc (map (count_process (clear_process idx)) proc)
map-AllRenewed idx [] = tt
map-AllRenewed idx (p ∷ proc) =
    (refl, clear_process-Renewed idx p.net_stat, map-AllRenewed idx proc)

-- A connection that is the same, or of which only the counters are renewed.
abbrev pub Touched : Bool → ℕ → Connection → Connection → Type 0
Touched true idx conn conn' =
    (conn' ≡ record conn { net_stat = conn'.net_stat })
    × Renewed idx false conn.net_stat conn'.net_stat
Touched false idx conn conn' = conn' ≡ conn

Touched-if :
    (b : Bool) (idx : ℕ) (conn conn' : Connection)
    → conn' ≡ (if b then count_conection (clear_samples idx) conn else conn)
    → Touched b idx conn conn'
Touched-if true idx conn conn' e = rw e (refl, clear_samples-Renewed idx conn.net_stat)
Touched-if false idx conn conn' e = e

-- `rate_update` moves to the next of the five slots. In every process it puts 0 into that slot of
-- the four rings of samples and sets the bytes of the last second to 0, and changes nothing else.
-- In a connection it puts 0 into that slot of the four rings exactly where connections are shown and
-- some process lists it, however many list it; every other connection is left as it was.
pub rate_update_lem :
    (view_conections : Bool) (idx_cir : ℕ) (proc : List Process) (store : List Connection) (c : ℕ)
    (other : Connection)
    → c < length store
    → let (idx, proc', store') = rate_update view_conections idx_cir proc store in
      (idx ≡ (idx_cir + 1) % 5)
      × AllRenewed idx proc proc'
      × Touched
          (view_conections && listed c proc)
          idx
          (get_or store c other)
          (get_or store' c other)
unfolding rate_update
rate_update_lem view_conections idx_cir proc store c other h =
    let idx = update_id_buff idx_cir in
    let (mapped, held) =
      each_process_lem (count_process (clear_process idx)) (count_conection (clear_samples idx))
        (λ conn. ap (λ ns. record conn { net_stat = ns }) (clear_samples-twice idx conn.net_stat))
        view_conections proc store c other h in
    (
      refl,
      rw mapped (map-AllRenewed idx proc),
      Touched-if (view_conections && listed c proc) idx _ _ held,
    )

rate_net_stat-twice :
    (view_bytes : Bool) (ns : NetStat)
    → rate_net_stat (rate_net_stat ns view_bytes) view_bytes ≡ rate_net_stat ns view_bytes
unfolding rate_net_stat
rate_net_stat-twice view_bytes ns = refl

-- `rate_calc` averages every process, and a connection exactly where connections are shown and some
-- process lists it.
pub rate_calc_lem :
    (view_bytes view_conections : Bool) (proc : List Process) (store : List Connection) (c : ℕ)
    (other : Connection)
    → c < length store
    → let (proc', store') = rate_calc view_bytes view_conections proc store in
      (proc' ≡ map (count_process (λ ns. rate_net_stat ns view_bytes)) proc)
      × (get_or store' c other ≡ (
          if view_conections && listed c proc
          then count_conection (λ ns. rate_net_stat ns view_bytes) (get_or store c other)
          else get_or store c other))
unfolding rate_calc
rate_calc_lem view_bytes view_conections proc store c other h =
    each_process_lem (count_process (λ ns. rate_net_stat ns view_bytes))
      (count_conection (λ ns. rate_net_stat ns view_bytes))
      (λ conn.
        ap (λ ns. record conn { net_stat = ns }) (rate_net_stat-twice view_bytes conn.net_stat))
      view_conections proc store c other h
