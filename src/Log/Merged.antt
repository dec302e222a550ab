-- ===== src/Log/Merged.antt =====
-- The totals of each program in the buffer of src/log.c.
use Prim.Native.String.{String}
use netproc.Types.{Process}
use netproc.Base.{
  ℕ, zero, suc, ◌+◌, ◌≤◌, ◌<◌, ◌≡◌, refl, ap, ap₂, sym, ◌∙◌, inl, inr, Bool, true, false, Option,
  none, some, Option-cases, List, [], ◌∷◌, ◌==◌, ltb, if◌then◌else◌, Bool-cases, codes, str_eq,
  take, set, length, length-set, u64_mod, total, arith, Returns,
}
use netproc.Vector.{Vector, vector_push, append_copy}
use netproc.Log.{
  LogProcess, Log, same_name, find_log, charge, change_slot, charge_at, new_log, add_log,
  update_one,
}

str_eq_sound : (a b : List ℕ) → str_eq a b ≡ true → a ≡ b
str_eq_sound [] [] h = refl
str_eq_sound [] (y ∷ b) h = absurd (cc)
str_eq_sound (x ∷ a) [] h = absurd (cc)
str_eq_sound (x ∷ a) (y ∷ b) h =
    let p : x ≡ y = ground (arith, h) in
    let q = str_eq_sound a b (ground (arith, h)) in ap₂ (λ u v. u ∷ v) p q

str_eq_refl : (a : List ℕ) → str_eq a a ≡ true
str_eq_refl [] = refl
str_eq_refl (x ∷ a) = ground (arith, str_eq_refl a)

-- Names that are the same are the same as any other.
same_name_eq : (a b c : String) → same_name a b ≡ true → same_name c a ≡ same_name c b
same_name_eq a b c h = ap (str_eq (codes c)) (str_eq_sound (codes a) (codes b) h)

-- What the buffer holds for a name, by one of its two counters.
module _ (tot : LogProcess → ℕ) where
  abbrev pub held : String → Option LogProcess → ℕ
  held n none = 0
  held n (some log) = if same_name n log.name then tot log else 0

  abbrev pub logged : String → Log → ℕ
  logged n s = total (held n) (take s.len_log_processes s.log_processes.cells)

-- The slots in use are those that the vector counts, and each name has one.
pub record IsValid (s : Log) : Type 0 where
  pub counted : s.log_processes.elements_used ≡ s.len_log_processes
  pub sized : length s.log_processes.cells ≡ s.log_processes.elements_allocated
  pub within : s.len_log_processes ≤ s.log_processes.elements_allocated
  pub once : (n : String) → logged (λ log. 1) n s ≤ 1

take-change_slot :
    (f : LogProcess → LogProcess) (len j : ℕ) (cells : List (Option LogProcess))
    → take len (change_slot f cells j) ≡ change_slot f (take len cells) j
take-change_slot f zero j cells = refl
take-change_slot f (suc len) j [] = refl
take-change_slot f (suc len) zero (none ∷ cells) = refl
take-change_slot f (suc len) zero (some log ∷ cells) = refl
take-change_slot f (suc len) (suc j) (none ∷ cells) =
    ap (λ r. none ∷ r) (take-change_slot f len j cells)
take-change_slot f (suc len) (suc j) (some log ∷ cells) =
    ap (λ r. some log ∷ r) (take-change_slot f len j cells)

length-change_slot :
    (f : LogProcess → LogProcess) (j : ℕ) (cells : List (Option LogProcess))
    → length (change_slot f cells j) ≡ length cells
length-change_slot f j [] = refl
length-change_slot f zero (none ∷ cells) = refl
length-change_slot f zero (some log ∷ cells) = refl
length-change_slot f (suc j) (none ∷ cells) = ap suc (length-change_slot f j cells)
length-change_slot f (suc j) (some log ∷ cells) = ap suc (length-change_slot f j cells)

next_found :
    (o : Option ℕ) (j : ℕ)
    → elim o as (λ x. Option ℕ) [ none ↦ none | some k ↦ some (suc k) ] ≡ some (suc j)
    → o ≡ some j
next_found none j h = absurd (cc)
next_found (some k) j h = ground (arith, h)

some_zero : (j : ℕ) → ◌≡◌ {A = Option ℕ} (some 0) (some (suc j)) → ⊥
some_zero j h = ground (arith, h)

next_not_first :
    (o : Option ℕ) → elim o as (λ x. Option ℕ) [ none ↦ none | some k ↦ some (suc k) ] ≡ some 0 → ⊥
next_not_first none h = absurd (cc)
next_not_first (some k) h = ground (arith, h)

-- The slot that the search finds gets what the process has sent or received.
module _ (tot : LogProcess → ℕ) (f : LogProcess → LogProcess) (more : ℕ)
    (named : (log : LogProcess) → (f log).name ≡ log.name) where
  total-change_slot :
      (name n : String) (cells : List (Option LogProcess)) (j : ℕ)
      → ((log : LogProcess) → tot log ≤ total (held tot name) cells → tot (f log) ≡ tot log + more)
      → find_log name cells ≡ some j
      → total (held tot n) (change_slot f cells j)
        ≡ total (held tot n) cells + (if same_name n name then more else 0)
  unfolding total find_log
  total-change_slot name n [] j up h = absurd (cc)
  total-change_slot name n (none ∷ cells) zero up h =
      absurd (next_not_first (find_log name cells) h)
  total-change_slot name n (none ∷ cells) (suc j) up h =
      let i =
        total-change_slot name n cells j (λ log l. up log (omega (arith, l)))
          (next_found (find_log name cells) j h) in
      omega (arith, i)
  total-change_slot name n (some log ∷ cells) zero up h =
      elim (Bool-cases (same_name name log.name)) [
        | inl e ↦
            let same = same_name_eq name log.name n e in
            let more_here = up log (ground (arith, e)) in
            let same_f : same_name n (f log).name ≡ same_name n name =
              ap (same_name n) (named log) ∙ sym same in
            rw (same_f, sym same) (ground (arith, more_here))
        | inr e ↦ absurd (next_not_first (find_log name cells) (rw e at h))
      ]
  total-change_slot name n (some log ∷ cells) (suc j) up h =
      elim (Bool-cases (same_name name log.name)) [
        | inl e ↦ absurd (some_zero j (rw e at h))
        | inr e ↦
            let i =
              total-change_slot name n cells j (λ log' l. up log' (ground (arith, e, l)))
                (next_found (find_log name cells) j (rw e at h)) in
            omega (arith, i)
      ]

none_next :
    (o : Option ℕ)
    → elim o as (λ x. Option ℕ) [ none ↦ none | some k ↦ some (suc k) ] ≡ none
    → o ≡ none
none_next none h = refl
none_next (some k) h = absurd (cc)

first_found : ◌≡◌ {A = Option ℕ} (some 0) none → ⊥
first_found h = absurd (cc)

found-held :
    (tot : LogProcess → ℕ) (name : String) (cells : List (Option LogProcess)) (j : ℕ)
    → ((log : LogProcess) → 0 < tot log)
    → find_log name cells ≡ some j
    → 0 < total (held tot name) cells
unfolding total find_log
found-held tot name [] j pos h = absurd (cc)
found-held tot name (none ∷ cells) zero pos h = absurd (next_not_first (find_log name cells) h)
found-held tot name (none ∷ cells) (suc j) pos h =
    omega (arith, found-held tot name cells j pos (next_found (find_log name cells) j h))
found-held tot name (some log ∷ cells) zero pos h = elim (Bool-cases (same_name name log.name)) [
  | inl e ↦ ground (arith, e, pos log)
  | inr e ↦ absurd (next_not_first (find_log name cells) (rw e at h))
]
found-held tot name (some log ∷ cells) (suc j) pos h = elim (Bool-cases (same_name name log.name)) [
  | inl e ↦ ground (arith, e, pos log)
  | inr e ↦
      omega
        (arith, found-held tot name cells j pos (next_found (find_log name cells) j (rw e at h)))
]

unfound-held :
    (tot : LogProcess → ℕ) (name : String) (cells : List (Option LogProcess))
    → find_log name cells ≡ none
    → total (held tot name) cells ≡ 0
unfolding total find_log
unfound-held tot name [] h = refl
unfound-held tot name (none ∷ cells) h =
    omega (arith, unfound-held tot name cells (none_next (find_log name cells) h))
unfound-held tot name (some log ∷ cells) h = elim (Bool-cases (same_name name log.name)) [
  | inl e ↦ absurd (first_found (rw e at h))
  | inr e ↦
      ground (arith, e, unfound-held tot name cells (none_next (find_log name cells) (rw e at h)))
]

-- A slot behind those in use.
total-take-set :
    (w : Option LogProcess → ℕ) (len : ℕ) (cells : List (Option LogProcess)) (c : Option LogProcess)
    → len < length cells
    → total w (take (suc len) (set cells len c)) ≡ total w (take len cells) + w c
unfolding total
total-take-set w len [] c h = absurd (omega (arith, h))
total-take-set w zero (d ∷ cells) c h = omega arith
total-take-set w (suc len) (d ∷ cells) c h =
    omega (arith, total-take-set w len cells c (omega (arith, h)))

take-set :
    (len : ℕ) (cells : List (Option LogProcess)) (c : Option LogProcess)
    → take len (set cells len c) ≡ take len cells
take-set zero cells c = refl
take-set (suc len) [] c = refl
take-set (suc len) (d ∷ cells) c = ap (λ r. d ∷ r) (take-set len cells c)

-- What `update_log_process` has done with one process: it goes on, the buffer is valid, and holds
-- for the name of the process what it held and what the process had in the last second, or all that
-- it had where the name is new; and for any other name what it held.
pub record Logged (s : Log) (p : Process) (r : Log × Bool) : Type 0 where
  pub going : r.1 ≡ true
  pub valid : IsValid r.0
  pub rx :
      (n : String)
      → logged (λ log. log.tot_bps_rx) n r.0
        ≡ logged (λ log. log.tot_bps_rx) n s
          + (if same_name n p.name
              then (if logged (λ log. 1) p.name s == 0
                  then p.net_stat.tot_bps_rx
                  else p.net_stat.bytes_last_sec_rx)
              else 0)
  pub tx :
      (n : String)
      → logged (λ log. log.tot_bps_tx) n r.0
        ≡ logged (λ log. log.tot_bps_tx) n s
          + (if same_name n p.name
              then (if logged (λ log. 1) p.name s == 0
                  then p.net_stat.tot_bps_tx
                  else p.net_stat.bytes_last_sec_tx)
              else 0)

-- The program's counters in the buffer stay below 2 ^ 64.
abbrev pub Small : Log → Process → Type 0
Small s p =
    (logged (λ log. log.tot_bps_rx) p.name s + p.net_stat.bytes_last_sec_rx < u64_mod)
    × (logged (λ log. log.tot_bps_tx) p.name s + p.net_stat.bytes_last_sec_tx < u64_mod)

zero_either : (b : Bool) → ◌≡◌ {A = ℕ} (if b then 0 else 0) 0
zero_either true = refl
zero_either false = refl

charge_at-Logged :
    (s : Log) (p : Process) (j : ℕ)
    → IsValid s
    → Small s p
    → find_log p.name (take s.len_log_processes s.log_processes.cells) ≡ some j
    → Logged s p (charge_at s p.net_stat j, true)
charge_at-Logged s p j v (small_rx, small_tx) h =
    let f = charge p.net_stat in
    let cells = s.log_processes.cells in
    let used = take s.len_log_processes cells in
    let seen : (logged (λ log. 1) p.name s == 0) ≡ false =
      ground (arith, found-held (λ log. 1) p.name used j (λ log. omega arith) h) in
    let slots = take-change_slot f s.len_log_processes j cells in
    record {
      going = refl;
      valid = record {
        counted = v.counted;
        sized = length-change_slot f j cells ∙ v.sized;
        within = v.within;
        once = λ n. omega (
          arith,
          ap (total (held (λ log. 1) n)) slots,
          total-change_slot (λ log. 1) f 0 (λ log. refl) p.name n used j (λ log l. omega arith) h,
          v.once n,
          zero_either (same_name n p.name),
        );
      };
      rx = λ n. rw seen (
          ap (total (held (λ log. log.tot_bps_rx) n)) slots
          ∙ total-change_slot (λ log. log.tot_bps_rx) f p.net_stat.bytes_last_sec_rx (λ log. refl)
              p.name n used j (λ log l. omega (arith, l, small_rx)) h);
      tx = λ n. rw seen (
          ap (total (held (λ log. log.tot_bps_tx) n)) slots
          ∙ total-change_slot (λ log. log.tot_bps_tx) f p.net_stat.bytes_last_sec_tx (λ log. refl)
              p.name n used j (λ log l. omega (arith, l, small_tx)) h);
    }

vector_push-room :
    (memory : Bool) (v : Vector LogProcess) (x : LogProcess)
    → (v.elements_used == v.elements_allocated) ≡ false
    → vector_push memory v x ≡ (append_copy v x, 1)
unfolding vector_push
vector_push-room memory v x e = rw e refl

abbrev added : Log → Process → Log
added s p = record {
  log_processes =
      append_copy
        (record s.log_processes {
          cells = set s.log_processes.cells s.len_log_processes (some (new_log p));
        })
        (new_log p);
  len_log_processes = s.len_log_processes + 1;
}

add_log-added :
    (push_memory : Bool) (s : Log) (p : Process)
    → IsValid s
    → s.len_log_processes < s.log_processes.elements_allocated
    → add_log push_memory s p ≡ (added s p, true)
add_log-added push_memory s p v room =
    let filled = record s.log_processes {
      cells = set s.log_processes.cells s.len_log_processes (some (new_log p));
    } in
    let e : (s.log_processes.elements_used == s.log_processes.elements_allocated) ≡ false =
      ground (arith, v.counted, room) in
    ap
      (λ (r : Vector LogProcess × ℕ).
        (record { log_processes = r.0; len_log_processes = s.len_log_processes + 1 }, r.1 == 1))
      (vector_push-room push_memory filled (new_log p) e)

total-added :
    (w : Option LogProcess → ℕ) (s : Log) (p : Process)
    → IsValid s
    → s.len_log_processes < s.log_processes.elements_allocated
    → total w (take (added s p).len_log_processes (added s p).log_processes.cells)
      ≡ total w (take s.len_log_processes s.log_processes.cells) + w (some (new_log p))
total-added w s p v room =
    let c = some (new_log p) in
    let len = s.len_log_processes in
    let cells = s.log_processes.cells in
    let width : len < length (set cells len c) =
      omega (arith, room, v.sized, length-set cells len c) in
    ap₂ (λ k i. total w (take k (set (set cells len c) i c))) {x = len + 1} {y = suc len}
      (omega arith) v.counted
    ∙ (total-take-set w len (set cells len c) c width
        ∙ ap (λ xs. total w xs + w c) (take-set len cells c))

-- What is held depends on the bytes of the name alone.
held_codes :
    (tot : LogProcess → ℕ) (a b : String) (cells : List (Option LogProcess))
    → codes a ≡ codes b
    → total (held tot a) cells ≡ total (held tot b) cells
unfolding total
held_codes tot a b [] e = refl
held_codes tot a b (none ∷ cells) e = ap (λ k. 0 + k) (held_codes tot a b cells e)
held_codes tot a b (some log ∷ cells) e =
    let same : same_name a log.name ≡ same_name b log.name =
      ap (λ x. str_eq x (codes log.name)) e in
    ap₂ (λ c k. (if c then tot log else 0) + k) same (held_codes tot a b cells e)

once_more :
    (s : Log) (p : Process) (n : String)
    → logged (λ log. 1) n (added s p) ≡ logged (λ log. 1) n s + held (λ log. 1) n (some (new_log p))
    → logged (λ log. 1) n s ≤ 1
    → logged (λ log. 1) p.name s ≡ 0
    → logged (λ log. 1) n (added s p) ≤ 1
once_more s p n e once unseen = elim (Bool-cases (same_name n p.name)) [
  | inl same ↦
      let name : codes n ≡ codes p.name = str_eq_sound (codes n) (codes p.name) same in
      let here : logged (λ log. 1) n s ≡ 0 =
        held_codes (λ log. 1) n p.name (take s.len_log_processes s.log_processes.cells) name
        ∙ unseen in
      ground (arith, e, here)
  | inr other ↦ ground (arith, e, once, other)
]

added-Logged :
    (s : Log) (p : Process)
    → IsValid s
    → s.len_log_processes < s.log_processes.elements_allocated
    → s.log_processes.elements_allocated < u64_mod
    → find_log p.name (take s.len_log_processes s.log_processes.cells) ≡ none
    → Logged s p (added s p, true)
added-Logged s p v room small h =
    let cells = s.log_processes.cells in
    let c = some (new_log p) in
    let used = take s.len_log_processes cells in
    let unseen = unfound-held (λ log. 1) p.name used h in
    let new : (logged (λ log. 1) p.name s == 0) ≡ true = ground (arith, unseen) in
    record {
      going = refl;
      valid = record {
        counted = omega (arith, v.counted, room, small);
        sized =
            length-set (set cells s.len_log_processes c) s.log_processes.elements_used c
            ∙ (length-set cells s.len_log_processes c ∙ v.sized);
        within = omega (arith, room);
        once = λ n. once_more s p n (total-added (held (λ log. 1) n) s p v room) (v.once n) unseen;
      };
      rx = λ n. rw new (total-added (held (λ log. log.tot_bps_rx) n) s p v room);
      tx = λ n. rw new (total-added (held (λ log. log.tot_bps_tx) n) s p v room);
    }

-- As long as the buffer has a slot that is not in use and there is memory for the name, one process
-- is merged into it by its name: the buffer stays valid, with one slot for each name, and its totals
-- grow by the traffic of the last second where the name was known, and start with the traffic of the
-- process where it is new; those of the other names stay.
pub update_one-Logged :
    (push_memory : Bool) (s : Log) (p : Process)
    → IsValid s
    → s.len_log_processes < s.log_processes.elements_allocated
    → s.log_processes.elements_allocated < u64_mod
    → Small s p
    → Returns (update_one true push_memory s p) (Logged s p)
update_one-Logged push_memory s p v room small bound =
    elim (Option-cases (find_log p.name (take s.len_log_processes s.log_processes.cells))) [
      | inl e ↦
          let space : ltb s.len_log_processes s.log_processes.elements_allocated ≡ true =
            ground (arith, room) in
          rw (e, space, add_log-added push_memory s p v room)
            (_, refl, added-Logged s p v room small e)
      | inr (j, e) ↦ rw e (_, refl, charge_at-Logged s p j v bound e)
    ]
