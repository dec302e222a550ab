-- ===== src/Processes/Dead.antt =====
-- The walk of src/processes.c over its table that frees the processes without a sign of life since
-- the last update.
use mathlib.Core.Option.{some-injective}
use netproc.Types.{Process}
use netproc.Base.{
  ℕ, zero, suc, ◌≤◌, ◌<◌, ◌≡◌, ◌⊎◌, inl, inr, refl, ap, sym, ◌∙◌, Bool, true, false, ◌||◌, ◌&&◌,
  not, Option, none, some, List, [], ◌∷◌, ◌++◌, if◌then◌else◌, ◌==◌, Bool-cases, arith, length,
}
use netproc.Hashtable.{Chain, Entry, remove_chain, find_entry}
use netproc.Hashtable.Chain.{lookup, lookup-none, count, Kept}
use netproc.Statistics.{change_process}
use netproc.Processes.{Memory, is_active, set_active, remove_dead_proc, same_pid}

abbrev pub pid_of : List Process → ℕ → Option ℕ
pid_of [] p = none
pid_of (process ∷ store) zero = some process.pid
pid_of (process ∷ store) (suc p) = pid_of store p

abbrev pub is_freed : ℕ → List ℕ → Bool
is_freed p [] = false
is_freed p (q ∷ freed) = (p == q) || is_freed p freed

pub is_freed-append :
    (p q : ℕ) (freed : List ℕ) → is_freed p (freed ++ (q ∷ [])) ≡ (is_freed p freed || (p == q))
is_freed-append p q [] = ground arith
is_freed-append p q (r ∷ freed) = ground (arith, is_freed-append p q freed)

-- A change that keeps the numbers of the processes.
module _ (f : Process → Process) (same : (process : Process) → (f process).pid ≡ process.pid) where
  pub pid_of-change :
      (store : List Process) (p q : ℕ) → pid_of (change_process f store p) q ≡ pid_of store q
  pid_of-change [] p q = refl
  pid_of-change (process ∷ store) zero zero = ap some (same process)
  pid_of-change (process ∷ store) zero (suc q) = refl
  pid_of-change (process ∷ store) (suc p) zero = refl
  pid_of-change (process ∷ store) (suc p) (suc q) = pid_of-change store p q

pub length-change_process :
    (f : Process → Process) (store : List Process) (p : ℕ)
    → length (change_process f store p) ≡ length store
length-change_process f [] p = refl
length-change_process f (process ∷ store) zero = refl
length-change_process f (process ∷ store) (suc p) = ap suc (length-change_process f store p)

pub pid_of-lt : (store : List Process) (p k : ℕ) → pid_of store p ≡ some k → p < length store
pid_of-lt [] p k h = absurd (cc)
pid_of-lt (process ∷ store) zero k h = omega arith
pid_of-lt (process ∷ store) (suc p) k h = omega (arith, pid_of-lt store p k h)

is_active-set :
    (store : List Process) (p q : ℕ)
    → is_active (set_active false store p) q ≡ (if p == q then false else is_active store q)
is_active-set [] p q = ground arith
is_active-set (process ∷ store) zero zero = refl
is_active-set (process ∷ store) zero (suc q) = ground arith
is_active-set (process ∷ store) (suc p) zero = ground arith
is_active-set (process ∷ store) (suc p) (suc q) = ground (arith, is_active-set store p q)

-- Every entry is of a process of its number that has not been freed.
abbrev pub Keyed : Memory → Chain ℕ ℕ → Type 0
Keyed m [] = Unit
Keyed m (e ∷ c) =
    (pid_of m.store e.value ≡ some e.key) × (is_freed e.value m.freed ≡ false) × Keyed m c

-- A place that one of the entries has.
abbrev pub stands : ℕ → Chain ℕ ℕ → Bool
stands x [] = false
stands x (e ∷ c) = (e.value == x) || stands x c

-- A process, if it has shown a sign of life.
abbrev pub alive : List Process → Option ℕ → Option ℕ
alive store none = none
alive store (some p) = if is_active store p then some p else none

module _ (pid_hash : ℕ → ℕ) where
  abbrev pub occurs : ℕ → Chain ℕ ℕ → ℕ
  occurs q c = count pid_hash same_pid q c

  abbrev pub Unique : Chain ℕ ℕ → Type 0
  Unique c = (q : ℕ) → occurs q c ≤ 1

  -- A process whose number no entry has is at no entry's place.
  elsewhere :
      (m : Memory) (e : Entry ℕ ℕ) (c : Chain ℕ ℕ) (x k : ℕ)
      → e.key_hash ≡ pid_hash e.key
      → pid_of m.store e.value ≡ some e.key
      → pid_of m.store x ≡ some k
      → occurs k (e ∷ c) ≡ 0
      → ((e.value == x) ≡ false) × (occurs k c ≡ 0)
  unfolding count
  elsewhere m e c x k h p q none_there = elim (Bool-cases (e.value == x)) [
    | inl same ↦
        let place : e.value ≡ x = ground (arith, same) in
        let key : e.key ≡ k = some-injective e.key k (sym p ∙ (ap (pid_of m.store) place ∙ q)) in
        absurd (ground (arith, none_there, key, h ∙ ap pid_hash key))
    | inr other ↦ (other, omega (arith, none_there))
  ]

  stands-elsewhere :
      (m : Memory) (c : Chain ℕ ℕ) (x k : ℕ)
      → Kept pid_hash same_pid c
      → pid_of m.store x ≡ some k
      → occurs k c ≡ 0
      → Keyed m c
      → stands x c ≡ false
  stands-elsewhere m [] x k h p z keyed = refl
  stands-elsewhere m (e ∷ c) x k (h, hs) p z (a, b, keyed) =
      let (other, z') = elsewhere m e c x k h a p z in
      rw other (stands-elsewhere m c x k hs p z' keyed)

  rest-Unique : (e : Entry ℕ ℕ) (c : Chain ℕ ℕ) → Unique (e ∷ c) → Unique c
  unfolding count
  rest-Unique e c u q = omega (arith, u q)

  own_absent :
      (e : Entry ℕ ℕ) (c : Chain ℕ ℕ)
      → e.key_hash ≡ pid_hash e.key
      → occurs e.key (e ∷ c) ≤ 1
      → occurs e.key c ≡ 0
  unfolding count
  own_absent e c h once = ground (arith, h, once)

  Keyed-freed :
      (m : Memory) (c : Chain ℕ ℕ) (x k : ℕ)
      → Kept pid_hash same_pid c
      → pid_of m.store x ≡ some k
      → occurs k c ≡ 0
      → Keyed m c
      → Keyed (record m { freed = m.freed ++ (x ∷ []) }) c
  Keyed-freed m [] x k h p z keyed = tt
  Keyed-freed m (e ∷ c) x k (h, hs) p z (a, b, keyed) =
      let (other, z') = elsewhere m e c x k h a p z in
      (
        a,
        ground (arith, b, other, is_freed-append e.value x m.freed),
        Keyed-freed m c x k hs p z' keyed,
      )

  Keyed-inactive :
      (m : Memory) (c : Chain ℕ ℕ) (x : ℕ)
      → Keyed m c
      → Keyed (record m { store = set_active false m.store x }) c
  Keyed-inactive m [] x keyed = tt
  Keyed-inactive m (e ∷ c) x (a, b, keyed) = (
    pid_of-change (λ process. record process { active = false }) (λ process. refl) m.store x e.value
        ∙ a,
    b,
    Keyed-inactive m c x keyed,
  )

  -- What the walk leaves of a process that no entry is about.
  record Untouched (m m' : Memory) (x : ℕ) : Type 0 where
    freed : is_freed x m'.freed ≡ is_freed x m.freed
    active : is_active m'.store x ≡ is_active m.store x

  walk-Untouched :
      (m : Memory) (c : Chain ℕ ℕ) (x k : ℕ)
      → Kept pid_hash same_pid c
      → Unique c
      → pid_of m.store x ≡ some k
      → occurs k c ≡ 0
      → Keyed m c
      → Untouched m (remove_chain remove_dead_proc c m).0 x
  unfolding remove_chain remove_dead_proc
  walk-Untouched m [] x k h u p z keyed = record { freed = refl; active = refl }
  walk-Untouched m (e ∷ c) x k (h, hs) u p z (a, b, keyed) =
      let (other, z') = elsewhere m e c x k h a p z in
      let unique = rest-Unique e c u in
      elim (Bool-cases (is_active m.store e.value)) [
        | inl on ↦
            let m' = record m { store = set_active false m.store e.value } in
            let kept_pid =
              pid_of-change (λ process. record process { active = false }) (λ process. refl) m.store
                e.value x in
            let r =
              walk-Untouched m' c x k hs unique (kept_pid ∙ p) z'
                (Keyed-inactive m c e.value keyed) in
            rw on record {
              freed = r.freed;
              active = ground (arith, r.active, other, is_active-set m.store e.value x);
            }
        | inr off ↦
            let m' = record m { freed = m.freed ++ (e.value ∷ []) } in
            let own_gone = own_absent e c h (u e.key) in
            let r =
              walk-Untouched m' c x k hs unique p z'
                (Keyed-freed m c e.value e.key hs a own_gone keyed) in
            rw off record {
              freed = ground (arith, r.freed, other, is_freed-append x e.value m.freed);
              active = r.active;
            }
      ]

  -- What the walk over the entries has done.
  pub record Walked (m : Memory) (c : Chain ℕ ℕ) (m' : Memory) (kept : Chain ℕ ℕ) : Type 0 where
    pub keyed : Keyed m' kept
    pub pids : (p : ℕ) → pid_of m'.store p ≡ pid_of m.store p
    pub size : length m'.store ≡ length m.store
    pub dead :
        (x : ℕ)
        → is_freed x m'.freed ≡ (is_freed x m.freed || (stands x c && not (is_active m.store x)))
    pub reset : (x : ℕ) → is_active m'.store x ≡ (is_active m.store x && not (stands x c))
    pub bounded :
        (x : ℕ) → is_freed x m'.freed ≡ true → (is_freed x m.freed ≡ true) ⊎ (x < length m.store)
    pub found :
        (q : ℕ) → lookup pid_hash same_pid q kept ≡ alive m.store (lookup pid_hash same_pid q c)

  -- Where the walk changes another process, those of the entries that come are as before.
  alive-change :
      (m : Memory) (x k q : ℕ) (c : Chain ℕ ℕ)
      → Kept pid_hash same_pid c
      → pid_of m.store x ≡ some k
      → occurs k c ≡ 0
      → Keyed m c
      → alive (set_active false m.store x) (lookup pid_hash same_pid q c)
        ≡ alive m.store (lookup pid_hash same_pid q c)
  unfolding lookup find_entry
  alive-change m x k q [] h p z keyed = refl
  alive-change m x k q (e ∷ c) (h, hs) p z (a, b, keyed) =
      let (other, z') = elsewhere m e c x k h a p z in
      ground (arith, other, is_active-set m.store x e.value, alive-change m x k q c hs p z' keyed)

  lookup-kept :
      (e : Entry ℕ ℕ) (c kept : Chain ℕ ℕ) (store store' : List Process) (q : ℕ)
      → is_active store e.value ≡ true
      → alive store' (lookup pid_hash same_pid q c) ≡ alive store (lookup pid_hash same_pid q c)
      → lookup pid_hash same_pid q kept ≡ alive store' (lookup pid_hash same_pid q c)
      → lookup pid_hash same_pid q (e ∷ kept) ≡ alive store (lookup pid_hash same_pid q (e ∷ c))
  unfolding lookup find_entry
  lookup-kept e c kept store store' q on f g = ground (arith, on, f, g)

  lookup-gone :
      (e : Entry ℕ ℕ) (c kept : Chain ℕ ℕ) (store : List Process) (q : ℕ)
      → is_active store e.value ≡ false
      → occurs q (e ∷ c) ≤ 1
      → lookup pid_hash same_pid q kept ≡ alive store (lookup pid_hash same_pid q c)
      → lookup pid_hash same_pid q kept ≡ alive store (lookup pid_hash same_pid q (e ∷ c))
  unfolding lookup find_entry count
  lookup-gone e c kept store q off once g =
      ground (arith, off, once, g, lookup-none pid_hash same_pid q c)

  pub walk-Walked :
      (m : Memory) (c : Chain ℕ ℕ)
      → Kept pid_hash same_pid c
      → Unique c
      → Keyed m c
      → Walked m c (remove_chain remove_dead_proc c m).0 (remove_chain remove_dead_proc c m).1
  unfolding remove_chain remove_dead_proc lookup find_entry
  walk-Walked m [] h u keyed = record {
    keyed = tt;
    pids = λ p. refl;
    size = refl;
    dead = λ x. ground arith;
    reset = λ x. ground arith;
    bounded = λ x f. inl f;
    found = λ q. refl;
  }
  walk-Walked m (e ∷ c) (h, hs) u (a, b, keyed) =
      let own_gone = own_absent e c h (u e.key) in
      let unique = rest-Unique e c u in
      elim (Bool-cases (is_active m.store e.value)) [
        | inl on ↦
            let m' = record m { store = set_active false m.store e.value } in
            let kept_pid =
              pid_of-change (λ process. record process { active = false }) (λ process. refl) m.store
                e.value in
            let keyed' = Keyed-inactive m c e.value keyed in
            let r = walk-Walked m' c hs unique keyed' in
            let own_process =
              walk-Untouched m' c e.value e.key hs unique (kept_pid e.value ∙ a) own_gone keyed' in
            let width =
              length-change_process (λ process. record process { active = false }) m.store
                e.value in
            rw on record {
              keyed = (r.pids e.value ∙ (kept_pid e.value ∙ a), own_process.freed ∙ b, r.keyed);
              pids = λ p. r.pids p ∙ kept_pid p;
              size = r.size ∙ width;
              dead = λ x.
                  let own : (e.value == x) ≡ true → stands x c ≡ false = λ same.
                    let place : e.value ≡ x = ground (arith, same) in
                    ap (λ y. stands y c) (sym place)
                    ∙ stands-elsewhere m c e.value e.key hs a own_gone keyed in
                  elim (Bool-cases (e.value == x)) [
                    | inl same ↦
                        let place : e.value ≡ x = ground (arith, same) in
                        let was : is_active m.store x ≡ true = rw (sym place) on in
                        ground (arith, r.dead x, same, own same, was)
                    | inr other ↦ ground (arith, r.dead x, other, is_active-set m.store e.value x)
                  ];
              reset = λ x. ground (arith, r.reset x, is_active-set m.store e.value x);
              bounded = λ x f. ground (arith, r.bounded x f, width);
              found = λ q.
                  lookup-kept e c (remove_chain remove_dead_proc c m').1 m.store m'.store q on
                    (alive-change m e.value e.key q c hs a own_gone keyed) (r.found q);
            }
        | inr off ↦
            let m' = record m { freed = m.freed ++ (e.value ∷ []) } in
            let r =
              walk-Walked m' c hs unique (Keyed-freed m c e.value e.key hs a own_gone keyed) in
            rw off record {
              keyed = r.keyed;
              pids = r.pids;
              size = r.size;
              dead = λ x. elim (Bool-cases (e.value == x)) [
                | inl same ↦
                    let place : e.value ≡ x = ground (arith, same) in
                    let was : is_active m.store x ≡ false = rw (sym place) off in
                    ground (arith, r.dead x, is_freed-append x e.value m.freed, same, place, was)
                | inr other ↦ ground (arith, r.dead x, is_freed-append x e.value m.freed, other)
              ];
              reset = λ x. elim (Bool-cases (e.value == x)) [
                | inl same ↦
                    let place : e.value ≡ x = ground (arith, same) in
                    let was : is_active m.store x ≡ false = rw (sym place) off in
                    ground (arith, r.reset x, was)
                | inr other ↦ ground (arith, r.reset x, other)
              ];
              bounded = λ x f. ground (
                arith,
                r.bounded x f,
                is_freed-append x e.value m.freed,
                pid_of-lt m.store e.value e.key a,
              );
              found = λ q.
                  lookup-gone e c (remove_chain remove_dead_proc c m').1 m.store q off (u q)
                    (r.found q);
            }
      ]
